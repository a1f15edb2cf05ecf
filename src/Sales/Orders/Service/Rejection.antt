-- ===== src/Sales/Orders/Service/Rejection.antt =====
-- A reservation that the inventory did not make: a rejection is final for its key, an ambiguous
-- failure leaves the key open.
use tarea_integracion_sistem.Prelude.{◌≡◌, refl, sym, ap, ◌∙◌, true, false, some, ◌<◌, leb, arith}
use tarea_integracion_sistem.Prelude.Result.{err}
use tarea_integracion_sistem.Prelude.Tx.{commits}
use tarea_integracion_sistem.Prelude.Act.{◌>>=◌}
use tarea_integracion_sistem.Text.{Text, to_lower_case}
use tarea_integracion_sistem.Text.Laws.{text_eq_refl}
use tarea_integracion_sistem.Sales.Errors.{ApiError, api_error, Exception, api}
use tarea_integracion_sistem.Sales.Gateway.{InventoryGateway}
use tarea_integracion_sistem.Sales.Orders.Views.Restoring.{stored_failure-failure_body}
use tarea_integracion_sistem.Sales.Orders.Tables.{
  Tables, TablesLaws, IdempotencyRequest, in_progress,
}
use tarea_integracion_sistem.Sales.Orders.Service.{
  OrderCreate, Environment, World, normalize_items, is_valid_key, create, create_body,
  no_reservation, failure, ambiguous_failure, public_inventory_error, reserve_for, after_reserve,
  reserve_failed, call_reserve, update_claim, failed_with,
}
use tarea_integracion_sistem.Sales.Orders.Service.Replay.{
  fingerprint, create_of_outcome, failed_replays, body_reserves_lem,
}

module _ (tables : Tables) (laws : TablesLaws tables) {Remote : Type 0}
    (gateway : InventoryGateway Remote) (env : Environment) (key : Text) (body : OrderCreate)
    (entry : IdempotencyRequest) (w : World tables.Db Remote) (valid : is_valid_key key ≡ true)
    (found : tables.find_request key w.db ≡ some entry) (ends : env.create_fate ≡ commits)
    (same : entry.request_hash ≡ fingerprint env body) (open_key : entry.state ≡ in_progress)
    (customer : tables.has_customer (to_lower_case body.customer_id) w.db ≡ true) where
  body_reserves :
      create_body tables gateway env key
        (fingerprint env body)
        (to_lower_case body.customer_id)
        (normalize_items body.items)
        (no_reservation tables gateway env w)
      ≡ reserve_for tables gateway env key entry
          (to_lower_case body.customer_id)
          (normalize_items body.items)
          true
          (no_reservation tables gateway env w)
  body_reserves = body_reserves_lem tables gateway env key body entry _ found same open_key customer

  -- A failure that leaves it open whether the inventory reserved (a 5xx, or no answer of the
  -- contract) is reported, and the database is left as it was: the key stays in progress, so that
  -- the same request may be sent again.
  pub ambiguous_failure_keeps_key :
      (e : Exception) (after : Remote)
      → ambiguous_failure e ≡ true
      → gateway.reserve entry.order_id (normalize_items body.items) env.trace_id w.remote
        ≡ (err e, after)
      → create tables gateway env body (some key) w ≡ (
        err (api (public_inventory_error e)),
        record w {
          remote = after;
          reservation_order_id = some entry.order_id;
          reservation_succeeded = false;
        },
      )
  unfolding reserve_for call_reserve after_reserve reserve_failed ◌>>=◌
  ambiguous_failure_keeps_key e after unsure refused =
      create_of_outcome tables laws gateway env key body entry w valid found ends
        (failure (public_inventory_error e)) _ (body_reserves ∙ rw (refused, unsure) refl)

  -- A rejection by the inventory (a 4xx) is the answer, and the key is failed with it.
  pub rejection_fails_key :
      (error : ApiError) (after : Remote)
      → error.status < 500
      → gateway.reserve entry.order_id (normalize_items body.items) env.trace_id w.remote
        ≡ (err (api error), after)
      → (db' : tables.Db) × (create tables gateway env body (some key) w ≡ (
        err (api error),
        record w {
          db = db';
          remote = after;
          reservation_order_id = some entry.order_id;
          reservation_succeeded = false;
        },
      ))
        × (tables.find_request key db' ≡ some (failed_with error entry))
  unfolding reserve_for call_reserve after_reserve reserve_failed update_claim ◌>>=◌
  rejection_fails_key error after rejected refused =
      let closed : leb 500 error.status ≡ false = ground arith in
      let (db', wrote, requests, orders, customers) =
        laws.update_request_law key entry (failed_with error entry) w.db found in
      (
        db',
        create_of_outcome tables laws gateway env key body entry w valid found ends (failure error)
            _ (body_reserves ∙ rw (refused, closed, wrote) refl),
        requests key ∙ rw (text_eq_refl key),
      )

  -- The same request, sent again at any later time, is answered with the same rejection, and
  -- neither asks the inventory nor changes anything, even if the stock is there by then.
  pub rejection_replays_held :
      (error : ApiError) (after : Remote) (later : Environment)
      → error.status < 500
      → gateway.reserve entry.order_id (normalize_items body.items) env.trace_id w.remote
        ≡ (err (api error), after)
      → later.create_fate ≡ commits
      → fingerprint later body ≡ fingerprint env body
      → let w' = (create tables gateway env body (some key) w).1 in
        ((create tables gateway env body (some key) w).0 ≡ err (api error))
        × (create tables gateway later body (some key) w' ≡ (
          err (api (api_error error.status error.code error.message)),
          no_reservation tables gateway later w',
        ))
  rejection_replays_held error after later rejected refused later_ends reads =
      let (db', run, stored) = rejection_fails_key error after rejected refused in
      let here : tables.find_request key (create tables gateway env body (some key) w).1.db
          ≡ some (failed_with error entry) =
        ap (λ r. tables.find_request key r.1.db) run ∙ stored in
      (
        ap (λ r. r.0) run,
        failed_replays tables laws gateway later key body (failed_with error entry) _ valid here
              later_ends (same ∙ sym reads) refl
            ∙ rw (stored_failure-failure_body error) refl,
      )
