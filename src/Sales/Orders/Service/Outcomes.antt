-- ===== src/Sales/Orders/Service/Outcomes.antt =====
-- The ends of a request for an order, whether its key is new or in progress.
use tarea_integracion_sistem.Prelude.{
  ◌≡◌, ◌<◌, sym, ◌∙◌, subst, true, false, List, [], map, none, some,
}
use tarea_integracion_sistem.Prelude.Result.{ok, err}
use tarea_integracion_sistem.Prelude.Tx.{commits, rolled_back, ack_lost}
use tarea_integracion_sistem.Text.{Text, text_eq, to_lower_case}
use tarea_integracion_sistem.Sales.Errors.{ApiError, api_error, internal_failure, Exception, api}
use tarea_integracion_sistem.Sales.Gateway.{InventoryGateway, ReservedStockItem}
use tarea_integracion_sistem.Sales.Orders.Views.{to_order_view, restore_create_response}
use tarea_integracion_sistem.Sales.Orders.Tables.{
  Tables, TablesLaws, IdempotencyRequest, IsFresh, AreStorable,
}
use tarea_integracion_sistem.Sales.Orders.Service.{
  OrderCreate, Environment, World, normalize_items, is_valid_key, create, no_reservation,
  assert_reservation_matches, new_order, snapshot_row, failed_with,
}
use tarea_integracion_sistem.Sales.Orders.Service.Replay.{fingerprint}
use tarea_integracion_sistem.Sales.Orders.Service.Claiming.{IsOpen, claims_open}
use tarea_integracion_sistem.Sales.Orders.Service.Matching.{IsAnswer, assert_refuses}
use tarea_integracion_sistem.Sales.Orders.Service.Rejection.{rejection_replays_held}
use tarea_integracion_sistem.Sales.Orders.Service.Recovery.{mismatch_held}
use tarea_integracion_sistem.Sales.Orders.Service.Confirmation.{
  made_order, confirmed_claim, lost_answer_held, rollback_held,
}

module _ (tables : Tables) (laws : TablesLaws tables) {Remote : Type 0}
    (gateway : InventoryGateway Remote) (env : Environment) (key : Text) (body : OrderCreate)
    (entry : IdempotencyRequest) (w : World tables.Db Remote) (valid : is_valid_key key ≡ true)
    (start : IsOpen tables env key body w.db entry)
    (customer : tables.has_customer (to_lower_case body.customer_id) w.db ≡ true) where
  -- A known customer's request, under a valid key that is in progress for it, or new (with an
  -- order id that no other key has, and a hash of 64 units), is rejected by the reservation with
  -- a 4xx, and the transaction commits: the caller gets that rejection. The same request, sent
  -- again with the same fingerprint at any later time while its transaction commits, gets the
  -- rejection of that status, code and message, and neither asks the inventory nor changes a
  -- table, even if the stock is there by then.
  pub rejection_replays :
      (error : ApiError) (after : Remote) (later : Environment)
      → env.create_fate ≡ commits
      → error.status < 500
      → gateway.reserve entry.order_id (normalize_items body.items) env.trace_id w.remote
        ≡ (err (api error), after)
      → later.create_fate ≡ commits
      → fingerprint later body ≡ fingerprint env body
      → let w' = (create tables gateway env body (some key) w).1 in
        ((create tables gateway env body (some key) w).0 ≡ err (api error))
        × (create tables gateway later body (some key) w' ≡ (
          err (api (api_error error.status error.code error.message)),
          no_reservation tables gateway later w',
        ))
  rejection_replays error after later ends rejected refused later_ends reads =
      let (db, claimed) = claims_open tables laws gateway env key body w valid entry start in
      subst
        (λ r.
          (r.0 ≡ err (api error))
          × (create tables gateway later body (some key) r.1 ≡ (
            err (api (api_error error.status error.code error.message)),
            no_reservation tables gateway later r.1,
          )))
        (sym claimed.runs)
        (rejection_replays_held tables laws gateway env key body entry (record w { db = db }) valid
          claimed.holds.found ends claimed.holds.same claimed.holds.held
          (claimed.customers (to_lower_case body.customer_id) ∙ customer) error after later rejected
          refused later_ends reads)

  module _ (identified : text_eq entry.order_id [] ≡ false) (snapshots : List ReservedStockItem)
      (after : Remote)
      (reserved : gateway.reserve entry.order_id (normalize_items body.items) env.trace_id w.remote
        ≡ (ok snapshots, after)) where
    -- A known customer's request, under a valid key that is in progress for it, or new (with an
    -- order id that no other key has, and a hash of 64 units), whose order id is not empty: the
    -- inventory answers the reservation with other lines than were asked for (another number of
    -- them, or a part that is missing or has another quantity). When the release then succeeds
    -- and both transactions of the recovery commit, the key is failed and the caller is told of
    -- an internal error.
    pub mismatch_is_released :
        (returned : Remote)
        → ¬ IsAnswer (normalize_items body.items) snapshots
        → gateway.release entry.order_id env.trace_id after ≡ (ok tt, returned)
        → env.prepare_fate ≡ commits
        → env.compensate_fate ≡ commits
        → (db' : tables.Db) × (create tables gateway env body (some key) w ≡ (
          err (api internal_failure),
          record w {
            db = db';
            remote = returned;
            reservation_order_id = some entry.order_id;
            reservation_succeeded = true;
          },
        ))
          × (tables.find_request key db' ≡ some (failed_with internal_failure entry))
    mismatch_is_released returned other released prepares compensates =
        let (db, claimed) = claims_open tables laws gateway env key body w valid entry start in
        let (x, differs) = assert_refuses (normalize_items body.items) snapshots other in
        let (db', run, stored) =
          mismatch_held tables laws gateway env key body entry (record w { db = db }) valid
            claimed.holds.found claimed.holds.same claimed.holds.held
            (claimed.customers (to_lower_case body.customer_id) ∙ customer) identified snapshots
            after reserved x returned differs released prepares compensates in
        (db', claimed.runs ∙ run, stored)

    module _ (answered : assert_reservation_matches (normalize_items body.items) snapshots ≡ ok tt)
        (absent : tables.find_order entry.order_id w.db ≡ none)
        (fresh : IsFresh [] (
          map
            (λ i. i.part_id)
            (new_order tables gateway env entry.order_id
              (to_lower_case body.customer_id)
              snapshots).items))
        (fits : AreStorable (map (snapshot_row tables gateway env) snapshots)) where
      -- A known customer's request, under a valid key that is in progress for it, or new (with an
      -- order id that no other key has, and a hash of 64 units), whose order id is not empty and
      -- no order's, and whose reservation is answered with the lines that were asked for, no part
      -- twice, of 1 to 999 pieces and with names that fit the columns: if the transaction commits
      -- but its acknowledgement is lost, and the first transaction of the recovery commits, the
      -- recovery finds the key confirmed, the caller gets the order as its stored response gives
      -- it, marked as a replay, the order is in the table, and nothing is released.
      pub lost_answer_is_recovered :
          (x : Exception)
          → env.create_fate ≡ ack_lost x
          → env.prepare_fate ≡ commits
          → (db' : tables.Db) × (create tables gateway env body (some key) w ≡ (
            ok (record {
              order =
                  restore_create_response env.new_date
                    (confirmed_claim tables gateway env body entry snapshots).response_body
                    (to_order_view (made_order tables gateway env body entry snapshots));
              replayed = true;
            }),
            record w {
              db = db';
              remote = after;
              reservation_order_id = some entry.order_id;
              reservation_succeeded = true;
            },
          ))
            × (tables.find_order entry.order_id db'
                ≡ some (made_order tables gateway env body entry snapshots))
      lost_answer_is_recovered x ends prepares =
          let (db, claimed) = claims_open tables laws gateway env key body w valid entry start in
          let (db', run, there) =
            lost_answer_held tables laws gateway env key body entry (record w { db = db }) valid
              claimed.holds.found claimed.holds.same claimed.holds.held
              (claimed.customers (to_lower_case body.customer_id) ∙ customer) identified snapshots
              after reserved answered (claimed.orders entry.order_id ∙ absent) fresh fits x ends
              prepares in
          (db', claimed.runs ∙ run, there)

      -- A known customer's request, under a valid key that is in progress for it, or new (with an
      -- order id that no other key has, and a hash of 64 units), whose order id is not empty and
      -- no order's, and whose reservation is answered with the lines that were asked for, no part
      -- twice, of 1 to 999 pieces and with names that fit the columns: if the database takes the
      -- transaction back, the release of the order then succeeds, and both transactions of the
      -- recovery commit, the key is failed, the orders are as before, and the caller is told of
      -- an internal error.
      pub rollback_is_released :
          (x : Exception) (returned : Remote)
          → env.create_fate ≡ rolled_back x
          → gateway.release entry.order_id env.trace_id after ≡ (ok tt, returned)
          → env.prepare_fate ≡ commits
          → env.compensate_fate ≡ commits
          → (db' : tables.Db) × (create tables gateway env body (some key) w ≡ (
            err (api internal_failure),
            record w {
              db = db';
              remote = returned;
              reservation_order_id = some entry.order_id;
              reservation_succeeded = true;
            },
          ))
            × (tables.find_request key db' ≡ some (failed_with internal_failure entry))
            × ((j : Text) → tables.find_order j db' ≡ tables.find_order j w.db)
      rollback_is_released x returned ends released prepares compensates =
          let (db, claimed) = claims_open tables laws gateway env key body w valid entry start in
          let (db', run, stored, kept) =
            rollback_held tables laws gateway env key body entry (record w { db = db }) valid
              claimed.holds.found claimed.holds.same claimed.holds.held
              (claimed.customers (to_lower_case body.customer_id) ∙ customer) identified snapshots
              after reserved answered (claimed.orders entry.order_id ∙ absent) fresh fits x returned
              ends released prepares compensates in
          (db', claimed.runs ∙ run, stored, λ j. kept j ∙ claimed.orders j)
