-- ===== src/Sales/Orders/Service/Recovery.antt =====
-- A reservation that the inventory made: the order is confirmed, or the recovery finds it confirmed,
-- or the recovery releases what was reserved.
use tarea_integracion_sistem.Prelude.{◌≡◌, refl, ◌∙◌, true, false, List, [], none, some}
use tarea_integracion_sistem.Prelude.Result.{Result, ok, err}
use tarea_integracion_sistem.Prelude.Tx.{Fate, commits, rolled_back, ack_lost}
use tarea_integracion_sistem.Prelude.Act.{◌>>=◌}
use tarea_integracion_sistem.Text.{Text, text_eq, to_lower_case}
use tarea_integracion_sistem.Text.Laws.{text_eq_refl}
use tarea_integracion_sistem.Sales.Errors.{Exception, api, internal_failure}
use tarea_integracion_sistem.Sales.Gateway.{InventoryGateway, ReservedStockItem}
use tarea_integracion_sistem.Sales.Orders.Views.{
  OrderRow, to_order_view, stored_failure, restore_create_response,
}
use tarea_integracion_sistem.Sales.Orders.Tables.{
  Tables, TablesLaws, IdempotencyRequest, confirmed_key, failed_key, in_progress, compensating,
}
use tarea_integracion_sistem.Sales.Orders.Service.{
  OrderCreate, Environment, World, normalize_items, is_valid_key, create, create_valid, create_body,
  in_transaction, finish, no_reservation, success, failure, CreateOrderOutcome, find_claim,
  replay_confirmed, reserve_for, after_reserve, call_reserve, call_release, update_claim,
  failed_with, recover_failed_create, prepare_body, compensate_body, compensate, create_failed,
  needs_recovery, assert_reservation_matches,
}
use tarea_integracion_sistem.Sales.Orders.Service.Replay.{
  fingerprint, in_transaction-commits, claim_taken, body_reserves_lem,
}

module _ (tables : Tables) {Remote : Type 0} (gateway : InventoryGateway Remote)
    (env : Environment) where
  abbrev pub Own : Type 0
  Own = World tables.Db Remote

  -- A body that throws, however its transaction was to end.
  pub in_transaction-throws :
      {A : Type 0} (fate : Fate Exception) (run : Own → Result Exception A × Own) (w : Own)
      {x : Exception} {v : Own}
      → run w ≡ (err x, v)
      → in_transaction tables gateway env fate run w ≡ (err x, record v { db = w.db })
  unfolding in_transaction
  in_transaction-throws commits run w h = rw h refl
  in_transaction-throws (rolled_back e) run w h = rw h refl
  in_transaction-throws (ack_lost e) run w h = rw h refl

  pub in_transaction-rolled_back :
      {A : Type 0} {fate : Fate Exception} (run : Own → Result Exception A × Own) (w : Own)
      {x : Exception} {a : A} {v : Own}
      → fate ≡ rolled_back x
      → run w ≡ (ok a, v)
      → in_transaction tables gateway env fate run w ≡ (err x, record v { db = w.db })
  unfolding in_transaction
  in_transaction-rolled_back run w ends h = rw (ends, h) refl

  pub in_transaction-ack_lost :
      {A : Type 0} {fate : Fate Exception} (run : Own → Result Exception A × Own) (w : Own)
      {x : Exception} {a : A} {v : Own}
      → fate ≡ ack_lost x
      → run w ≡ (ok a, v)
      → in_transaction tables gateway env fate run w ≡ (err x, v)
  unfolding in_transaction
  in_transaction-ack_lost run w ends h = rw (ends, h) refl

  module _ (key : Text) where
    prepare_runs :
        (entry : IdempotencyRequest) (v : Own) (db' : tables.Db)
        → tables.find_request key v.db ≡ some entry
        → entry.state ≡ in_progress
        → tables.update_request key
            (record (failed_with internal_failure entry) { state = compensating })
            v.db
          ≡ ok db'
        → prepare_body tables gateway env key v ≡ (ok none, record v { db = db' })
    unfolding prepare_body find_claim update_claim ◌>>=◌
    prepare_runs entry v db' found open_key wrote = rw (found, open_key, wrote) refl

    compensate_runs :
        (entry : IdempotencyRequest) (v : Own) (db' : tables.Db) (r : Remote)
        → tables.find_request key v.db ≡ some entry
        → entry.state ≡ compensating
        → gateway.release entry.order_id env.trace_id v.remote ≡ (ok tt, r)
        → tables.update_request key (record entry { state = failed_key }) v.db ≡ ok db'
        → compensate_body tables gateway env key v ≡ (
          ok (failure (stored_failure entry.response_status entry.response_body)),
          record v { db = db'; remote = r },
        )
    unfolding compensate_body compensate find_claim call_release update_claim ◌>>=◌
    compensate_runs entry v db' r found state released wrote =
        rw (found, state, released, wrote) refl

    -- The recovery of a key that is still in progress releases the reservation and fails the key.
    pub recover_compensates :
        (laws : TablesLaws tables) (entry : IdempotencyRequest) (v : Own) (r : Remote)
        → tables.find_request key v.db ≡ some entry
        → entry.state ≡ in_progress
        → gateway.release entry.order_id env.trace_id v.remote ≡ (ok tt, r)
        → env.prepare_fate ≡ commits
        → env.compensate_fate ≡ commits
        → (db' : tables.Db) × (recover_failed_create tables gateway env key v
            ≡ (ok (failure internal_failure), record v { db = db'; remote = r }))
          × (tables.find_request key db' ≡ some (failed_with internal_failure entry))
          × ((j : Text) → tables.find_order j db' ≡ tables.find_order j v.db)
    unfolding recover_failed_create ◌>>=◌ stored_failure text_eq
    recover_compensates laws entry v r found open_key released prepares compensates =
        let middle : IdempotencyRequest = record (failed_with internal_failure entry) {
          state = compensating;
        } in
        let (db1, wrote1, requests1, orders1, _) =
          laws.update_request_law key entry middle v.db found in
        let found1 : tables.find_request key db1 ≡ some middle =
          requests1 key ∙ rw (text_eq_refl key) refl in
        let (db2, wrote2, requests2, orders2, _) =
          laws.update_request_law key middle (failed_with internal_failure entry) db1 found1 in
        let first =
          in_transaction-commits tables gateway env (prepare_body tables gateway env key) v prepares
            (prepare_runs entry v db1 found open_key wrote1) in
        let second =
          in_transaction-commits tables gateway env (compensate_body tables gateway env key)
            (record v { db = db1 }) compensates
            (compensate_runs middle (record v { db = db1 }) db2 r found1 refl released wrote2) in
        (
          db2,
          rw (first, second) refl,
          requests2 key ∙ rw (text_eq_refl key) refl,
          λ j. orders2 j ∙ orders1 j,
        )

    -- The recovery of a key that was confirmed after all answers with its order.
    pub recover_replays :
        (entry : IdempotencyRequest) (order : OrderRow) (v : Own)
        → tables.find_request key v.db ≡ some entry
        → entry.state ≡ confirmed_key
        → tables.find_order entry.order_id v.db ≡ some order
        → env.prepare_fate ≡ commits
        → recover_failed_create tables gateway env key v ≡ (
          ok (
              success (record {
                order =
                    restore_create_response env.new_date entry.response_body (to_order_view order);
                replayed = true;
              })),
          v,
        )
    unfolding recover_failed_create prepare_body find_claim replay_confirmed ◌>>=◌
    recover_replays entry order v found state there prepares =
        let ran =
          in_transaction-commits tables gateway env (prepare_body tables gateway env key) v
            {a = some (
              success (record {
                order =
                    restore_create_response env.new_date entry.response_body (to_order_view order);
                replayed = true;
              }))}
            {w' = v} prepares (rw (found, state, there) refl) in
        rw ran refl

  -- A creation whose transaction threw after the reservation answers as the recovery does.
  pub create_of_recovery :
      (laws : TablesLaws tables) (key : Text) (body : OrderCreate) (entry : IdempotencyRequest)
      (w v v' : Own) {x : Exception} {outcome : CreateOrderOutcome}
      → is_valid_key key ≡ true
      → tables.find_request key w.db ≡ some entry
      → in_transaction tables gateway env env.create_fate
          (create_body tables gateway env key
            (fingerprint env body)
            (to_lower_case body.customer_id)
            (normalize_items body.items))
          (no_reservation tables gateway env w)
        ≡ (err x, v)
      → needs_recovery tables gateway env v ≡ true
      → recover_failed_create tables gateway env key v ≡ (ok outcome, v')
      → create tables gateway env body (some key) w ≡ finish tables gateway env outcome v'
  unfolding create create_valid create_failed ◌>>=◌
  create_of_recovery laws key body entry w v v' valid found threw needed recovered =
      rw
        (
          valid,
          claim_taken tables laws gateway env key entry w found (fingerprint env body),
          threw,
          needed,
          recovered,
        )
        refl

-- A creation of an order whose reservation the inventory makes.
module _ (tables : Tables) (laws : TablesLaws tables) {Remote : Type 0}
    (gateway : InventoryGateway Remote) (env : Environment) (key : Text) (body : OrderCreate)
    (entry : IdempotencyRequest) (w : World tables.Db Remote) (valid : is_valid_key key ≡ true)
    (found : tables.find_request key w.db ≡ some entry)
    (same : entry.request_hash ≡ fingerprint env body) (open_key : entry.state ≡ in_progress)
    (customer : tables.has_customer (to_lower_case body.customer_id) w.db ≡ true)
    (identified : text_eq entry.order_id [] ≡ false) (snapshots : List ReservedStockItem)
    (after : Remote)
    (reserved : gateway.reserve entry.order_id (normalize_items body.items) env.trace_id w.remote
      ≡ (ok snapshots, after)) where
  reserved_world : World tables.Db Remote
  reserved_world = record w {
    remote = after;
    reservation_order_id = some entry.order_id;
    reservation_succeeded = true;
  }

  run_body : World tables.Db Remote → Result Exception CreateOrderOutcome × World tables.Db Remote
  run_body =
      create_body tables gateway env key (fingerprint env body) (to_lower_case body.customer_id)
        (normalize_items body.items)

  -- An answer of the inventory that does not match the request throws within the transaction.
  body_mismatch :
      (x : Exception)
      → assert_reservation_matches (normalize_items body.items) snapshots ≡ err x
      → run_body (no_reservation tables gateway env w) ≡ (err x, reserved_world)
  unfolding run_body reserved_world reserve_for after_reserve call_reserve ◌>>=◌
  body_mismatch x differs =
      body_reserves_lem tables gateway env key body entry _ found same open_key customer
      ∙ rw (reserved, differs) refl

  -- If the answer of the inventory does not match the request, the reservation is released, the
  -- key is failed, and the caller is told of an internal error.
  pub mismatch_held :
      (x : Exception) (returned : Remote)
      → assert_reservation_matches (normalize_items body.items) snapshots ≡ err x
      → gateway.release entry.order_id env.trace_id after ≡ (ok tt, returned)
      → env.prepare_fate ≡ commits
      → env.compensate_fate ≡ commits
      → (db' : tables.Db) × (create tables gateway env body (some key) w ≡ (
        err (api internal_failure),
        record w {
          db = db';
          remote = returned;
          reservation_order_id = some entry.order_id;
          reservation_succeeded = true;
        },
      ))
        × (tables.find_request key db' ≡ some (failed_with internal_failure entry))
  unfolding run_body reserved_world
  mismatch_held x returned differs released prepares compensates =
      let (db', recovered, stored, _) =
        recover_compensates tables gateway env key laws entry reserved_world returned found open_key
          released prepares compensates in
      (
        db',
        create_of_recovery tables gateway env laws key body entry w reserved_world _ valid found
            (in_transaction-throws tables gateway env env.create_fate run_body _
              (body_mismatch x differs))
            (rw identified refl) recovered,
        stored,
      )
