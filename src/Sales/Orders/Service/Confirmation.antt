-- ===== src/Sales/Orders/Service/Confirmation.antt =====
-- A reservation that the inventory made and answered: the order is confirmed, whether or not the
-- end of its transaction was told.
use tarea_integracion_sistem.Prelude.{◌≡◌, refl, ◌∙◌, true, false, List, [], map, none, some}
use tarea_integracion_sistem.Prelude.Result.{Result, ok, err}
use tarea_integracion_sistem.Prelude.Tx.{commits, rolled_back, ack_lost}
use tarea_integracion_sistem.Prelude.Act.{◌>>=◌}
use tarea_integracion_sistem.Text.{Text, text_eq, to_lower_case}
use tarea_integracion_sistem.Text.Laws.{text_eq_refl}
use tarea_integracion_sistem.Sales.Errors.{Exception, api, internal_failure}
use tarea_integracion_sistem.Sales.Gateway.{InventoryGateway, ReservedStockItem}
use tarea_integracion_sistem.Sales.Orders.Views.{OrderRow, to_order_view, restore_create_response}
use tarea_integracion_sistem.Sales.Orders.Tables.{
  Tables, TablesLaws, IdempotencyRequest, in_progress, created_order, IsFresh, AreStorable,
}
use tarea_integracion_sistem.Sales.Orders.Service.{
  OrderCreate, Environment, World, normalize_items, is_valid_key, create, create_body,
  no_reservation, success, CreateOrderOutcome, CreateOrderSuccess, reserve_for, after_reserve,
  call_reserve, update_claim, failed_with, confirmed_with, new_order, snapshot_row,
  assert_reservation_matches, create_order_row,
}
use tarea_integracion_sistem.Sales.Orders.Service.Replay.{
  fingerprint, create_of_outcome, body_reserves_lem,
}
use tarea_integracion_sistem.Sales.Orders.Service.Recovery.{
  in_transaction-rolled_back, in_transaction-ack_lost, recover_compensates, recover_replays,
  create_of_recovery,
}

module _ (tables : Tables) {Remote : Type 0} (gateway : InventoryGateway Remote) (env : Environment)
    (body : OrderCreate) (entry : IdempotencyRequest) (snapshots : List ReservedStockItem) where
  -- The order that a creation makes of the answer of the inventory, and its key then.
  abbrev pub made_order : OrderRow
  made_order =
      created_order env.now
        (new_order tables gateway env entry.order_id (to_lower_case body.customer_id) snapshots)

  abbrev pub confirmed_claim : IdempotencyRequest
  confirmed_claim = confirmed_with tables gateway env (to_order_view made_order) entry

-- A creation of an order whose reservation the inventory makes.
module _ (tables : Tables) (laws : TablesLaws tables) {Remote : Type 0}
    (gateway : InventoryGateway Remote) (env : Environment) (key : Text) (body : OrderCreate)
    (entry : IdempotencyRequest) (w : World tables.Db Remote) (valid : is_valid_key key ≡ true)
    (found : tables.find_request key w.db ≡ some entry)
    (same : entry.request_hash ≡ fingerprint env body) (open_key : entry.state ≡ in_progress)
    (customer : tables.has_customer (to_lower_case body.customer_id) w.db ≡ true)
    (identified : text_eq entry.order_id [] ≡ false) (snapshots : List ReservedStockItem)
    (after : Remote)
    (reserved : gateway.reserve entry.order_id (normalize_items body.items) env.trace_id w.remote
      ≡ (ok snapshots, after))
    (answered : assert_reservation_matches (normalize_items body.items) snapshots ≡ ok tt)
    (absent : tables.find_order entry.order_id w.db ≡ none)
    (fresh : IsFresh [] (
      map
        (λ i. i.part_id)
        (new_order tables gateway env entry.order_id
          (to_lower_case body.customer_id)
          snapshots).items))
    (fits : AreStorable (map (snapshot_row tables gateway env) snapshots)) where
  confirmed_world : tables.Db → World tables.Db Remote
  confirmed_world db = record w {
    db = db;
    remote = after;
    reservation_order_id = some entry.order_id;
    reservation_succeeded = true;
  }

  abbrev run_body :
      World tables.Db Remote → Result Exception CreateOrderOutcome × World tables.Db Remote
  run_body =
      create_body tables gateway env key (fingerprint env body) (to_lower_case body.customer_id)
        (normalize_items body.items)

  abbrev first_answer : CreateOrderSuccess
  first_answer = record {
    order = to_order_view (made_order tables gateway env body entry snapshots);
    replayed = false;
  }

  -- The transaction writes the order and confirms its key.
  body_confirms :
      (db' : tables.Db) × (run_body (no_reservation tables gateway env w)
        ≡ (ok (success first_answer), confirmed_world db'))
      × (tables.find_request key db'
          ≡ some (confirmed_claim tables gateway env body entry snapshots))
      × (tables.find_order entry.order_id db'
          ≡ some (made_order tables gateway env body entry snapshots))
  unfolding confirmed_world reserve_for after_reserve call_reserve create_order_row update_claim
      ◌>>=◌
  body_confirms =
      let (db1, made, orders1, requests1) =
        laws.create_order_law env.now
          (new_order tables gateway env entry.order_id (to_lower_case body.customer_id) snapshots)
          w.db absent customer fresh fits in
      let found1 : tables.find_request key db1 ≡ some entry = requests1 key ∙ found in
      let (db2, wrote, requests2, orders2, _) =
        laws.update_request_law key entry (confirmed_claim tables gateway env body entry snapshots)
          db1 found1 in
      (
        db2,
        body_reserves_lem tables gateway env key body entry _ found same open_key customer
            ∙ rw (reserved, answered, made, wrote) refl,
        requests2 key ∙ rw (text_eq_refl key) refl,
        orders2 entry.order_id ∙ orders1 entry.order_id ∙ rw (text_eq_refl entry.order_id) refl,
      )

  -- A creation whose reservation is made and whose transaction commits answers with the order
  -- under the key's order id, which is in the table, confirmed, with the items as the inventory
  -- answered them; the key is confirmed with the answer as its body.
  pub confirms_held :
      env.create_fate ≡ commits
      → (db' : tables.Db) × (create tables gateway env body (some key) w ≡ (
        ok (record {
          order = to_order_view (made_order tables gateway env body entry snapshots);
          replayed = false;
        }),
        record w {
          db = db';
          remote = after;
          reservation_order_id = some entry.order_id;
          reservation_succeeded = true;
        },
      ))
        × (tables.find_request key db'
            ≡ some (confirmed_claim tables gateway env body entry snapshots))
        × (tables.find_order entry.order_id db'
            ≡ some (made_order tables gateway env body entry snapshots))
  unfolding confirmed_world
  confirms_held ends =
      let (db', run, stored, there) = body_confirms in
      (
        db',
        create_of_outcome tables laws gateway env key body entry w valid found ends
            (success first_answer) _ run,
        stored,
        there,
      )

  -- If the transaction commits and its acknowledgement is lost, the recovery finds the key
  -- confirmed: the caller gets the order, marked as a replay, and nothing is released.
  pub lost_answer_held :
      (x : Exception)
      → env.create_fate ≡ ack_lost x
      → env.prepare_fate ≡ commits
      → (db' : tables.Db) × (create tables gateway env body (some key) w ≡ (
        ok (record {
          order =
              restore_create_response env.new_date
                (confirmed_claim tables gateway env body entry snapshots).response_body
                (to_order_view (made_order tables gateway env body entry snapshots));
          replayed = true;
        }),
        record w {
          db = db';
          remote = after;
          reservation_order_id = some entry.order_id;
          reservation_succeeded = true;
        },
      ))
        × (tables.find_order entry.order_id db'
            ≡ some (made_order tables gateway env body entry snapshots))
  unfolding confirmed_world
  lost_answer_held x ends prepares =
      let (db', run, stored, there) = body_confirms in
      (
        db',
        create_of_recovery tables gateway env laws key body entry w (confirmed_world db') _ valid
            found (in_transaction-ack_lost tables gateway env run_body _ ends run)
            (rw identified refl)
            (recover_replays tables gateway env key
              (confirmed_claim tables gateway env body entry snapshots)
              (made_order tables gateway env body entry snapshots) (confirmed_world db') stored refl
              there prepares),
        there,
      )

  -- If the database takes the transaction back after the reservation, the reservation is released,
  -- the key is failed, the orders are as before, and the caller is told of an internal error.
  pub rollback_held :
      (x : Exception) (returned : Remote)
      → env.create_fate ≡ rolled_back x
      → gateway.release entry.order_id env.trace_id after ≡ (ok tt, returned)
      → env.prepare_fate ≡ commits
      → env.compensate_fate ≡ commits
      → (db' : tables.Db) × (create tables gateway env body (some key) w ≡ (
        err (api internal_failure),
        record w {
          db = db';
          remote = returned;
          reservation_order_id = some entry.order_id;
          reservation_succeeded = true;
        },
      ))
        × (tables.find_request key db' ≡ some (failed_with internal_failure entry))
        × ((j : Text) → tables.find_order j db' ≡ tables.find_order j w.db)
  unfolding confirmed_world
  rollback_held x returned ends released prepares compensates =
      let (db1, run, _, _) = body_confirms in
      let (db', recovered, stored, kept) =
        recover_compensates tables gateway env key laws entry (confirmed_world w.db) returned found
          open_key released prepares compensates in
      (
        db',
        create_of_recovery tables gateway env laws key body entry w (confirmed_world w.db) _ valid
            found (in_transaction-rolled_back tables gateway env run_body _ ends run)
            (rw identified refl) recovered,
        stored,
        kept,
      )
