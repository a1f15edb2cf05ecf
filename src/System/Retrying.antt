-- ===== src/System/Retrying.antt =====
-- An order whose first answer is lost, through both services, under a key that is new or in progress.
use tarea_integracion_sistem.Prelude.{ℕ, ◌≡◌, sym, ap, ◌∙◌, subst, true, false, [], none, some}
use tarea_integracion_sistem.Prelude.Int.{ℤ}
use tarea_integracion_sistem.Prelude.Result.{ok, err}
use tarea_integracion_sistem.Prelude.Tx.{Fate, commits, Persists}
use tarea_integracion_sistem.Text.{Text, text_eq, to_lower_case}
use tarea_integracion_sistem.Js.{Date, at}
use tarea_integracion_sistem.Grpc.{GrpcStatus}
use tarea_integracion_sistem.Inventory.Errors
use tarea_integracion_sistem.Inventory.Store.{Store, StoreLaws}
use tarea_integracion_sistem.Inventory.Stock.Reserving.{Has}
use tarea_integracion_sistem.Sales.Errors.{api}
use tarea_integracion_sistem.Sales.Gateway.{InventoryServiceClient, grpc_gateway}
use tarea_integracion_sistem.Sales.Orders.Views.{OrderRow, to_order_view}
use tarea_integracion_sistem.Sales.Orders.Tables.{Tables, TablesLaws, IdempotencyRequest}
use tarea_integracion_sistem.Sales.Orders.Service.{
  OrderCreate, Environment, World, normalize_items, is_valid_key, create,
}
use tarea_integracion_sistem.Sales.Orders.Service.Claiming.{IsOpen, claims_open}
use tarea_integracion_sistem.Sales.Orders.Service.Replay.{fingerprint}
use tarea_integracion_sistem.System.{IsAnswered, IsLost}
use tarea_integracion_sistem.System.Snapshots.{command_of}
use tarea_integracion_sistem.System.Answering.{reserve_sent, options_of}
use tarea_integracion_sistem.System.Creating.{IsRequest, IsOrdered, inventory_timeout, timeout_held}

module _ (store : Store) (store_laws : StoreLaws store) (sha256_hex : Text → Text) (tables : Tables)
    (laws : TablesLaws tables) {Remote : Type 0} (client : InventoryServiceClient Remote)
    (db_of : Remote → store.Db) (deadline_ms : ℕ) (key : Text) (body : OrderCreate)
    (entry : IdempotencyRequest) (w : World tables.Db Remote) (key_valid : is_valid_key key ≡ true)
    (customer : tables.has_customer (to_lower_case body.customer_id) w.db ≡ true)
    (absent : tables.find_order entry.order_id w.db ≡ none) (valid : IsRequest entry.order_id body)
    (identified : text_eq entry.order_id [] ≡ false) (millis : ℤ)
    (new : store.find_operation entry.order_id (db_of w.remote) ≡ none)
    (has : Has store
      (db_of w.remote)
      (command_of entry.order_id (normalize_items body.items)).items) where
  -- A known customer's request for parts that all have the stock, under a valid key that is in
  -- progress for it, or new (with an order id that no other key has, and a hash of 64 units),
  -- whose order id is not empty and has no order and no operation yet, and which the inventory's
  -- validation accepts: if its first call of the inventory takes the stock, its clock in range,
  -- but runs into the deadline, the caller is told of the timeout, the key is in progress and the
  -- orders and customers are as before. The same request, sent again with the same fingerprint
  -- and answered, makes the order, and the stock is taken once. The transactions of the sales
  -- service commit both times.
  pub timeout_then_retry :
      (env env' : Environment) (now_ms now_ms' : ℕ) (fate : Fate Errors.Exception) (later : Date)
      (between after : Remote)
      → IsOpen tables env key body w.db entry
      → fingerprint env' body ≡ fingerprint env body
      → env.create_fate ≡ commits
      → env'.create_fate ≡ commits
      → Persists fate
      → IsLost store sha256_hex client db_of
          (at millis)
          fate
          GrpcStatus.deadline_exceeded
          (reserve_sent entry.order_id (normalize_items body.items))
          (options_of env.trace_id now_ms deadline_ms)
          w.remote
          between
      → IsAnswered store sha256_hex client db_of later commits
          (reserve_sent entry.order_id (normalize_items body.items))
          (options_of env'.trace_id now_ms' deadline_ms)
          between
          after
      → let (answer, w') =
          create tables (grpc_gateway client now_ms deadline_ms) env body (some key) w in
        let (answer', w'') =
          create tables (grpc_gateway client now_ms' deadline_ms) env' body (some key) w' in
        (answer ≡ err (api inventory_timeout))
        × (tables.find_request key w'.db ≡ some entry)
        × ((j : Text) → tables.find_order j w'.db ≡ tables.find_order j w.db)
        × ((c : Text) → tables.has_customer c w'.db ≡ tables.has_customer c w.db)
        × ((order : OrderRow) × (answer'
              ≡ ok (record { order = to_order_view order; replayed = false }))
            × IsOrdered store tables db_of body entry w.remote w'' order)
  timeout_then_retry env env' now_ms now_ms' fate later between after start reads ends ends' p lost
        answered =
      let gateway = grpc_gateway client now_ms deadline_ms in
      let (db, claimed) = claims_open tables laws gateway env key body w key_valid entry start in
      let (told, kept, made) =
        timeout_held store store_laws sha256_hex tables laws client db_of deadline_ms key body entry
          (record w { db = db }) key_valid claimed.holds.found claimed.holds.held
          (claimed.customers (to_lower_case body.customer_id) ∙ customer)
          (claimed.orders entry.order_id ∙ absent) valid identified millis new has env env' now_ms
          now_ms' fate later between after claimed.holds.same (claimed.holds.same ∙ sym reads) ends
          ends' p lost answered in
      subst
        (λ r.
          let (answer', w'') =
            create tables (grpc_gateway client now_ms' deadline_ms) env' body (some key) r.1 in
          (r.0 ≡ err (api inventory_timeout))
          × (tables.find_request key r.1.db ≡ some entry)
          × ((j : Text) → tables.find_order j r.1.db ≡ tables.find_order j w.db)
          × ((c : Text) → tables.has_customer c r.1.db ≡ tables.has_customer c w.db)
          × ((order : OrderRow) × (answer'
                ≡ ok (record { order = to_order_view order; replayed = false }))
              × IsOrdered store tables db_of body entry w.remote w'' order))
        (sym claimed.runs)
        (
          told,
          ap (tables.find_request key) kept ∙ claimed.holds.found,
          λ j. ap (tables.find_order j) kept ∙ claimed.orders j,
          λ c. ap (tables.has_customer c) kept ∙ claimed.customers c,
          made,
        )
