-- ===== src/System/Creating.antt =====
-- An order is created through both services: when the inventory answers, and when its first answer
-- is lost and the client sends the same request again.
use mathlib.Core.List.{map-map}
use tarea_integracion_sistem.Prelude.{
  ℕ, ◌+◌, ◌≡◌, refl, sym, ap, ◌∙◌, subst, true, false, List, [], ◌∷◌, map, none, some,
}
use tarea_integracion_sistem.Prelude.Int.{ℤ}
use tarea_integracion_sistem.Prelude.Result.{ok, err}
use tarea_integracion_sistem.Prelude.Tx.{Fate, commits, Persists}
use tarea_integracion_sistem.Text.{Text, text, text_eq, to_lower_case}
use tarea_integracion_sistem.Js.{Date, at}
use tarea_integracion_sistem.Grpc.{GrpcStatus}
use tarea_integracion_sistem.Inventory.Errors
use tarea_integracion_sistem.Inventory.Request.Parsing.{IsValidCommand, part_ids}
use tarea_integracion_sistem.Inventory.Request.Parsing
use tarea_integracion_sistem.Inventory.Store.{Store, StoreLaws, PartRow, IsDistinct}
use tarea_integracion_sistem.Inventory.Stock.Taking.{quantity_of}
use tarea_integracion_sistem.Inventory.Stock.Reserving.{Has, IsFresh-IsDistinct}
use tarea_integracion_sistem.Inventory.Stock.Lifecycle.{reserve_takes}
use tarea_integracion_sistem.Sales.Errors.{ApiError, api, api_error}
use tarea_integracion_sistem.Sales.Gateway.{
  InventoryServiceClient, grpc_gateway, ReserveStockItem, ReservedStockItem,
}
use tarea_integracion_sistem.Sales.Translation.{to_inventory_api_error}
use tarea_integracion_sistem.Sales.Orders.Views.{OrderRow, OrderItemRow, confirmed, to_order_view}
use tarea_integracion_sistem.Sales.Orders.Tables.{
  Tables, TablesLaws, IdempotencyRequest, in_progress, IsFresh,
}
use tarea_integracion_sistem.Sales.Orders.Service.{
  OrderCreate, Environment, World, normalize_items, is_valid_key, create, snapshot_row,
}
use tarea_integracion_sistem.Sales.Orders.Service.Replay.{fingerprint}
use tarea_integracion_sistem.Sales.Orders.Service.Rejection.{ambiguous_failure_keeps_key}
use tarea_integracion_sistem.Sales.Orders.Service.Confirmation.{confirms_held, made_order}
use tarea_integracion_sistem.System.{IsAnswered, IsLost}
use tarea_integracion_sistem.System.Snapshots.{
  command_of, requested, Answers, folded_part, wanted, keys-Answers, assert-Answers,
  Answers-AreStorable,
}
use tarea_integracion_sistem.System.Answering.{
  reserve_sent, options_of, reserved_db, gateway_reserves_again,
}

wanted-requested : (items : List ReserveStockItem) → part_ids (map requested items) ≡ wanted items
wanted-requested [] = refl
wanted-requested (i ∷ is) = rw (wanted-requested is) refl

IsFresh-sales : (seen ks : List Text) → Parsing.IsFresh seen ks → IsFresh seen ks
IsFresh-sales seen [] h = tt
IsFresh-sales seen (k ∷ ks) h = (h.0, IsFresh-sales (k ∷ seen) ks h.1)

-- What the callers' validation and the key's order id establish of the request to the inventory.
abbrev pub IsRequest : Text → OrderCreate → Type 0
IsRequest order_id body = IsValidCommand (command_of order_id (normalize_items body.items))

-- The sales service is told of a timeout.
abbrev pub inventory_timeout : ApiError
inventory_timeout =
    api_error 504 (text "INVENTORY_TIMEOUT")
      (text "Inventory service did not respond before the deadline")

module _ (order_id : Text) (body : OrderCreate) (valid : IsRequest order_id body) where
  abbrev items : List ReserveStockItem
  items = normalize_items body.items

  IsDistinct-items : IsDistinct (wanted items)
  IsDistinct-items =
      subst IsDistinct (wanted-requested items)
        (IsFresh-IsDistinct (part_ids (map requested items)) valid.distinct)

  IsFresh-rows :
      (snapshots : List ReservedStockItem)
      → Answers items snapshots
      → IsFresh [] (map folded_part snapshots)
  IsFresh-rows snapshots a =
      subst (IsFresh []) (wanted-requested items ∙ sym (keys-Answers items snapshots a))
        (IsFresh-sales [] (part_ids (map requested items)) valid.distinct)

module _ (store : Store) (tables : Tables) {Remote : Type 0} (db_of : Remote → store.Db)
    (body : OrderCreate) (entry : IdempotencyRequest) where
  -- The order is made, and each part lost what the order asks of it.
  pub record IsOrdered (remote : Remote) (w' : World tables.Db Remote) (order : OrderRow)
      : Type 0 where
    pub there : tables.find_order entry.order_id w'.db ≡ some order
    pub status : order.status ≡ confirmed
    pub customer_id : order.customer_id ≡ to_lower_case body.customer_id
    pub stock :
        (j : Text) (row : PartRow)
        → store.find_part j (db_of remote) ≡ some row
        → (row' : PartRow) × (store.find_part j (db_of w'.remote) ≡ some row')
          × (row'.stock_available + quantity_of j (map requested (normalize_items body.items))
              ≡ row.stock_available)

module _ (store : Store) (store_laws : StoreLaws store) (sha256_hex : Text → Text) (tables : Tables)
    (laws : TablesLaws tables) {Remote : Type 0} (client : InventoryServiceClient Remote)
    (db_of : Remote → store.Db) (deadline_ms : ℕ) (key : Text) (body : OrderCreate)
    (entry : IdempotencyRequest) (w : World tables.Db Remote) (key_valid : is_valid_key key ≡ true)
    (found : tables.find_request key w.db ≡ some entry) (open_key : entry.state ≡ in_progress)
    (customer : tables.has_customer (to_lower_case body.customer_id) w.db ≡ true)
    (absent : tables.find_order entry.order_id w.db ≡ none) (valid : IsRequest entry.order_id body)
    (identified : text_eq entry.order_id [] ≡ false) (millis : ℤ)
    (new : store.find_operation entry.order_id (db_of w.remote) ≡ none)
    (has : Has store
      (db_of w.remote)
      (command_of entry.order_id (normalize_items body.items)).items) where
  reserved_stock :
      (after : Remote)
      → db_of after
        ≡ reserved_db store sha256_hex millis entry.order_id
            (normalize_items body.items)
            (db_of w.remote)
      → (j : Text) (row : PartRow) → store.find_part j (db_of w.remote) ≡ some row
      → (row' : PartRow) × (store.find_part j (db_of after) ≡ some row')
        × (row'.stock_available + quantity_of j (map requested (normalize_items body.items))
            ≡ row.stock_available)
  reserved_stock after state j row there =
      let (row', there', stock, _, _, _) =
        reserve_takes store store_laws sha256_hex (at millis)
          (command_of entry.order_id (normalize_items body.items)) (db_of w.remote) valid new has j
          row there in
      (row', ap (store.find_part j) state ∙ there', stock)

  -- A creation whose reservation is answered with lines that match.
  confirms :
      (env : Environment) (now_ms : ℕ) (u : World tables.Db Remote) (after : Remote)
      (snapshots : List ReservedStockItem)
      → u.db ≡ w.db
      → entry.request_hash ≡ fingerprint env body
      → env.create_fate ≡ commits
      → (grpc_gateway client now_ms deadline_ms).reserve entry.order_id
          (normalize_items body.items)
          env.trace_id
          u.remote
        ≡ (ok snapshots, after)
      → Answers (normalize_items body.items) snapshots
      → db_of after
        ≡ reserved_db store sha256_hex millis entry.order_id
            (normalize_items body.items)
            (db_of w.remote)
      → (order : OrderRow) × ((create tables
            (grpc_gateway client now_ms deadline_ms)
            env
            body
            (some key)
            u).0
          ≡ ok (record { order = to_order_view order; replayed = false }))
        × IsOrdered store tables db_of body entry w.remote
            (create tables (grpc_gateway client now_ms deadline_ms) env body (some key) u).1
            order
  confirms env now_ms u after snapshots kept same ends reserved a state =
      let gateway = grpc_gateway client now_ms deadline_ms in
      let (db', run, stored, there) =
        confirms_held tables laws gateway env key body entry u key_valid
          (ap (tables.find_request key) kept ∙ found) same open_key
          (ap (tables.has_customer (to_lower_case body.customer_id)) kept ∙ customer) identified
          snapshots after reserved
          (assert-Answers (normalize_items body.items) snapshots
            (IsDistinct-items entry.order_id body valid) a)
          (ap (tables.find_order entry.order_id) kept ∙ absent)
          (subst (IsFresh [])
            (sym (
              map-map (λ (i : OrderItemRow). i.part_id) (snapshot_row tables gateway env)
                snapshots))
            (IsFresh-rows entry.order_id body valid snapshots a))
          (Answers-AreStorable tables gateway env (normalize_items body.items) snapshots a) ends in
      (
        made_order tables gateway env body entry snapshots,
        ap (λ r. r.0) run,
        record {
          there = ap (λ r. tables.find_order entry.order_id r.1.db) run ∙ there;
          status = refl;
          customer_id = refl;
          stock =
              reserved_stock (create tables gateway env body (some key) u).1.remote
                (ap (λ r. db_of r.1.remote) run ∙ state);
        },
      )

  -- The key is in progress for the request.
  pub timeout_held :
      (env env' : Environment) (now_ms now_ms' : ℕ) (fate : Fate Errors.Exception) (later : Date)
      (between after : Remote)
      → entry.request_hash ≡ fingerprint env body
      → entry.request_hash ≡ fingerprint env' body
      → env.create_fate ≡ commits
      → env'.create_fate ≡ commits
      → Persists fate
      → IsLost store sha256_hex client db_of
          (at millis)
          fate
          GrpcStatus.deadline_exceeded
          (reserve_sent entry.order_id (normalize_items body.items))
          (options_of env.trace_id now_ms deadline_ms)
          w.remote
          between
      → IsAnswered store sha256_hex client db_of later commits
          (reserve_sent entry.order_id (normalize_items body.items))
          (options_of env'.trace_id now_ms' deadline_ms)
          between
          after
      → let (answer, w') =
          create tables (grpc_gateway client now_ms deadline_ms) env body (some key) w in
        let (answer', w'') =
          create tables (grpc_gateway client now_ms' deadline_ms) env' body (some key) w' in
        (answer ≡ err (api inventory_timeout))
        × (w'.db ≡ w.db)
        × ((order : OrderRow) × (answer'
              ≡ ok (record { order = to_order_view order; replayed = false }))
            × IsOrdered store tables db_of body entry w.remote w'' order)
  unfolding grpc_gateway to_inventory_api_error
  timeout_held env env' now_ms now_ms' fate later between after same same' ends ends' p lost
        answered =
      let gateway = grpc_gateway client now_ms deadline_ms in
      let first =
        ambiguous_failure_keeps_key tables laws gateway env key body entry w key_valid found ends
          same open_key customer (api inventory_timeout) between refl (rw (lost.call) refl) in
      let (snapshots, reserved, a, state) =
        gateway_reserves_again store store_laws sha256_hex client db_of now_ms' deadline_ms
          entry.order_id env'.trace_id (normalize_items body.items) valid millis w.remote new has
          fate GrpcStatus.deadline_exceeded _ later between after p lost answered in
      let u : World tables.Db Remote = (create tables gateway env body (some key) w).1 in
      (
        ap (λ r. r.0) first,
        ap (λ r. r.1.db) first,
        confirms env' now_ms' u after snapshots (ap (λ r. r.1.db) first) same' ends'
            (ap
                (λ r.
                  (grpc_gateway client now_ms' deadline_ms).reserve entry.order_id
                    (normalize_items body.items) env'.trace_id r.1.remote)
                first
              ∙ reserved)
            a state,
      )
