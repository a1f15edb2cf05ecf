-- ===== src/System/Answering.antt =====
-- A reservation that reaches the inventory, first or again, comes back to the sales service as the
-- lines of the order's operation.
use tarea_integracion_sistem.Prelude.{
  ℕ, ◌+◌, ◌≡◌, refl, sym, ap, ◌∙◌, Bool, true, false, List, [], ◌∷◌, map, none, some,
}
use tarea_integracion_sistem.Prelude.Int.{ℤ}
use tarea_integracion_sistem.Prelude.Result.{ok}
use tarea_integracion_sistem.Prelude.Tx.{Fate, commits, Persists}
use tarea_integracion_sistem.Text.{Text}
use tarea_integracion_sistem.Text.Laws.{text_eq_refl}
use tarea_integracion_sistem.Js.{Date, at}
use tarea_integracion_sistem.Grpc.{GrpcStatus}
use tarea_integracion_sistem.Inventory.Errors
use tarea_integracion_sistem.Inventory.Messages.{to_proto_timestamp}
use tarea_integracion_sistem.Inventory.Request.{ReserveCommand}
use tarea_integracion_sistem.Inventory.Request.Parsing.{IsValidCommand}
use tarea_integracion_sistem.Inventory.Request.Accepting.{
  item_message, parse_reserve_request-command_message,
}
use tarea_integracion_sistem.Inventory.Store.{Store, StoreLaws, Operation}
use tarea_integracion_sistem.Inventory.Stock.{to_reserve_result, reserve}
use tarea_integracion_sistem.Inventory.Stock.Reserving.{Has}
use tarea_integracion_sistem.Inventory.Stock.Reserve.{IsReservation}
use tarea_integracion_sistem.Inventory.Stock.Lifecycle.{
  reserve_creates, reserve_replays, reserve_state,
}
use tarea_integracion_sistem.Inventory.Handlers.{reserve_stock, to_stock_response, answer}
use tarea_integracion_sistem.Sales.Gateway.{
  InventoryServiceClient, grpc_gateway, ReserveStockItem, ReservedStockItem, StockItemRequest,
  ReserveStockRequest, safe_trace_id, CallOptions,
}
use tarea_integracion_sistem.System.{item_received, reserve_received, IsAnswered, IsLost}
use tarea_integracion_sistem.System.Snapshots.{
  command_of, requested, snapshot_of, reserved_items-answer, Answers, Records-Answers,
}

abbrev item_sent : ReserveStockItem → StockItemRequest
item_sent item = record { part_id = item.part_id; quantity = item.quantity }

-- What the gateway sends, and with what.
abbrev pub reserve_sent : Text → List ReserveStockItem → ReserveStockRequest
reserve_sent order_id items = record { order_id = order_id; items = map item_sent items }

abbrev pub options_of : Text → ℕ → ℕ → CallOptions
options_of trace_id now_ms deadline_ms = record {
  trace_metadata = safe_trace_id trace_id;
  deadline = now_ms + deadline_ms;
}

items_received :
    (items : List ReserveStockItem)
    → map item_received (map item_sent items) ≡ map item_message (map requested items)
items_received [] = refl
items_received (i ∷ is) = rw (items_received is) refl

module _ (store : Store) (sha256_hex : Text → Text) where
  -- The inventory after the reservation of the order's items.
  abbrev pub reserved_db : ℤ → Text → List ReserveStockItem → store.Db → store.Db
  reserved_db millis order_id items db =
      (reserve store sha256_hex (at millis) commits (command_of order_id items) db).1

  -- The handler reads the message as the command of the order's items.
  reserve_stock-sent :
      (now : Date) (fate : Fate Errors.Exception) (order_id : Text) (items : List ReserveStockItem)
      (db : store.Db)
      → IsValidCommand (command_of order_id items)
      → reserve_stock store sha256_hex now fate (reserve_received (reserve_sent order_id items)) db
        ≡ answer store (reserve store sha256_hex now fate (command_of order_id items) db)
  unfolding reserve_stock
  reserve_stock-sent now fate order_id items db valid =
      rw
        (
          items_received items,
          parse_reserve_request-command_message (command_of order_id items) valid,
        )
        refl

module _ (store : Store) (laws : StoreLaws store) (sha256_hex : Text → Text) {Remote : Type 0}
    (client : InventoryServiceClient Remote) (db_of : Remote → store.Db) (now_ms deadline_ms : ℕ)
    (order_id trace_id : Text) (items : List ReserveStockItem)
    (valid : IsValidCommand (command_of order_id items)) where
  -- An answer of an operation is decoded to its lines.
  gateway_decodes :
      (millis : ℤ) (now : Date) (fate : Fate Errors.Exception) (op : Operation) (replayed : Bool)
      (db db' db'' : store.Db) (before after : Remote)
      (w : IsReservation store sha256_hex (at millis) (command_of order_id items) db db' op)
      → IsAnswered store sha256_hex client db_of now fate
          (reserve_sent order_id items)
          (options_of trace_id now_ms deadline_ms)
          before
          after
      → reserve store sha256_hex now fate (command_of order_id items) (db_of before)
        ≡ (ok (to_reserve_result op replayed), db'')
      → ((grpc_gateway client now_ms deadline_ms).reserve order_id items trace_id before
          ≡ (ok (map snapshot_of w.news), after))
        × (db_of after ≡ db'')
  unfolding grpc_gateway to_reserve_result to_stock_response to_proto_timestamp
  gateway_decodes millis now fate op replayed db db' db'' before after w answered run =
      let handled =
        reserve_stock-sent store sha256_hex now fate order_id items (db_of before) valid in
      (
        rw
            (
              answered.call,
              handled,
              run,
              w.shape,
              reserved_items-answer _ w.ids w.news w.same_length,
            )
            refl,
        answered.effect ∙ ap (λ r. r.1) (handled ∙ ap (answer store) run),
      )

  module _ (millis : ℤ) (before : Remote)
      (new : store.find_operation order_id (db_of before) ≡ none)
      (has : Has store (db_of before) (command_of order_id items).items) where
    -- A first call that is answered takes the stock, and its answer matches the request.
    pub gateway_reserves :
        (after : Remote)
        → IsAnswered store sha256_hex client db_of
            (at millis)
            commits
            (reserve_sent order_id items)
            (options_of trace_id now_ms deadline_ms)
            before
            after
        → (snapshots : List ReservedStockItem) × ((grpc_gateway client now_ms deadline_ms).reserve
              order_id items trace_id before
            ≡ (ok snapshots, after))
          × Answers items snapshots
          × (db_of after ≡ reserved_db store sha256_hex millis order_id items (db_of before))
    gateway_reserves after answered =
        let (op, db', run, w) =
          reserve_creates store laws sha256_hex (at millis) (command_of order_id items)
            (db_of before) valid new has in
        let (decoded, state) =
          gateway_decodes millis (at millis) commits op false (db_of before) db' db' before after w
            answered run in
        (
          map snapshot_of w.news,
          decoded,
          Records-Answers store laws (db_of before) 0 items w.news valid.items w.lines,
          state ∙ sym (ap (λ r. r.1) run),
        )

    -- After a first call whose answer was lost, a second call that is answered takes nothing more,
    -- and its answer matches the request.
    pub gateway_reserves_again :
        (fate : Fate Errors.Exception) (code : GrpcStatus) (options : CallOptions) (later : Date)
        (between after : Remote)
        → Persists fate
        → IsLost store sha256_hex client db_of
            (at millis)
            fate
            code
            (reserve_sent order_id items)
            options
            before
            between
        → IsAnswered store sha256_hex client db_of later commits
            (reserve_sent order_id items)
            (options_of trace_id now_ms deadline_ms)
            between
            after
        → (snapshots : List ReservedStockItem) × ((grpc_gateway client now_ms deadline_ms).reserve
              order_id items trace_id between
            ≡ (ok snapshots, after))
          × Answers items snapshots
          × (db_of after ≡ reserved_db store sha256_hex millis order_id items (db_of before))
    gateway_reserves_again fate code options later between after p lost answered =
        let command : ReserveCommand = command_of order_id items in
        let (op, db', run, w) =
          reserve_creates store laws sha256_hex (at millis) command (db_of before) valid new has in
        let state : db_of between ≡ db' =
          lost.effect
          ∙ ap (λ r. r.1)
              (reserve_stock-sent store sha256_hex (at millis) fate order_id items (db_of before)
                valid)
          ∙ reserve_state store laws sha256_hex (at millis) command (db_of before) valid new has
              fate p
          ∙ ap (λ r. r.1) run in
        let there : store.find_operation order_id (db_of between) ≡ some op =
          ap (store.find_operation order_id) state
          ∙ w.ledger order_id
          ∙ rw (text_eq_refl order_id) refl in
        let again : reserve store sha256_hex later commits command (db_of between)
            ≡ (ok (to_reserve_result op true), db_of between) =
          reserve_replays store laws sha256_hex later command op (db_of between) there
            (ap (λ (o : Operation). o.request_hash) w.shape)
            (ap (λ (o : Operation). o.status) w.shape) in
        let (decoded, kept) =
          gateway_decodes millis later commits op true (db_of before) db' (db_of between) between
            after w answered again in
        (
          map snapshot_of w.news,
          decoded,
          Records-Answers store laws (db_of before) 0 items w.news valid.items w.lines,
          kept ∙ state ∙ sym (ap (λ r. r.1) run),
        )
