-- ===== src/System/Cancelling.antt =====
-- An order is cancelled through both services.
use tarea_integracion_sistem.Prelude.{ℕ, ◌+◌, ◌≡◌, refl, sym, ap, ◌∙◌, some, none}
use tarea_integracion_sistem.Prelude.Int.{ℤ}
use tarea_integracion_sistem.Prelude.Result.{ok}
use tarea_integracion_sistem.Prelude.Tx.{commits}
use tarea_integracion_sistem.Text.{Text, to_lower_case}
use tarea_integracion_sistem.Text.Laws.{text_eq_refl}
use tarea_integracion_sistem.Js.{at}
use tarea_integracion_sistem.Inventory.Messages.{to_proto_timestamp}
use tarea_integracion_sistem.Inventory.Request.Parsing.{IsFolded}
use tarea_integracion_sistem.Inventory.Request.Accepting.{parse_release_request-folded}
use tarea_integracion_sistem.Inventory.Store.{
  Store, StoreLaws, PartRow, Operation, reserved, released,
}
use tarea_integracion_sistem.Inventory.Stock.{release}
use tarea_integracion_sistem.Inventory.Stock.Returning.{
  held_by, after_returning, after_returning-stock,
}
use tarea_integracion_sistem.Inventory.Stock.Release.{release_returns, returned}
use tarea_integracion_sistem.Inventory.Ledger.{Reach}
use tarea_integracion_sistem.Inventory.Ledger.Conservation.{reserved-IsReturnable}
use tarea_integracion_sistem.Inventory.Handlers.{release_stock, to_stock_response}
use tarea_integracion_sistem.Sales.Gateway.{InventoryServiceClient, grpc_gateway}
use tarea_integracion_sistem.Sales.Orders.Views.{OrderRow, confirmed, to_order_view}
use tarea_integracion_sistem.Sales.Orders.Tables.{Tables, TablesLaws, cancelled_order}
use tarea_integracion_sistem.Sales.Orders.Service.{Environment, World}
use tarea_integracion_sistem.Sales.Orders.Queries.{cancel}
use tarea_integracion_sistem.Sales.Orders.Queries.Cancelling.{cancel_releases}
use tarea_integracion_sistem.System.{IsReleased}
use tarea_integracion_sistem.System.Answering.{options_of}

module _ (store : Store) (store_laws : StoreLaws store) (sha256_hex : Text → Text) {Remote : Type 0}
    (client : InventoryServiceClient Remote) (db_of : Remote → store.Db) (deadline_ms : ℕ)
    (order_id : Text) (folded : IsFolded order_id) (start : store.Db) (before : Remote)
    (empty : (k : Text) → store.find_operation k start ≡ none)
    (history : Reach store sha256_hex start (db_of before)) (op : Operation)
    (there : store.find_operation order_id (db_of before) ≡ some op)
    (holds : op.status ≡ reserved) where
  -- A release of the order, over the gateway.
  gateway_releases :
      (later : ℤ) (now_ms : ℕ) (trace_id : Text) (after : Remote)
      → IsReleased store sha256_hex client db_of
          (at later)
          commits
          (record { order_id = order_id })
          (options_of trace_id now_ms deadline_ms)
          before
          after
      → ((grpc_gateway client now_ms deadline_ms).release order_id trace_id before ≡ (ok tt, after))
        × (db_of after ≡ (release store order_id (at later) commits (db_of before)).1)
  unfolding grpc_gateway release_stock to_stock_response to_proto_timestamp
  gateway_releases later now_ms trace_id after ran =
      let (db'', gave, _, _) =
        release_returns store store_laws order_id (at later) op (db_of before) there holds (
          reserved-IsReturnable store store_laws sha256_hex start (db_of before) empty history
            order_id op there holds) in
      let parsed = parse_release_request-folded order_id folded in
      (rw (ran.call, parsed, gave) refl, ran.effect ∙ rw parsed refl)

  -- The cancellation of a confirmed order whose operation in the inventory is reserved, after any
  -- calls of the inventory for this order and others on a ledger that was empty, however their
  -- transactions ended: when the inventory runs the release and is heard and the transactions of both
  -- services commit, the order is cancelled, its operation is released, and every part has what it
  -- had just before and what the order held of it.
  pub cancel_returns_stock :
      (tables : Tables) (laws : TablesLaws tables) (env : Environment) (order : OrderRow)
      (w : World tables.Db Remote) (later : ℤ) (now_ms : ℕ) (after : Remote)
      → w.remote ≡ before
      → tables.find_order order_id w.db ≡ some order
      → order.status ≡ confirmed
      → IsReleased store sha256_hex client db_of
          (at later)
          commits
          (record { order_id = order_id })
          (options_of env.trace_id now_ms deadline_ms)
          before
          after
      → let (answer, w') =
          cancel tables (grpc_gateway client now_ms deadline_ms) env commits order_id w in
        (answer ≡ ok (to_order_view (cancelled_order env.now env.updated_at order)))
        × (tables.find_order order_id w'.db ≡ some (cancelled_order env.now env.updated_at order))
        × ((closed : Operation) × (store.find_operation order_id (db_of w'.remote) ≡ some closed)
            × (closed.status ≡ released))
        × ((j : Text) (row : PartRow)
            → store.find_part j (db_of before) ≡ some row
            → (row' : PartRow) × (store.find_part j (db_of w'.remote) ≡ some row')
              × (row'.stock_available ≡ row.stock_available + held_by j op.items))
  cancel_returns_stock tables laws env order w later now_ms after at_before found status ran =
      let gateway = grpc_gateway client now_ms deadline_ms in
      let same : to_lower_case order_id ≡ order_id = folded.1 in
      let (called, state) = gateway_releases later now_ms env.trace_id after ran in
      let (db', run, cancelled) =
        cancel_releases tables laws gateway env order_id order w
          (ap (λ k. tables.find_order k w.db) same ∙ found) after status
          (ap (λ k. gateway.release k env.trace_id w.remote) same
            ∙ ap (gateway.release order_id env.trace_id) at_before
            ∙ called) in
      let (db'', gave, parts, ledger) =
        release_returns store store_laws order_id (at later) op (db_of before) there holds (
          reserved-IsReturnable store store_laws sha256_hex start (db_of before) empty history
            order_id op there holds) in
      let end : db_of (cancel tables gateway env commits order_id w).1.remote ≡ db'' =
        ap (λ r. db_of r.1.remote) run ∙ state ∙ ap (λ r. r.1) gave in
      (
        ap (λ r. r.0) run,
        ap (λ r. tables.find_order order_id r.1.db) run
            ∙ ap (λ k. tables.find_order k db') (sym same)
            ∙ cancelled,
        (
          returned (λ j. store.find_part j (db_of before)) (at later) op,
          ap (store.find_operation order_id) end
              ∙ ledger order_id
              ∙ rw (text_eq_refl order_id) refl,
          refl,
        ),
        λ j row at_row.
            let (row', given, stock, _, _, _) = after_returning-stock (at later) op.items j row in
            (
              row',
              ap (store.find_part j) end
                  ∙ parts j
                  ∙ ap (after_returning (at later) op.items j) at_row
                  ∙ given,
              stock,
            ),
      )
