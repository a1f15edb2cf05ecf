-- ===== src/Inventory/Tests/History.antt =====
-- A history: a reservation whose acknowledgement is lost, its retry, a release that is taken back.
use tarea_integracion_sistem.Prelude.{◌+◌, ◌≡◌, refl, ap, ◌∙◌, true, false, List, some}
use tarea_integracion_sistem.Prelude.Result.{ok}
use tarea_integracion_sistem.Prelude.Tx.{commits, rolled_back}
use tarea_integracion_sistem.Text.{Text, text, contains}
use tarea_integracion_sistem.Inventory.Errors.{unexpected}
use tarea_integracion_sistem.Inventory.Store.{PartRow, Operation, reserved, released, IsDistinct}
use tarea_integracion_sistem.Inventory.Store.Tables.{TablesDb, tables, find_part, find_operation}
use tarea_integracion_sistem.Inventory.Store.Tables.Laws.{tables_laws}
use tarea_integracion_sistem.Inventory.Stock.{StockOperationResult, reserve, release}
use tarea_integracion_sistem.Inventory.Stock.Returning.{stock_of_row}
use tarea_integracion_sistem.Text.Laws.{text_eq_refl}
use tarea_integracion_sistem.Inventory.Stock.Lifecycle.{reserve_creates}
use tarea_integracion_sistem.Inventory.Ledger.{Reach, here, next, reserves, releases, held_total}
use tarea_integracion_sistem.Inventory.Ledger.Conservation.{
  stock_is_conserved, release_always_succeeds, stock_can_be_restored,
}
use tarea_integracion_sistem.Inventory.Tests.{
  order_a, noon, later, db, command, no_hash, parse_example, lost, command-Has,
}

abbrev after : TablesDb
after =
    (release tables order_a later (rolled_back (unexpected (text "deadlock")))
      (reserve tables no_hash later commits command
        (reserve tables no_hash noon lost command db).1).1).1

history : Reach tables no_hash db after
history =
    next
      (next (next here (reserves noon lost command parse_example))
        (reserves later commits command parse_example))
      (releases order_a later (rolled_back (unexpected (text "deadlock"))))

stock_is_conserved_example :
    (orders : List Text) × IsDistinct orders
    × ((k : Text) (op : Operation) → find_operation k after ≡ some op → contains k orders ≡ true)
    × ((j : Text) (first : PartRow)
        → find_part j db ≡ some first
        → (row : PartRow) × (find_part j after ≡ some row)
          × (row.stock_available + held_total (λ k. find_operation k after) orders j
              ≡ first.stock_available))
stock_is_conserved_example =
    stock_is_conserved tables tables_laws no_hash db after (λ k. refl) history

stock_can_be_restored_example :
    (db'' : TablesDb) × Reach tables no_hash after db''
    × ((j : Text) → stock_of_row (find_part j db'') ≡ stock_of_row (find_part j db))
stock_can_be_restored_example =
    stock_can_be_restored tables tables_laws no_hash db after (λ k. refl) history later

abbrev held : TablesDb
held = (reserve tables no_hash noon commits command db).1

-- The order is reserved there.
order_a_is_reserved :
    (op : Operation) × (find_operation order_a held ≡ some op) × (op.status ≡ reserved)
order_a_is_reserved =
    let (op, db', run, w) =
      reserve_creates tables tables_laws no_hash noon command db parse_example refl command-Has in
    (
      op,
      ap (λ r. find_operation order_a r.1) run ∙ w.ledger order_a ∙ rw (text_eq_refl order_a) refl,
      ap (λ (o : Operation). o.status) w.shape,
    )

release_always_succeeds_example :
    let (answer, db'') = release tables order_a later commits held in
    (r : StockOperationResult) × (closed : Operation) × (answer ≡ ok r)
    × (r.replayed ≡ false)
    × (find_operation order_a db'' ≡ some closed)
    × (closed.status ≡ released)
release_always_succeeds_example =
    release_always_succeeds tables tables_laws no_hash db held (λ k. refl)
      (next here (reserves noon commits command parse_example)) order_a later order_a_is_reserved.0
      order_a_is_reserved.1 order_a_is_reserved.2
