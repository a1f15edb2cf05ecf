-- ===== src/Inventory/Stock/Undo.antt =====
-- A release undoes the reservation of its order, and closes the order for good.
pub mod Lines
pub use Lines.{
  InTable, Records-InTable, after_returning-none, after_taking-none, held_by-stored_items,
  item_ids-stored_items, item_parts-stored_items, le-held_by, room_for_return,
}
use tarea_integracion_sistem.Prelude.{
  ℕ, ◌+◌, ◌≤◌, ◌<◌, ◌≡◌, refl, sym, ◌∙◌, subst, ap, false, [], ◌∷◌, Option, none, some, arith,
  Option-cases, inl, inr,
}
use tarea_integracion_sistem.Prelude.Result.{ok}
use tarea_integracion_sistem.Prelude.Tx.{Fate, commits, Persists}
use tarea_integracion_sistem.Text.{Text}
use tarea_integracion_sistem.Text.Laws.{text_eq_refl}
use tarea_integracion_sistem.Js.{Date}
use tarea_integracion_sistem.Inventory.Errors.{Exception}
use tarea_integracion_sistem.Inventory.Request.{ReserveCommand}
use tarea_integracion_sistem.Inventory.Request.Parsing.{part_ids, IsValidCommand}
use tarea_integracion_sistem.Inventory.Store.{
  Store, StoreLaws, PartRow, Operation, IsDistinct, released, stored_items,
}
use tarea_integracion_sistem.Inventory.Stock.{
  StockOperationResult, to_reserve_result, reserve, release,
}
use tarea_integracion_sistem.Inventory.Stock.Taking.{after_taking, quantity_of}
use tarea_integracion_sistem.Inventory.Stock.Reserving.{Has, IsFresh-IsDistinct}
use tarea_integracion_sistem.Inventory.Stock.Reserve.{Records-part_ids, IsReservation}
use tarea_integracion_sistem.Inventory.Stock.Returning.{
  item_parts, item_ids, held_by, stock_of_row, after_returning, after_returning-stock,
}
use tarea_integracion_sistem.Inventory.Stock.Release.{
  IsReturnable, returned, returned_result, release_returns,
}
use tarea_integracion_sistem.Inventory.Stock.Lifecycle.{
  reserve_creates, reserve_takes, reserve_state,
}

module _ (store : Store) (laws : StoreLaws store) where
  open store use {Db, find_part, find_operation}

  module _ (sha256_hex : Text → Text) (now : Date) (command : ReserveCommand) (db : Db)
      (valid : IsValidCommand command) (fresh : find_operation command.order_id db ≡ none)
      (has : Has store db command.items) where
    -- What a reservation wrote can be released, and the release adds what it took.
    pub reservation-IsReturnable :
        (op : Operation) (db' : Db)
        → reserve store sha256_hex now commits command db ≡ (ok (to_reserve_result op false), db')
        → IsReservation store sha256_hex now command db db' op
        → IsReturnable store db' op
          × ((j : Text) → held_by j op.items ≡ quantity_of j command.items)
    reservation-IsReturnable op db' run w =
        let items : op.items ≡ stored_items w.ids w.news =
          ap (λ (o : Operation). o.items) w.shape in
        let held : (j : Text) → held_by j op.items ≡ quantity_of j command.items = λ j.
          ap (held_by j) items
          ∙ held_by-stored_items store laws db 0 command.items w.ids w.news j w.same_length
              w.lines in
        (
          record {
            distinct_ids =
                subst IsDistinct
                  (sym (ap item_ids items ∙ item_ids-stored_items w.ids w.news w.same_length))
                  w.distinct_ids;
            distinct_parts =
                subst IsDistinct
                  (sym (
                    ap item_parts items
                    ∙ item_parts-stored_items w.ids w.news w.same_length
                    ∙ Records-part_ids store laws db 0 command.items w.news w.lines))
                  (IsFresh-IsDistinct (part_ids command.items) valid.distinct);
            room =
                room_for_return store laws db db' (λ j. held_by j op.items) op.items
                  (λ j row found.
                    let (row', found', stock, id, sku, name) =
                      reserve_takes store laws sha256_hex now command db valid fresh has j row
                        found in
                    (row', sym (ap (λ r. find_part j r.1) run) ∙ found', rw (held j) stock))
                  (subst (InTable store db) (sym items)
                    (Records-InTable store laws db 0 command.items w.ids w.news w.lines))
                  (le-held_by op.items);
          },
          held,
        )

    -- The stock of a part after the reservation and the release, against that before them.
    stock_restored :
        (op : Operation) (db' db'' : Db) (later : Date)
        → reserve store sha256_hex now commits command db ≡ (ok (to_reserve_result op false), db')
        → ((j : Text) → find_part j db' ≡ after_taking now command.items j (find_part j db))
        → ((j : Text) → held_by j op.items ≡ quantity_of j command.items)
        → ((j : Text) → find_part j db'' ≡ after_returning later op.items j (find_part j db'))
        → (j : Text) → stock_of_row (find_part j db'') ≡ stock_of_row (find_part j db)
    stock_restored op db' db'' later run taken held given j = elim (Option-cases (find_part j db)) [
      | inl none_there ↦
          ap stock_of_row (
            given j
            ∙ ap (after_returning later op.items j) (
                taken j
                ∙ ap (after_taking now command.items j) none_there
                ∙ after_taking-none now command.items j)
            ∙ after_returning-none later op.items j)
          ∙ sym (ap stock_of_row none_there)
      | inr (row, found) ↦
          let (row', found', stock, _, _, _) =
            reserve_takes store laws sha256_hex now command db valid fresh has j row found in
          let (row'', found'', stock', _, _, _) = after_returning-stock later op.items j row' in
          let there : find_part j db' ≡ some row' = sym (ap (λ r. find_part j r.1) run) ∙ found' in
          let total : row''.stock_available ≡ row.stock_available = omega (arith, held j) in
          ap stock_of_row (given j ∙ ap (after_returning later op.items j) there ∙ found'')
          ∙ (total ∙ sym (ap stock_of_row found))
    ]

    -- A reservation that took effect, told or not, and then a release of its order leave every
    -- part with the stock that it had before, and the order's operation released.
    pub release_undoes_reserve :
        (fate : Fate Exception) (later : Date)
        → Persists fate
        → let db' = (reserve store sha256_hex now fate command db).1 in
          let (answer, db'') = release store command.order_id later commits db' in
          (r : StockOperationResult) × (op : Operation) × (answer ≡ ok r)
          × (r.replayed ≡ false)
          × ((j : Text) → stock_of_row (find_part j db'') ≡ stock_of_row (find_part j db))
          × (find_operation command.order_id db'' ≡ some op)
          × (op.status ≡ released)
    release_undoes_reserve fate later p =
        let (op, db', run, w) =
          reserve_creates store laws sha256_hex now command db valid fresh has in
        let state : (reserve store sha256_hex now fate command db).1 ≡ db' =
          reserve_state store laws sha256_hex now command db valid fresh has fate p
          ∙ ap (λ r. r.1) run in
        let here : find_operation command.order_id db' ≡ some op =
          w.ledger command.order_id ∙ rw (text_eq_refl command.order_id) in
        let (ok_op, held) = reservation-IsReturnable op db' run w in
        let find : Text → Option PartRow = λ k. find_part k db' in
        let (db'', ran, given, ledger) =
          release_returns store laws command.order_id later op db' here
            (ap (λ (o : Operation). o.status) w.shape) ok_op in
        let done : release store command.order_id later commits
              (reserve store sha256_hex now fate command db).1
            ≡ (ok (returned_result find later op false), db'') =
          ap (release store command.order_id later commits) state ∙ ran in
        (
          returned_result find later op false,
          returned find later op,
          ap (λ r. r.0) done,
          refl,
          λ j.
              ap (λ r. stock_of_row (find_part j r.1)) done
              ∙ stock_restored op db' db'' later run w.parts held given j,
          ap (λ r. find_operation command.order_id r.1) done
              ∙ ledger command.order_id
              ∙ rw (text_eq_refl command.order_id),
          refl,
        )
