-- ===== src/Inventory/Stock/Returning.antt =====
-- The loop of `release` that gives the stock back: each part of the operation gains what the
-- operation took of it, and each line notes its stock before and after.
pub mod Lines
pub use Lines.{
  item_ids, note, noted, noted_item, noted-all, stock_of_row, stock_in, AreLines, AreLines-note,
}
use tarea_integracion_sistem.Prelude.{
  ℕ, ◌+◌, ◌<◌, ◌≡◌, refl, sym, ◌∙◌, ap, ap₂, false, List, [], ◌∷◌, map, Option, some, arith, All,
  Bool-cases, inl, inr, if◌then◌else◌,
}
use tarea_integracion_sistem.Prelude.Result.{ok}
use tarea_integracion_sistem.Prelude.Tx.{◌>>=◌, pure}
use tarea_integracion_sistem.Text.{Text, text_eq, contains}
use tarea_integracion_sistem.Text.Laws.{text_eq_iff, text_eq_comm, text_eq_refl}
use tarea_integracion_sistem.Js.{Date, map_get}
use tarea_integracion_sistem.Inventory.Store.{
  Store, StoreLaws, PartRow, Operation, OperationItem, IsDistinct, map_option, int_limit,
  release_item,
}
use tarea_integracion_sistem.Inventory.Stock.{part_of, return_stock}
use tarea_integracion_sistem.Inventory.Stock.Taking.{part_or_throw-some}

abbrev pub item_parts : List OperationItem → List Text
item_parts = map (λ i. i.part_id)

-- How many of a part the lines hold.
abbrev pub held_by : Text → List OperationItem → ℕ
held_by j [] = 0
held_by j (i ∷ is) = (if text_eq i.part_id j then i.quantity else 0) + held_by j is

abbrev pub give_back : Date → OperationItem → PartRow → PartRow
give_back now i row = record row {
  stock_available = row.stock_available + i.quantity;
  updated_at = now;
}

-- The row of a part after the loop.
abbrev pub after_returning : Date → List OperationItem → Text → Option PartRow → Option PartRow
after_returning now [] j row = row
after_returning now (i ∷ is) j row =
    after_returning now is j (if text_eq i.part_id j then map_option (give_back now i) row else row)

pub after_returning-stock :
    (now : Date) (items : List OperationItem) (j : Text) (row : PartRow)
    → (row' : PartRow) × (after_returning now items j (some row) ≡ some row')
      × (row'.stock_available ≡ row.stock_available + held_by j items)
      × (row'.id ≡ row.id)
      × (row'.sku ≡ row.sku)
      × (row'.name ≡ row.name)
after_returning-stock now [] j row = (row, refl, omega arith, refl, refl, refl)
after_returning-stock now (i ∷ is) j row = elim (Bool-cases (text_eq i.part_id j)) [
  | inl e ↦
      let (row', found, stock, id, sku, name) =
        after_returning-stock now is j (give_back now i row) in
      (row', rw e found, rw e (omega arith), id, sku, name)
  | inr e ↦
      let (row', found, stock, id, sku, name) = after_returning-stock now is j row in
      (row', rw e found, rw e (omega arith), id, sku, name)
]

module _ (store : Store) where
  open store use {Db, find_part}

  -- The locked row of each line is that of the table, and has room for its quantity.
  abbrev pub HasRoom : List PartRow → Db → List OperationItem → Type 0
  HasRoom locked db = All (λ i.
      (row : PartRow) × (part_of locked i.part_id ≡ some row)
      × (find_part i.part_id db ≡ some row)
      × (row.stock_available + i.quantity < int_limit))

module _ (store : Store) (laws : StoreLaws store) where
  open store use {Db, find_part, find_operation}

  HasRoom-step :
      (locked : List PartRow) (db db' : Db) (k : Text) (items : List OperationItem)
      → contains k (item_parts items) ≡ false
      → ((j : Text) → text_eq k j ≡ false → find_part j db' ≡ find_part j db)
      → HasRoom store locked db items
      → HasRoom store locked db' items
  unfolding contains
  HasRoom-step locked db db' k [] absent same h = tt
  HasRoom-step locked db db' k (i ∷ is) absent same ((row, in_lock, in_table, room), h) =
      let ne : text_eq k i.part_id ≡ false = ground (arith, text_eq_comm k i.part_id) in
      (
        (row, in_lock, same i.part_id ne ∙ in_table, room),
        HasRoom-step locked db db' k is (ground arith) same h,
      )

  return_stock-cons :
      (locked : List PartRow) (now : Date) (i : OperationItem) (is : List OperationItem)
      (row : PartRow) (db : Db) {db₁ db₂ : Db}
      → part_of locked i.part_id ≡ some row
      → store.update_part i.part_id (row.stock_available + i.quantity) now db ≡ ok db₁
      → store.update_item i.id row.stock_available (row.stock_available + i.quantity) db₁ ≡ ok db₂
      → return_stock store locked now (i ∷ is) db ≡ return_stock store locked now is db₂
  unfolding return_stock ◌>>=◌
  return_stock-cons locked now i is row db in_lock wrote noted =
      rw (part_or_throw-some locked i.part_id in_lock, wrote, noted)

  -- One round of the loop.
  return_one :
      (locked : List PartRow) (now : Date) (i : OperationItem) (is : List OperationItem)
      (order : Text) (op : Operation) (row : PartRow) (x : OperationItem) (db : Db)
      → part_of locked i.part_id ≡ some row
      → find_part i.part_id db ≡ some row
      → row.stock_available + i.quantity < int_limit
      → map_get (λ y. y.id) i.id op.items ≡ some x
      → x.quantity ≡ i.quantity
      → find_operation order db ≡ some op
      → (db' : Db) × (return_stock store locked now (i ∷ is) db
          ≡ return_stock store locked now is db')
        × ((j : Text)
            → find_part j db' ≡ (
                if text_eq i.part_id j
                then map_option (give_back now i) (find_part j db)
                else find_part j db))
        × ((j : Text)
            → find_operation j db' ≡ (
                if text_eq order j
                then some (record op { items = map (note locked i) op.items })
                else find_operation j db))
  return_one locked now i is order op row x db in_lock in_table fits line same found =
      let (db₁, wrote, parts₁, operations₁) =
        laws.update_part_law i.part_id (row.stock_available + i.quantity) now db row in_table
          fits in
      let (db₂, wrote_line, operations₂, parts₂) =
        laws.update_item_law i.id order row.stock_available i.quantity x op db₁
          (operations₁ order ∙ found) line same fits in
      let locked_stock : row.stock_available ≡ stock_in locked i.part_id =
        sym (ap stock_of_row in_lock) in
      (
        db₂,
        return_stock-cons locked now i is row db in_lock wrote wrote_line,
        λ j. parts₂ j ∙ (parts₁ j ∙ ground (arith, text_eq_iff i.part_id j)),
        λ j.
            operations₂ j
            ∙ ap₂
                (λ n o.
                  if text_eq order j
                  then some
                      (record op { items = map (release_item i.id n (n + i.quantity)) op.items })
                  else o)
                locked_stock (operations₁ j),
      )

  -- The loop writes each part and each line once.
  pub return_stock_lem :
      (locked : List PartRow) (now : Date) (items : List OperationItem) (order : Text)
      (op : Operation) (db : Db)
      → IsDistinct (item_parts items)
      → HasRoom store locked db items
      → AreLines op items
      → find_operation order db ≡ some op
      → (db' : Db) × (return_stock store locked now items db ≡ ok (tt, db'))
        × ((j : Text) → find_part j db' ≡ after_returning now items j (find_part j db))
        × ((j : Text)
            → find_operation j db'
              ≡ (if text_eq order j then some (noted locked items op) else find_operation j db))
  unfolding return_stock pure
  return_stock_lem locked now [] order op db d room lines found =
      (db, refl, λ j. refl, λ j. ground (arith, text_eq_iff order j))
  return_stock_lem locked now (i ∷ is) order op db d ((row, in_lock, in_table, fits), room)
        ((x, line, same), lines) found =
      let (db₁, one, parts₁, operations₁) =
        return_one locked now i is order op row x db in_lock in_table fits line same found in
      let op₁ : Operation = record op { items = map (note locked i) op.items } in
      let (db₂, looped, parts₂, operations₂) =
        return_stock_lem locked now is order op₁ db₁ d.1
          (HasRoom-step locked db db₁ i.part_id is d.0 (λ j ne. parts₁ j ∙ rw ne) room)
          (AreLines-note locked i op is lines) (operations₁ order ∙ rw (text_eq_refl order)) in
      (
        db₂,
        one ∙ looped,
        λ j. parts₂ j ∙ ap (after_returning now is j) (parts₁ j),
        λ j. operations₂ j ∙ ground (arith, operations₁ j),
      )
