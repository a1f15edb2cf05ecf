-- ===== src/Inventory/Stock/Taking.antt =====
-- The loop of `reserve` that takes the stock: from rows that agree with the table it writes each
-- part once, and each part of the order loses exactly what was asked of it.
use tarea_integracion_sistem.Prelude.{
  ℕ, ◌+◌, ◌-◌, ◌≤◌, ◌≡◌, refl, ◌∙◌, subst, ap, false, List, [], ◌∷◌, Option, some, arith, All,
  Bool-cases, inl, inr, if◌then◌else◌,
}
use tarea_integracion_sistem.Prelude.Result.{ok}
use tarea_integracion_sistem.Prelude.Tx.{bind-lift, bind-write}
use tarea_integracion_sistem.Text.{Text, text_eq, contains}
use tarea_integracion_sistem.Text.Laws.{text_eq_sound, text_eq_iff, text_eq_comm}
use tarea_integracion_sistem.Js.{Date}
use tarea_integracion_sistem.Inventory.Request.{ReserveItem}
use tarea_integracion_sistem.Inventory.Request.Parsing.{part_ids}
use tarea_integracion_sistem.Inventory.Store.{Store, StoreLaws, PartRow, IsDistinct, map_option}
use tarea_integracion_sistem.Inventory.Stock.{part_of, part_or_throw, stock_less, take_stock}

-- How many of a part the items ask for.
abbrev pub quantity_of : Text → List ReserveItem → ℕ
quantity_of j [] = 0
quantity_of j (i ∷ is) = (if text_eq i.part_id j then i.quantity else 0) + quantity_of j is

abbrev pub take_from : Date → ReserveItem → PartRow → PartRow
take_from now i row = record row {
  stock_available = row.stock_available - i.quantity;
  updated_at = now;
}

-- The row of a part after the loop.
abbrev pub after_taking : Date → List ReserveItem → Text → Option PartRow → Option PartRow
after_taking now [] j row = row
after_taking now (i ∷ is) j row =
    after_taking now is j (if text_eq i.part_id j then map_option (take_from now i) row else row)

after_taking-absent :
    (now : Date) (items : List ReserveItem) (j : Text) (row : Option PartRow)
    → contains j (part_ids items) ≡ false
    → (after_taking now items j row ≡ row) × (quantity_of j items ≡ 0)
unfolding contains
after_taking-absent now [] j row h = (refl, refl)
after_taking-absent now (i ∷ is) j row h = ground (arith, after_taking-absent now is j row)

-- A part that the items name once loses its quantity; the rest of its row is kept.
pub after_taking-stock :
    (now : Date) (items : List ReserveItem) (j : Text) (row : PartRow)
    → IsDistinct (part_ids items)
    → All (λ i. i.part_id ≡ j → i.quantity ≤ row.stock_available) items
    → (row' : PartRow) × (after_taking now items j (some row) ≡ some row')
      × (row'.stock_available + quantity_of j items ≡ row.stock_available)
      × (row'.id ≡ row.id)
      × (row'.sku ≡ row.sku)
      × (row'.name ≡ row.name)
after_taking-stock now [] j row d h = (row, refl, omega arith, refl, refl, refl)
after_taking-stock now (i ∷ is) j row d h = elim (Bool-cases (text_eq i.part_id j)) [
  | inl e ↦
      let same : i.part_id ≡ j = text_eq_sound i.part_id j e in
      let others = subst (λ k. contains k (part_ids is) ≡ false) same d.0 in
      let enough : i.quantity ≤ row.stock_available = h.0 same in
      let (kept, none_asked) = after_taking-absent now is j (some (take_from now i row)) others in
      (take_from now i row, rw e kept, rw (e, none_asked) (omega arith), refl, refl, refl)
  | inr e ↦
      let (row', found, stock, id, sku, name) = after_taking-stock now is j row d.1 h.1 in
      (row', rw e found, rw e (omega arith), id, sku, name)
]

pub part_or_throw-some :
    (locked : List PartRow) (id : Text) {row : PartRow}
    → part_of locked id ≡ some row
    → part_or_throw locked id ≡ ok row
unfolding part_or_throw
part_or_throw-some locked id h = rw h

pub stock_less-covered :
    (row : PartRow) (i : ReserveItem)
    → i.quantity ≤ row.stock_available
    → stock_less row i ≡ ok (row.stock_available - i.quantity)
unfolding stock_less
stock_less-covered row i h = ground arith

module _ (store : Store) where
  open store use {Db, find_part}

  -- The locked row of each item is that of the table, and it covers the item.
  abbrev pub Covers : List PartRow → Db → List ReserveItem → Type 0
  Covers locked db = All (λ i.
      (row : PartRow) × (part_of locked i.part_id ≡ some row)
      × (find_part i.part_id db ≡ some row)
      × (i.quantity ≤ row.stock_available))

module _ (store : Store) (laws : StoreLaws store) where
  open store use {Db, find_part, find_operation}

  -- A write to a part that is not among the items leaves them covered.
  Covers-step :
      (locked : List PartRow) (db db' : Db) (k : Text) (items : List ReserveItem)
      → contains k (part_ids items) ≡ false
      → ((j : Text) → text_eq k j ≡ false → find_part j db' ≡ find_part j db)
      → Covers store locked db items
      → Covers store locked db' items
  unfolding contains
  Covers-step locked db db' k [] absent same h = tt
  Covers-step locked db db' k (i ∷ is) absent same ((row, in_lock, in_table, enough), h) =
      let ne : text_eq k i.part_id ≡ false = text_eq_comm k i.part_id ∙ ground arith in
      (
        (row, in_lock, same i.part_id ne ∙ in_table, enough),
        Covers-step locked db db' k is (ground arith) same h,
      )

  take_stock-cons :
      (locked : List PartRow) (now : Date) (i : ReserveItem) (is : List ReserveItem) (row : PartRow)
      (db : Db) {db₁ : Db}
      → part_of locked i.part_id ≡ some row
      → row.id ≡ i.part_id
      → i.quantity ≤ row.stock_available
      → store.update_part i.part_id (row.stock_available - i.quantity) now db ≡ ok db₁
      → take_stock store locked now (i ∷ is) db ≡ take_stock store locked now is db₁
  unfolding take_stock
  take_stock-cons locked now i is row db in_lock same_id enough wrote =
      bind-lift _ db (part_or_throw locked i.part_id) (part_or_throw-some locked i.part_id in_lock)
      ∙ bind-lift _ db (stock_less row i) (stock_less-covered row i enough)
      ∙ bind-write (take_stock store locked now is) (store.update_part row.id _ now) db
          (rw same_id wrote)

  pub take_stock_lem :
      (locked : List PartRow) (now : Date) (items : List ReserveItem) (db : Db)
      → IsDistinct (part_ids items)
      → Covers store locked db items
      → (db' : Db) × (take_stock store locked now items db ≡ ok (tt, db'))
        × ((j : Text) → find_part j db' ≡ after_taking now items j (find_part j db))
        × ((j : Text) → find_operation j db' ≡ find_operation j db)
  unfolding take_stock
  take_stock_lem locked now [] db d h = (db, refl, λ j. refl, λ j. refl)
  take_stock_lem locked now (i ∷ is) db d ((row, in_lock, in_table, enough), h) =
      let (same_id, range) = laws.find_part_law i.part_id db row in_table in
      let after : ℕ = row.stock_available - i.quantity in
      let (db₁, wrote, parts₁, operations₁) =
        laws.update_part_law i.part_id after now db row in_table (omega arith) in
      let step : (j : Text)
          → find_part j db₁ ≡ (
              if text_eq i.part_id j
              then map_option (take_from now i) (find_part j db)
              else find_part j db) =
        λ j. parts₁ j ∙ ground (arith, text_eq_iff i.part_id j) in
      let (db₂, looped, parts₂, operations₂) =
        take_stock_lem locked now is db₁ d.1
          (Covers-step locked db db₁ i.part_id is d.0 (λ j ne. parts₁ j ∙ rw ne) h) in
      (
        db₂,
        take_stock-cons locked now i is row db in_lock same_id enough wrote ∙ looped,
        λ j. parts₂ j ∙ ap (after_taking now is j) (step j),
        λ j. operations₂ j ∙ operations₁ j,
      )
