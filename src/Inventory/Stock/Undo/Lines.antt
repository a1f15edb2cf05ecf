-- ===== src/Inventory/Stock/Undo/Lines.antt =====
-- The lines that a reservation leaves in its operation: what they hold of each part, and that it
-- fits back into the stock.
use tarea_integracion_sistem.Prelude.{
  ℕ, suc, ◌+◌, ◌≤◌, ◌<◌, ◌≡◌, refl, ◌∙◌, ap, List, [], ◌∷◌, map, none, some, arith, length, All,
  Bool-cases, inl, inr,
}
use tarea_integracion_sistem.Text.{Text, text_eq}
use tarea_integracion_sistem.Text.Laws.{text_eq_refl}
use tarea_integracion_sistem.Js.{Date}
use tarea_integracion_sistem.Inventory.Request.{ReserveItem}
use tarea_integracion_sistem.Inventory.Store.{
  Store, StoreLaws, PartRow, OperationItem, NewItem, int_limit, stored_items,
}
use tarea_integracion_sistem.Inventory.Stock.Taking.{after_taking, quantity_of}
use tarea_integracion_sistem.Inventory.Stock.Reserving.{Records}
use tarea_integracion_sistem.Inventory.Stock.Returning.{
  item_parts, item_ids, held_by, after_returning,
}

pub item_ids-stored_items :
    (ids : List Text) (news : List NewItem)
    → length ids ≡ length news
    → item_ids (stored_items ids news) ≡ ids
item_ids-stored_items [] news h = refl
item_ids-stored_items (id ∷ ids) [] h = absurd (omega arith)
item_ids-stored_items (id ∷ ids) (n ∷ ns) h = cc (item_ids-stored_items ids ns (omega arith))

pub item_parts-stored_items :
    (ids : List Text) (news : List NewItem)
    → length ids ≡ length news
    → item_parts (stored_items ids news) ≡ map (λ (n : NewItem). n.part_id) news
item_parts-stored_items [] [] h = refl
item_parts-stored_items [] (n ∷ ns) h = absurd (omega arith)
item_parts-stored_items (id ∷ ids) [] h = absurd (omega arith)
item_parts-stored_items (id ∷ ids) (n ∷ ns) h = cc (item_parts-stored_items ids ns (omega arith))

module _ (store : Store) (laws : StoreLaws store) where
  open store use {Db, find_part, find_operation}

  -- The lines of a reservation hold of each part what its items ask.
  pub held_by-stored_items :
      (db : Db) (index : ℕ) (items : List ReserveItem) (ids : List Text) (news : List NewItem)
      (j : Text)
      → length ids ≡ length news
      → Records store db index items news
      → held_by j (stored_items ids news) ≡ quantity_of j items
  held_by-stored_items db index [] [] [] j len r = refl
  held_by-stored_items db index (i ∷ is) (id ∷ ids) (n ∷ ns) j len ((row, found, _, e), r) =
      let same = (laws.find_part_law i.part_id db row found).0 in
      ground (arith, held_by-stored_items db (suc index) is ids ns j (omega arith) r)
  held_by-stored_items db index [] (id ∷ ids) (n ∷ ns) j len r = elim r [ ]
  held_by-stored_items db index (i ∷ is) (id ∷ ids) [] j len r = elim r [ ]
  held_by-stored_items db index items [] (n ∷ ns) j len r = absurd (omega arith)
  held_by-stored_items db index [] (id ∷ ids) [] j len r = refl
  held_by-stored_items db index (i ∷ is) [] [] j len r = elim r [ ]

le-held_by_cons :
    (x : OperationItem) (xs is : List OperationItem)
    → All (λ i. i.quantity ≤ held_by i.part_id xs) is
    → All (λ i. i.quantity ≤ held_by i.part_id (x ∷ xs)) is
le-held_by_cons x xs [] h = tt
le-held_by_cons x xs (i ∷ is) h = (omega arith, le-held_by_cons x xs is h.1)

pub le-held_by :
    (items : List OperationItem) → All (λ i. i.quantity ≤ held_by i.part_id items) items
le-held_by [] = tt
le-held_by (i ∷ is) = (rw text_eq_refl (omega arith), le-held_by_cons i is is (le-held_by is))

pub after_taking-none :
    (now : Date) (items : List ReserveItem) (j : Text) → after_taking now items j none ≡ none
after_taking-none now [] j = refl
after_taking-none now (i ∷ is) j = elim (Bool-cases (text_eq i.part_id j)) [
  | inl e ↦ rw e (after_taking-none now is j)
  | inr e ↦ rw e (after_taking-none now is j)
]

pub after_returning-none :
    (now : Date) (items : List OperationItem) (j : Text) → after_returning now items j none ≡ none
after_returning-none now [] j = refl
after_returning-none now (i ∷ is) j = elim (Bool-cases (text_eq i.part_id j)) [
  | inl e ↦ rw e (after_returning-none now is j)
  | inr e ↦ rw e (after_returning-none now is j)
]

module _ (store : Store) where
  open store use {Db, find_part}

  -- The table has the parts of the lines.
  abbrev pub InTable : Db → List OperationItem → Type 0
  InTable db = All (λ i. (row : PartRow) × (find_part i.part_id db ≡ some row))

module _ (store : Store) (laws : StoreLaws store) where
  open store use {Db, find_part, find_operation}

  pub Records-InTable :
      (db : Db) (index : ℕ) (items : List ReserveItem) (ids : List Text) (news : List NewItem)
      → Records store db index items news
      → InTable store db (stored_items ids news)
  Records-InTable db index [] [] news r = tt
  Records-InTable db index [] (id ∷ ids) [] r = tt
  Records-InTable db index [] (id ∷ ids) (n ∷ ns) r = elim r [ ]
  Records-InTable db index (i ∷ is) [] news r = tt
  Records-InTable db index (i ∷ is) (id ∷ ids) [] r = elim r [ ]
  Records-InTable db index (i ∷ is) (id ∷ ids) (n ∷ ns) ((row, found, _, e), r) =
      let same : n.part_id ≡ i.part_id =
        ap (λ (m : NewItem). m.part_id) e ∙ (laws.find_part_law i.part_id db row found).0 in
      ((row, ap (λ k. find_part k db) same ∙ found), Records-InTable db (suc index) is ids ns r)

  -- What was taken of a part fits back into its column.
  pub room_for_return :
      (db db' : Db) (held : Text → ℕ) (items : List OperationItem)
      → ((j : Text) (row : PartRow)
          → find_part j db ≡ some row
          → (row' : PartRow) × (find_part j db' ≡ some row')
            × (row'.stock_available + held j ≡ row.stock_available))
      → InTable store db items
      → All (λ i. i.quantity ≤ held i.part_id) items
      → All
          (λ i.
            (row : PartRow) × (find_part i.part_id db' ≡ some row)
            × (row.stock_available + i.quantity < int_limit))
          items
  room_for_return db db' held [] takes t h = tt
  room_for_return db db' held (i ∷ is) takes ((row, found), t) h =
      let (row', found', taken) = takes i.part_id row found in
      let range = (laws.find_part_law i.part_id db row found).1 in
      ((row', found', omega arith), room_for_return db db' held is takes t h.1)
