-- ===== src/Inventory/Ledger/Changes.antt =====
-- A call that writes one operation and moves the stock of its parts keeps the books balanced.
use tarea_integracion_sistem.Prelude.{
  ◌+◌, ◌≡◌, sym, ◌∙◌, ap, subst, false, List, [], ◌∷◌, Option, none, some, arith, Bool-cases,
  Option-cases, inl, inr, if◌then◌else◌,
}
use tarea_integracion_sistem.Text.{Text, text_eq, contains}
use tarea_integracion_sistem.Text.Laws.{text_eq_refl, text_eq_sound}
use tarea_integracion_sistem.Inventory.Store.{Store, PartRow, Operation, OperationItem, reserved}
use tarea_integracion_sistem.Inventory.Stock.Undo.{InTable}
use tarea_integracion_sistem.Inventory.Ledger.{held_of, held_total, IsSound, IsBalanced}
use tarea_integracion_sistem.Inventory.Ledger.Sums.{held_total-joins}

module _ (store : Store) where
  open store use {Db, find_part, find_operation}

  InTable-kept :
      (db db' : Db) (items : List OperationItem)
      → ((j : Text) (row : PartRow)
          → find_part j db ≡ some row
          → (row' : PartRow) × (find_part j db' ≡ some row'))
      → InTable store db items
      → InTable store db' items
  InTable-kept db db' [] kept h = tt
  InTable-kept db db' (i ∷ is) kept ((row, found), h) =
      (kept i.part_id row found, InTable-kept db db' is kept h)

  -- One operation is written, and each part changes by what the operation holds more or less.
  pub record IsChange (db db' : Db) (k : Text) (op : Operation) : Type 0 where
    pub ledger :
        (j : Text) → find_operation j db' ≡ (if text_eq k j then some op else find_operation j db)
    pub parts :
        (j : Text) (row : PartRow)
        → find_part j db ≡ some row
        → (row' : PartRow) × (find_part j db' ≡ some row')
          × (row'.stock_available + held_of (some op) j
              ≡ row.stock_available + held_of (find_operation k db) j)
    pub none_new : (j : Text) → find_part j db ≡ none → find_part j db' ≡ none
    pub sound : op.status ≡ reserved → IsSound store db' op

  module _ (initial : Text → Option PartRow) (db db' : Db) (k : Text) (op : Operation)
      (change : IsChange db db' k op) where
    IsSound-kept : (op' : Operation) → IsSound store db op' → IsSound store db' op'
    IsSound-kept op' s = record {
      distinct_ids = s.distinct_ids;
      distinct_parts = s.distinct_parts;
      in_table =
          InTable-kept db db' op'.items
            (λ j row found. let (row', found', _) = change.parts j row found in (row', found'))
            s.in_table;
    }

    pub change_here : find_operation k db' ≡ some op
    change_here = change.ledger k ∙ rw (text_eq_refl k)

    pub change_others :
        (x : Text) → text_eq k x ≡ false → find_operation x db' ≡ find_operation x db
    change_others x ne = change.ledger x ∙ rw ne

    listed_before :
        (orders : List Text)
        → IsBalanced store initial orders db
        → contains k orders ≡ false
        → find_operation k db ≡ none
    listed_before orders b absent = elim (Option-cases (find_operation k db)) [
      | inl gone ↦ gone
      | inr (op', found) ↦ let there = b.listed k op' found in cc
    ]

    -- A change keeps the books balanced.
    pub IsBalanced-change :
        (orders : List Text)
        → IsBalanced store initial orders db
        → (orders' : List Text) × IsBalanced store initial orders' db'
    IsBalanced-change orders b =
        let (orders', distinct, there, grows, total) =
          held_total-joins (λ x. find_operation x db) (λ x. find_operation x db') k change_others
            orders b.distinct (listed_before orders b) in
        (
          orders',
          record {
            distinct = distinct;
            listed = λ x op' found. elim (Bool-cases (text_eq k x)) [
              | inl e ↦
                  let at : k ≡ x = text_eq_sound k x e in
                  ap (λ y. contains y orders') (sym at) ∙ there
              | inr ne ↦ grows x (b.listed x op' (sym (change_others x ne) ∙ found))
            ];
            sound = λ x op' found holds. elim (Bool-cases (text_eq k x)) [
              | inl e ↦
                  let same : op ≡ op' = ground (arith, change.ledger x) in
                  subst (IsSound store db') same
                    (change.sound (ap (λ (o : Operation). o.status) same ∙ holds))
              | inr ne ↦ IsSound-kept op' (b.sound x op' (sym (change_others x ne) ∙ found) holds)
            ];
            kept = λ j first at_first.
                let (row, found, balance, small) = b.kept j first at_first in
                let (row', found', moved) = change.parts j row found in
                let sum : row'.stock_available + held_total (λ x. find_operation x db') orders' j
                    ≡ first.stock_available =
                  omega (arith, total j, ap (λ o. held_of o j) change_here) in
                (row', found', sum, small);
            none_new = λ j never. change.none_new j (b.none_new j never);
          },
        )
