-- ===== src/Inventory/Store/Tables/Laws.antt =====
-- The tables have the effects that the service relies on.
use tarea_integracion_sistem.Prelude.{
  ◌≤◌, take, zero, ℕ, suc, ◌+◌, ◌%◌, ◌≡◌, ◌<◌, refl, sym, ap, subst, ◌∙◌, true, false, List, [],
  ◌∷◌, map, none, some, if◌then◌else◌, arith, length, Bool-cases, Option-cases, inl, inr,
}
use tarea_integracion_sistem.Prelude.Result.{ok}
use tarea_integracion_sistem.Text.{Text, text_eq, contains}
use tarea_integracion_sistem.Text.Laws.{text_eq_sound, text_eq_iff, text_eq_refl}
use tarea_integracion_sistem.Js.{Date, map_get}
use tarea_integracion_sistem.Js.Laws.{map_get-key, map_get-sort_by, map_get-keep_if}
use tarea_integracion_sistem.Inventory.Store.{
  StoreLaws, PartRow, Operation, OperationItem, NewItem, stored_items, released, stored,
  release_item, release_items, map_option, int_limit, IsDistinct,
}
use tarea_integracion_sistem.Inventory.Store.Tables.{
  TablesDb, read_part, find_part, identify_from, identify, find_operation, ids_from, write_part,
  update_item, tables, put, lookup,
}

map_get-map :
    (f : PartRow → PartRow) (keeps : (r : PartRow) → (f r).id ≡ r.id) (k : Text)
    (rows : List PartRow)
    → map_get (λ r. r.id) k (map f rows) ≡ map_option f (map_get (λ r. r.id) k rows)
unfolding map_get
map_get-map f keeps k [] = refl
map_get-map f keeps k (r ∷ rows) = ground (arith, map_get-map f keeps k rows, keeps r)

map_get-read_part :
    (k : Text) (rows : List PartRow)
    → map_get (λ r. r.id) k (map read_part rows) ≡ map_option read_part (map_get (λ r. r.id) k rows)
map_get-read_part k rows = map_get-map read_part (λ r. refl) k rows

map_get-write_part :
    (k j : Text) (stock : ℕ) (now : Date) (rows : List PartRow)
    → map_get (λ r. r.id) j (map (write_part k stock now) rows)
      ≡ map_option (write_part k stock now) (map_get (λ r. r.id) j rows)
unfolding map_get
map_get-write_part k j stock now [] = refl
map_get-write_part k j stock now (r ∷ rows) = ground (arith, map_get-write_part k j stock now rows)

length-take_le : {A : Type 0} (n : ℕ) (xs : List A) → length (take n xs) ≤ n
length-take_le zero xs = omega arith
length-take_le (suc n) [] = omega arith
length-take_le (suc n) (x ∷ xs) = omega (arith, length-take_le n xs)

part_columns_lem :
    (k : Text) (db : TablesDb) (row : PartRow)
    → find_part k db ≡ some row
    → (length row.sku ≤ 40) × (length row.name ≤ 120)
part_columns_lem k db row h = elim (Option-cases (map_get (λ r. r.id) k db.parts)) [
  | inl gone ↦ absurd (ground arith)
  | inr (r, found) ↦
      let e : row ≡ read_part r = ground arith in
      subst (λ (x : PartRow). (length x.sku ≤ 40) × (length x.name ≤ 120)) (sym e)
        (length-take_le 40 r.sku, length-take_le 120 r.name)
]

find_part_lem :
    (k : Text) (db : TablesDb) (row : PartRow)
    → find_part k db ≡ some row
    → (row.id ≡ k) × (row.stock_available < int_limit)
find_part_lem k db row h = elim (Option-cases (map_get (λ r. r.id) k db.parts)) [
  | inl absent ↦ cc
  | inr (r, found) ↦
      let key : r.id ≡ k = map_get-key (λ r. r.id) k db.parts r found in
      let e : row ≡ read_part r = cc in
      (cc, subst (λ x. x.stock_available < int_limit) (sym e) (omega arith))
]

select_parts_lem :
    (ids : List Text) (k : Text) (db : TablesDb)
    → map_get (λ r. r.id) k (tables.select_parts ids db)
      ≡ (if contains k ids then find_part k db else none)
select_parts_lem ids k db =
    map_get-sort_by (λ r. r.id) k _
    ∙ map_get-keep_if (λ r. r.id) k ids (map read_part db.parts)
    ∙ ap (λ o. if contains k ids then o else none) (map_get-read_part k db.parts)

update_part_lem :
    (k : Text) (stock : ℕ) (now : Date) (db : TablesDb) (row : PartRow) (j : Text)
    → find_part k db ≡ some row
    → stock < int_limit
    → find_part j (record db { parts = map (write_part k stock now) db.parts }) ≡ (
        if text_eq k j
        then some (record row { stock_available = stock; updated_at = now })
        else find_part j db)
update_part_lem k stock now db row j found small =
    elim (Option-cases (map_get (λ r. r.id) k db.parts)) [
      | inl absent ↦ cc
      | inr (r, at_k) ↦
          let hit : text_eq r.id k ≡ true =
            ground (arith, text_eq_iff r.id k, map_get-key (λ r. r.id) k db.parts r at_k) in
          let e : row ≡ read_part r = cc in
          let kept : stock % int_limit ≡ stock = omega (arith, small) in
          elim (Bool-cases (text_eq k j)) [
            | inl same ↦
                let kj : k ≡ j = text_eq_sound k j same in
                rw
                  (
                    map_get-write_part k j stock now db.parts,
                    sym kj,
                    text_eq_refl k,
                    at_k,
                    hit,
                    kept,
                    e,
                  )
                  refl
            | inr other ↦ elim (Option-cases (map_get (λ r. r.id) j db.parts)) [
              | inl no_j ↦ rw (other, map_get-write_part k j stock now db.parts, no_j) refl
              | inr (q, at_j) ↦
                  let miss : text_eq q.id k ≡ false = ground (
                    arith,
                    text_eq_iff q.id k,
                    text_eq_iff k j,
                    map_get-key (λ r. r.id) j db.parts q at_j,
                  ) in
                  rw (other, map_get-write_part k j stock now db.parts, at_j, miss) refl
            ]
          ]
    ]

identify_from-ids :
    (n : ℕ) (k : Text) (news : List NewItem)
    → identify_from n k (stored_items (ids_from n k news) news)
      ≡ stored_items (ids_from n k news) news
identify_from-ids n k [] = refl
identify_from-ids n k (i ∷ is) = cc (identify_from-ids (suc n) k is)

length-ids_from :
    (n : ℕ) (k : Text) (news : List NewItem) → length (ids_from n k news) ≡ length news
length-ids_from n k [] = refl
length-ids_from n k (i ∷ is) = ap suc (length-ids_from (suc n) k is)

ids_from-later :
    (m n : ℕ) (k : Text) (news : List NewItem)
    → m < n
    → contains (m ∷ k) (ids_from n k news) ≡ false
unfolding contains text_eq
ids_from-later m n k [] h = refl
ids_from-later m n k (i ∷ is) h = ground (arith, ids_from-later m (suc n) k is)

ids_from-IsDistinct : (n : ℕ) (k : Text) (news : List NewItem) → IsDistinct (ids_from n k news)
ids_from-IsDistinct n k [] = tt
ids_from-IsDistinct n k (i ∷ is) =
    (ids_from-later n (suc n) k is (omega arith), ids_from-IsDistinct (suc n) k is)

-- An id of a line is made of its order.
id_of_line :
    (n : ℕ) (k id : Text) (items : List OperationItem) {item : OperationItem}
    → map_get (λ i. i.id) id (identify_from n k items) ≡ some item
    → (m : ℕ) × (id ≡ m ∷ k)
unfolding map_get
id_of_line n k id [] h = cc
id_of_line n k id (i ∷ is) {item} h =
    elim (Option-cases (map_get (λ i. i.id) id (identify_from (suc n) k is))) [
      | inl absent ↦ (n, ground (arith, text_eq_iff (n ∷ k) id))
      | inr (r, found) ↦ id_of_line (suc n) k id is found
    ]

identify_from-released :
    (id : Text) (before after n : ℕ) (k : Text) (items : List OperationItem)
    → identify_from n k (map (release_item id before after) (identify_from n k items))
      ≡ map (release_item id before after) (identify_from n k items)
identify_from-released id before after n k [] = refl
identify_from-released id before after n k (i ∷ is) =
    ground (arith, identify_from-released id before after (suc n) k is)

identify_from_idem :
    (n : ℕ) (k : Text) (items : List OperationItem)
    → identify_from n k (identify_from n k items) ≡ identify_from n k items
identify_from_idem n k [] = refl
identify_from_idem n k (i ∷ is) = cc (identify_from_idem (suc n) k is)

-- The operation under `k` after `put k op`, when it has the ids of its lines already.
find_operation-put :
    (k : Text) (op : Operation) (db : TablesDb) (j : Text)
    → identify_from 0 k op.items ≡ op.items
    → find_operation j (put k op db) ≡ (if text_eq k j then some op else find_operation j db)
find_operation-put k op db j same = elim (Bool-cases (text_eq k j)) [
  | inl hit ↦ let e : k ≡ j = text_eq_sound k j hit in rw (hit, sym e, same) refl
  | inr miss ↦ rw miss refl
]

-- A stored operation has the ids of its lines.
find_operation-identify :
    (k : Text) (op : Operation) (db : TablesDb)
    → find_operation k db ≡ some op
    → identify_from 0 k op.items ≡ op.items
find_operation-identify k op db found = elim (Option-cases (lookup k db.operations)) [
  | inl absent ↦ cc
  | inr (raw, at_k) ↦
      let e : op ≡ identify k raw = cc in
      subst (λ o. identify_from 0 k o.items ≡ o.items) (sym e) (identify_from_idem 0 k raw.items)
]

update_item_lem :
    (id order : Text) (before quantity : ℕ) (item : OperationItem) (op : Operation) (db : TablesDb)
    → find_operation order db ≡ some op
    → map_get (λ i. i.id) id op.items ≡ some item
    → (db' : TablesDb) × (update_item id before (before + quantity) db ≡ ok db')
      × ((j : Text)
          → find_operation j db' ≡ (
              if text_eq order j
              then some (release_items id before (before + quantity) op)
              else find_operation j db))
      × ((j : Text) → find_part j db' ≡ find_part j db)
update_item_lem id order before quantity item op db found at_id =
    let same = find_operation-identify order op db found in
    let (m, line) =
      id_of_line 0 order id op.items
        (subst (λ is. map_get (λ i. i.id) id is ≡ some item) (sym same) at_id) in
    let next = release_items id before (before + quantity) op in
    let same' : identify_from 0 order next.items ≡ next.items =
      subst
        (λ is.
          identify_from 0 order (map (release_item id before (before + quantity)) is)
          ≡ map (release_item id before (before + quantity)) is)
        same (identify_from-released id before (before + quantity) 0 order op.items) in
    (
      put order next db,
      rw (line, found) refl,
      λ j. find_operation-put order next db j same',
      λ j. refl,
    )

update_operation_lem :
    (k : Text) (now : Date) (op : Operation) (db : TablesDb)
    → find_operation k db ≡ some op
    → (db' : TablesDb) × (tables.update_operation k released now db
        ≡ ok (record op { status = released; released_at = some now }, db'))
      × ((j : Text)
          → find_operation j db' ≡ (
              if text_eq k j
              then some (record op { status = released; released_at = some now })
              else find_operation j db))
      × ((j : Text) → find_part j db' ≡ find_part j db)
update_operation_lem k now op db found =
    let next : Operation = record op { status = released; released_at = some now } in
    let same = find_operation-identify k op db found in
    (put k next db, rw found refl, λ j. find_operation-put k next db j same, λ j. refl)

pub tables_laws : StoreLaws tables
tables_laws = record {
  find_part_law = find_part_lem;
  part_columns_law = part_columns_lem;
  select_parts_get = select_parts_lem;
  update_part_law = λ k stock now db row found small.
      (_, refl, λ j. update_part_lem k stock now db row j found small, λ j. refl);
  create_operation_law = λ new db absent numbered lines distinct.
      let ids = ids_from 0 new.order_id new.items in
      (
        ids,
        _,
        refl,
        length-ids_from 0 new.order_id new.items,
        ids_from-IsDistinct 0 new.order_id new.items,
        λ j.
            find_operation-put new.order_id (stored ids new) db j
              (identify_from-ids 0 new.order_id new.items),
        λ j. refl,
      );
  update_item_law = λ id order before quantity item op db found at_id amount small.
      update_item_lem id order before quantity item op db found at_id;
  update_operation_law = update_operation_lem;
}
