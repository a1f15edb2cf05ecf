-- ===== src/Inventory/Stock/Release.antt =====
-- The release of a reserved operation: it gives the stock back, marks the operation and its lines,
-- and answers with what it wrote. A second release repeats the answer and writes nothing.
use tarea_integracion_sistem.Prelude.{
  ◌+◌, ◌<◌, ◌≡◌, refl, sym, subst, ◌∙◌, ap, ap₂, Bool, false, true, List, [], ◌∷◌, map, Option,
  some, arith, All, if◌then◌else◌,
}
use tarea_integracion_sistem.Prelude.Result.{ok}
use tarea_integracion_sistem.Prelude.Tx.{◌>>=◌, commits}
use tarea_integracion_sistem.Text.{Text, text_eq, contains}
use tarea_integracion_sistem.Text.Laws.{text_eq_refl}
use tarea_integracion_sistem.Js.{Date, map_get}
use tarea_integracion_sistem.Js.Laws.{map_get-absent}
use tarea_integracion_sistem.Inventory.Store.{
  Store, StoreLaws, PartRow, Operation, OperationItem, IsDistinct, int_limit, released, reserved,
}
use tarea_integracion_sistem.Inventory.Stock.{
  part_of, return_stock, StockMutation, StockOperationResult, release_mutations, to_release_result,
  release_reserved, release,
}
use tarea_integracion_sistem.Inventory.Stock.Returning.{
  item_parts, item_ids, stock_of_row, noted, noted_item, noted-all, HasRoom, after_returning,
  return_stock_lem,
}

abbrev Finds : List OperationItem → List OperationItem → Type 0
Finds xs =
    All (λ i.
      (x : OperationItem) × (map_get (λ y. y.id) i.id xs ≡ some x) × (x.quantity ≡ i.quantity))

Finds-cons : (x : OperationItem) (xs is : List OperationItem) → Finds xs is → Finds (x ∷ xs) is
unfolding map_get
Finds-cons x xs [] h = tt
Finds-cons x xs (i ∷ is) ((y, found, same), h) = ((y, rw found, same), Finds-cons x xs is h)

Finds-own : (xs : List OperationItem) → IsDistinct (item_ids xs) → Finds xs xs
unfolding map_get
Finds-own [] d = tt
Finds-own (x ∷ xs) d = (
  (x, rw (map_get-absent (λ y. y.id) x.id xs d.0, text_eq_refl), refl),
  Finds-cons x xs xs (Finds-own xs d.1),
)

-- The answer's line for a line of the operation, from the stock that its part had.
abbrev pub returned_mutation : (Text → Option PartRow) → OperationItem → StockMutation
returned_mutation find i = record {
  part_id = i.part_id;
  part_sku = i.part_sku;
  part_name = i.part_name;
  quantity = i.quantity;
  stock_before = stock_of_row (find i.part_id);
  stock_after = stock_of_row (find i.part_id) + i.quantity;
}

-- A line that notes the stock of its part before and after.
abbrev pub returned_item : (Text → Option PartRow) → OperationItem → OperationItem
returned_item find i = record i {
  released_stock_before = some (stock_of_row (find i.part_id));
  released_stock_after = some (stock_of_row (find i.part_id) + i.quantity);
}

-- The operation after its release.
abbrev pub returned : (Text → Option PartRow) → Date → Operation → Operation
returned find now op = record op {
  status = released;
  released_at = some now;
  items = map (returned_item find) op.items;
}

abbrev pub returned_result :
    (Text → Option PartRow) → Date → Operation → Bool → StockOperationResult
returned_result find now op replayed = record {
  order_id = op.order_id;
  items = map (returned_mutation find) op.items;
  processed_at = now;
  replayed = replayed;
}

release_mutations-returned :
    (find : Text → Option PartRow) (items : List OperationItem)
    → release_mutations (map (returned_item find) items) ≡ ok (map (returned_mutation find) items)
unfolding release_mutations
release_mutations-returned find [] = refl
release_mutations-returned find (i ∷ is) = rw (release_mutations-returned find is)

pub to_release_result-returned :
    (find : Text → Option PartRow) (now : Date) (op : Operation) (replayed : Bool)
    → to_release_result (returned find now op) replayed ≡ ok (returned_result find now op replayed)
unfolding to_release_result
to_release_result-returned find now op replayed = rw (release_mutations-returned find op.items)

module _ (store : Store) where
  open store use {Db, find_part, find_operation}

  -- An operation whose parts are in the table, with room for what it holds: what the keys and
  -- checks of the tables say of a reserved operation, and the range of the column.
  pub record IsReturnable (db : Db) (op : Operation) : Type 0 where
    pub distinct_ids : IsDistinct (item_ids op.items)
    pub distinct_parts : IsDistinct (item_parts op.items)
    pub room :
        All
          (λ i.
            (row : PartRow) × (find_part i.part_id db ≡ some row)
            × (row.stock_available + i.quantity < int_limit))
          op.items

among_cons :
    (k : Text) (ks : List Text) (items : List OperationItem)
    → All (λ i. contains i.part_id ks ≡ true) items
    → All (λ i. contains i.part_id (k ∷ ks) ≡ true) items
unfolding contains
among_cons k ks [] h = tt
among_cons k ks (i ∷ is) h = (ground arith, among_cons k ks is h.1)

among : (items : List OperationItem) → All (λ i. contains i.part_id (item_parts items) ≡ true) items
unfolding contains
among [] = tt
among (i ∷ is) = (rw text_eq_refl, among_cons i.part_id (item_parts is) is (among is))

module _ (store : Store) (laws : StoreLaws store) where
  open store use {Db, find_part, find_operation, select_parts}

  select_parts-HasRoom :
      (ids : List Text) (items : List OperationItem) (db : Db)
      → All (λ i. contains i.part_id ids ≡ true) items
      → All
          (λ i.
            (row : PartRow) × (find_part i.part_id db ≡ some row)
            × (row.stock_available + i.quantity < int_limit))
          items
      → HasRoom store (select_parts ids db) db items
        × (map (noted_item (select_parts ids db)) items
            ≡ map (returned_item (λ k. find_part k db)) items)
  select_parts-HasRoom ids [] db a h = (tt, refl)
  select_parts-HasRoom ids (i ∷ is) db a ((row, found, room), h) =
      let got : part_of (select_parts ids db) i.part_id ≡ find_part i.part_id db =
        laws.select_parts_get ids i.part_id db ∙ rw (a.0) in
      let (rooms, same) = select_parts-HasRoom ids is db a.1 h in
      (
        ((row, got ∙ found, found, room), rooms),
        ap₂
            (λ r (rest : List OperationItem).
              record i {
                released_stock_before = some (stock_of_row r);
                released_stock_after = some (stock_of_row r + i.quantity);
              }
              ∷ rest)
            got same,
      )

  release_reserved-run :
      (order : Text) (now : Date) (op done : Operation) (db db₁ db₂ : Db) {r : StockOperationResult}
      → return_stock store (select_parts (item_parts op.items) db) now op.items db ≡ ok (tt, db₁)
      → store.update_operation order released now db₁ ≡ ok (done, db₂)
      → to_release_result done false ≡ ok r
      → release_reserved store order now op db ≡ ok (r, db₂)
  unfolding release_reserved ◌>>=◌
  release_reserved-run order now op done db db₁ db₂ looped marked answered =
      rw (looped, marked, answered)

  -- Releasing a reserved operation adds to each part what the operation holds of it, marks the
  -- operation released at the given time, and answers with the stock before and after each line.
  pub release_reserved-returns :
      (order : Text) (now : Date) (op : Operation) (db : Db)
      → find_operation order db ≡ some op
      → IsReturnable store db op
      → let find = λ (k : Text). find_part k db in
        (db' : Db) × (release_reserved store order now op db
          ≡ ok (returned_result find now op false, db'))
        × ((j : Text) → find_part j db' ≡ after_returning now op.items j (find_part j db))
        × ((j : Text)
            → find_operation j db'
              ≡ (if text_eq order j then some (returned find now op) else find_operation j db))
  release_reserved-returns order now op db found ok_op =
      let find : Text → Option PartRow = λ k. find_part k db in
      let (rooms, same) =
        select_parts-HasRoom (item_parts op.items) op.items db (among op.items) ok_op.room in
      let locked : List PartRow = select_parts (item_parts op.items) db in
      let (db₁, looped, parts₁, operations₁) =
        return_stock_lem store laws locked now op.items order op db ok_op.distinct_parts rooms
          (Finds-own op.items ok_op.distinct_ids) found in
      let op₁ : Operation = record op { items = map (returned_item find) op.items } in
      let noted_op : noted locked op.items op ≡ op₁ =
        noted-all locked op ok_op.distinct_ids ∙ ap (λ is. record op { items = is }) same in
      let here : find_operation order db₁ ≡ some (noted locked op.items op) =
        operations₁ order ∙ rw (text_eq_refl order) in
      let (db₂, marked, operations₂, parts₂) =
        laws.update_operation_law order now op₁ db₁ (here ∙ ap some noted_op) in
      (
        db₂,
        release_reserved-run order now op (returned find now op) db db₁ db₂ looped marked
            (to_release_result-returned find now op false),
        λ j. parts₂ j ∙ parts₁ j,
        λ j. operations₂ j ∙ ground (arith, operations₁ j),
      )

  -- The release of a reserved operation with distinct lines, whose parts are in the table and have
  -- room below 2^31 for what it holds, in a transaction that commits: each part has what it had and
  -- what the operation holds of it, the operation is released at the given time with the stock before
  -- and after on each line, the other operations are as before, and the answer says the same.
  pub release_returns :
      (order : Text) (now : Date) (op : Operation) (db : Db)
      → find_operation order db ≡ some op
      → op.status ≡ reserved
      → IsReturnable store db op
      → let find = λ (k : Text). find_part k db in
        (db' : Db) × (release store order now commits db
          ≡ (ok (returned_result find now op false), db'))
        × ((j : Text) → find_part j db' ≡ after_returning now op.items j (find_part j db))
        × ((j : Text)
            → find_operation j db'
              ≡ (if text_eq order j then some (returned find now op) else find_operation j db))
  release_returns order now op db found status ok_op =
      let (db', run, parts, operations) = release_reserved-returns order now op db found ok_op in
      (db', unfold release ◌>>=◌ in rw (found, status, run), parts, operations)

  replays_returned :
      (find : Text → Option PartRow) (order : Text) (now later : Date) (op : Operation) (db : Db)
      → find_operation order db ≡ some (returned find now op)
      → release store order later commits db ≡ (ok (returned_result find now op true), db)
  unfolding release ◌>>=◌
  replays_returned find order now later op db found =
      rw (found, to_release_result-returned find now op true)

  -- The release of a reserved operation with distinct lines, whose parts are in the table and have
  -- room below 2^31 for what it holds, in a transaction that commits, and then a second release of the
  -- order at any later time that commits: the second answers as the first did, line by line and with
  -- the time of the first, but for the mark of a replay, and writes nothing.
  pub release_replays :
      (order : Text) (now later : Date) (op : Operation) (db : Db)
      → find_operation order db ≡ some op
      → op.status ≡ reserved
      → IsReturnable store db op
      → let (first, db') = release store order now commits db in
        (r : StockOperationResult) × (first ≡ ok r)
        × (r.replayed ≡ false)
        × (release store order later commits db' ≡ (ok (record r { replayed = true }), db'))
  release_replays order now later op db found status ok_op =
      let find : Text → Option PartRow = λ k. find_part k db in
      let (db', run, parts, operations) = release_returns order now op db found status ok_op in
      subst
        (λ p.
          (r : StockOperationResult) × (p.0 ≡ ok r)
          × (r.replayed ≡ false)
          × (release store order later commits p.1 ≡ (ok (record r { replayed = true }), p.1)))
        (sym run)
        (
          returned_result find now op false,
          refl,
          refl,
          replays_returned find order now later op db'
              (operations order ∙ rw (text_eq_refl order) refl),
        )
