-- ===== src/Inventory/Stock/Reserving.antt =====
-- The checks of a new reservation and the ledger that it writes, for items that the table covers.
use tarea_integracion_sistem.Prelude.{
  ℕ, suc, ◌-◌, ◌≤◌, ◌≡◌, refl, ◌∙◌, false, true, List, [], ◌∷◌, some, arith, All,
}
use tarea_integracion_sistem.Prelude.Result.{ok}
use tarea_integracion_sistem.Text.{Text, contains}
use tarea_integracion_sistem.Text.Laws.{text_eq_refl, text_eq_comm}
use tarea_integracion_sistem.Inventory.Request.{ReserveItem}
use tarea_integracion_sistem.Inventory.Request.Parsing.{part_ids, IsFresh}
use tarea_integracion_sistem.Inventory.Store.{Store, StoreLaws, PartRow, NewItem, IsDistinct}
use tarea_integracion_sistem.Inventory.Stock.{missing_parts, find_shortages, new_item, new_items}
use tarea_integracion_sistem.Inventory.Stock.Taking.{Covers, part_or_throw-some, stock_less-covered}

split_unseen :
    (k : Text) (seen ks : List Text)
    → All (λ j. contains j (k ∷ seen) ≡ false) ks
    → (contains k ks ≡ false) × All (λ j. contains j seen ≡ false) ks
unfolding contains
split_unseen k seen [] h = (refl, tt)
split_unseen k seen (j ∷ js) h =
    let (absent, unseen) = split_unseen k seen js h.1 in
    (ground (arith, text_eq_comm k j), (ground arith, unseen))

IsFresh-IsDistinct_aux :
    (seen ks : List Text) → IsFresh seen ks → IsDistinct ks × All (λ k. contains k seen ≡ false) ks
IsFresh-IsDistinct_aux seen [] h = (tt, tt)
IsFresh-IsDistinct_aux seen (k ∷ ks) h =
    let (distinct, unseen) = IsFresh-IsDistinct_aux (k ∷ seen) ks h.1 in
    let (absent, old) = split_unseen k seen ks unseen in ((absent, distinct), (h.0, old))

-- The keys that the validation let through are distinct.
pub IsFresh-IsDistinct : (ks : List Text) → IsFresh [] ks → IsDistinct ks
IsFresh-IsDistinct ks h = (IsFresh-IsDistinct_aux [] ks h).0

abbrev pub AreAmong : List Text → List ReserveItem → Type 0
AreAmong ks = All (λ i. contains i.part_id ks ≡ true)

AreAmong-cons :
    (k : Text) (ks : List Text) (items : List ReserveItem)
    → AreAmong ks items
    → AreAmong (k ∷ ks) items
unfolding contains
AreAmong-cons k ks [] h = tt
AreAmong-cons k ks (i ∷ is) h = (ground arith, AreAmong-cons k ks is h.1)

pub AreAmong-part_ids : (items : List ReserveItem) → AreAmong (part_ids items) items
unfolding contains
AreAmong-part_ids [] = tt
AreAmong-part_ids (i ∷ is) =
    (rw text_eq_refl, AreAmong-cons i.part_id (part_ids is) is (AreAmong-part_ids is))

module _ (store : Store) where
  open store use {Db, find_part}

  -- The table has a row for each item, with enough stock.
  abbrev pub Has : Db → List ReserveItem → Type 0
  Has db = All (λ i.
      (row : PartRow) × (find_part i.part_id db ≡ some row) × (i.quantity ≤ row.stock_available))

  -- The lines of the ledger say what each part had and has.
  abbrev pub Records : Db → ℕ → List ReserveItem → List NewItem → Type 0
  Records db index [] [] = Unit
  Records db index (i ∷ is) (n ∷ ns) =
      ((row : PartRow) × (find_part i.part_id db ≡ some row)
        × (i.quantity ≤ row.stock_available)
        × (n ≡ new_item index i row (row.stock_available - i.quantity)))
      × Records db (suc index) is ns
  Records db index _ _ = ⊥

module _ (store : Store) (laws : StoreLaws store) where
  open store use {Db, find_part, find_operation, select_parts}

  select_parts-Covers_aux :
      (ids : List Text) (items : List ReserveItem) (db : Db)
      → AreAmong ids items
      → Has store db items
      → Covers store (select_parts ids db) db items
  select_parts-Covers_aux ids [] db a h = tt
  select_parts-Covers_aux ids (i ∷ is) db a ((row, found, enough), h) = (
    (row, laws.select_parts_get ids i.part_id db ∙ rw (a.0) found, found, enough),
    select_parts-Covers_aux ids is db a.1 h,
  )

  -- The rows that are locked cover the items that the table covers.
  pub select_parts-Covers :
      (items : List ReserveItem) (db : Db)
      → Has store db items
      → Covers store (select_parts (part_ids items) db) db items
  select_parts-Covers items db =
      select_parts-Covers_aux (part_ids items) items db (AreAmong-part_ids items)

  module _ (locked : List PartRow) (db : Db) where
    pub missing_parts-covered :
        (items : List ReserveItem) → Covers store locked db items → missing_parts locked items ≡ []
    unfolding missing_parts
    missing_parts-covered [] h = refl
    missing_parts-covered (i ∷ is) ((row, in_lock, _, _), h) =
        ground (arith, missing_parts-covered is h)

    pub find_shortages-covered :
        (items : List ReserveItem)
        → Covers store locked db items
        → find_shortages locked items ≡ ok []
    unfolding find_shortages
    find_shortages-covered [] h = refl
    find_shortages-covered (i ∷ is) ((row, in_lock, _, enough), h) =
        rw (part_or_throw-some locked i.part_id in_lock, find_shortages-covered is h) (ground arith)

    pub new_items-Records :
        (index : ℕ) (items : List ReserveItem)
        → Covers store locked db items
        → (news : List NewItem) × (new_items locked index items ≡ ok news)
          × Records store db index items news
    unfolding new_items
    new_items-Records index [] h = ([], refl, tt)
    new_items-Records index (i ∷ is) ((row, in_lock, in_table, enough), h) =
        let (rest, made, records) = new_items-Records (suc index) is h in
        (
          new_item index i row (row.stock_available - i.quantity) ∷ rest,
          rw (part_or_throw-some locked i.part_id in_lock, stock_less-covered row i enough, made),
          ((row, in_table, enough, refl), records),
        )
