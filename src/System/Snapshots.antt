-- ===== src/System/Snapshots.antt =====
-- The lines of a reservation, as they come back to the sales service, match what it asked for.
use tarea_integracion_sistem.Prelude.{
  ◌≤◌, sym, subst, ℕ, suc, ◌≡◌, refl, ap, ◌∙◌, true, false, List, [], ◌∷◌, map, some, arith, length,
  All,
}
use tarea_integracion_sistem.Prelude.Result.{ok}
use tarea_integracion_sistem.Text.{Text, text_eq, contains, to_lower_case}
use tarea_integracion_sistem.Text.Laws.{text_eq_refl, text_eq_comm}
use tarea_integracion_sistem.Js.{map_get}
use tarea_integracion_sistem.Js.Laws.{map_get-here, map_get-others}
use tarea_integracion_sistem.Inventory.Request.{ReserveItem, ReserveCommand}
use tarea_integracion_sistem.Inventory.Request.Parsing.{IsValidItem}
use tarea_integracion_sistem.Inventory.Store.{Store, StoreLaws, NewItem, IsDistinct, stored_items}
use tarea_integracion_sistem.Inventory.Stock.{reserve_mutation}
use tarea_integracion_sistem.Inventory.Stock.Reserving.{Records}
use tarea_integracion_sistem.Inventory.Messages.{ProtoTimestamp}
use tarea_integracion_sistem.Inventory.Handlers.{mutation_items}
use tarea_integracion_sistem.Sales.Gateway.{
  InventoryGateway, ReserveStockItem, ReservedStockItem, reserved_items,
}
use tarea_integracion_sistem.Sales.Orders.Service.{
  assert_reservation_matches, all_match, snapshot_row, Environment,
}
use tarea_integracion_sistem.Sales.Orders.Tables.{Tables, AreStorable}
use tarea_integracion_sistem.System.{mutation_received}

-- The sales service's items as the inventory's.
abbrev pub requested : ReserveStockItem → ReserveItem
requested item = record { part_id = item.part_id; quantity = item.quantity }

abbrev pub command_of : Text → List ReserveStockItem → ReserveCommand
command_of order_id items = record { order_id = order_id; items = map requested items }

abbrev pub snapshot_of : NewItem → ReservedStockItem
snapshot_of line = record {
  part_id = line.part_id;
  sku = line.part_sku;
  name = line.part_name;
  quantity = line.quantity;
}

-- The answer's items, from the handler through the mapper of the gateway.
pub reserved_items-answer :
    (at : ProtoTimestamp) (ids : List Text) (news : List NewItem)
    → length ids ≡ length news
    → reserved_items
        (map mutation_received (mutation_items at (map reserve_mutation (stored_items ids news))))
      ≡ ok (map snapshot_of news)
reserved_items-answer at [] [] h = refl
reserved_items-answer at [] (n ∷ ns) h = absurd (omega arith)
reserved_items-answer at (id ∷ ids) [] h = absurd (omega arith)
reserved_items-answer at (id ∷ ids) (n ∷ ns) h =
    rw (reserved_items-answer at ids ns (omega arith)) refl

-- A line that fits the columns of an order's item.
abbrev pub IsFitting : ReservedStockItem → Type 0
IsFitting s = (1 ≤ s.quantity) × (s.quantity ≤ 999) × (length s.sku ≤ 40) × (length s.name ≤ 120)

-- Line by line the part and the quantity that were asked for, the part in lower case.
abbrev pub Answers : List ReserveStockItem → List ReservedStockItem → Type 0
Answers [] [] = Unit
Answers (i ∷ is) (s ∷ ss) =
    ((to_lower_case s.part_id ≡ i.part_id) × (s.quantity ≡ i.quantity) × IsFitting s)
    × Answers is ss
Answers _ _ = ⊥

abbrev pub wanted : List ReserveStockItem → List Text
wanted = map (λ i. i.part_id)

length-Answers :
    (items : List ReserveStockItem) (snapshots : List ReservedStockItem)
    → Answers items snapshots
    → length items ≡ length snapshots
length-Answers [] [] h = refl
length-Answers (i ∷ is) (s ∷ ss) h = ap suc (length-Answers is ss h.1)
length-Answers [] (s ∷ ss) h = elim h [ ]
length-Answers (i ∷ is) [] h = elim h [ ]

abbrev pub folded_part : ReservedStockItem → Text
folded_part snapshot = to_lower_case snapshot.part_id

pub keys-Answers :
    (items : List ReserveStockItem) (snapshots : List ReservedStockItem)
    → Answers items snapshots
    → map folded_part snapshots ≡ wanted items
keys-Answers [] [] h = refl
keys-Answers (i ∷ is) (s ∷ ss) h = cc (h.0.0, keys-Answers is ss h.1)
keys-Answers [] (s ∷ ss) h = elim h [ ]
keys-Answers (i ∷ is) [] h = elim h [ ]

all_match-cons :
    (s : ReservedStockItem) (snapshots : List ReservedStockItem) (items : List ReserveStockItem)
    → contains (folded_part s) (wanted items) ≡ false
    → all_match snapshots items ≡ true
    → all_match (s ∷ snapshots) items ≡ true
unfolding contains
all_match-cons s snapshots [] new h = refl
all_match-cons s snapshots (i ∷ is) new h =
    let other : text_eq (folded_part s) i.part_id ≡ false =
      ground (arith, text_eq_comm i.part_id (folded_part s)) in
    let rest : all_match (s ∷ snapshots) is ≡ true =
      all_match-cons s snapshots is (ground arith) (ground arith) in
    rw (map_get-others folded_part i.part_id s snapshots other, rest) (ground arith)

all_match-Answers :
    (items : List ReserveStockItem) (snapshots : List ReservedStockItem)
    → IsDistinct (wanted items)
    → Answers items snapshots
    → all_match snapshots items ≡ true
all_match-Answers [] [] d h = refl
all_match-Answers [] (s ∷ ss) d h = elim h [ ]
all_match-Answers (i ∷ is) [] d h = elim h [ ]
all_match-Answers (i ∷ is) (s ∷ ss) d ((part, quantity, fit), h) =
    let here : map_get folded_part i.part_id (s ∷ ss) ≡ some s =
      map_get-here folded_part i.part_id s ss (rw part (text_eq_refl i.part_id))
        (rw (keys-Answers is ss h) (d.0)) in
    let rest = all_match-cons s ss is (rw part (d.0)) (all_match-Answers is ss d.1 h) in
    rw (here, quantity, rest) (ground arith)

pub assert-Answers :
    (items : List ReserveStockItem) (snapshots : List ReservedStockItem)
    → IsDistinct (wanted items)
    → Answers items snapshots
    → assert_reservation_matches items snapshots ≡ ok tt
unfolding assert_reservation_matches
assert-Answers items snapshots d h =
    rw (length-Answers items snapshots h, all_match-Answers items snapshots d h) (ground arith)

module _ (tables : Tables) {Remote : Type 0} (gateway : InventoryGateway Remote)
    (env : Environment) where
  pub Answers-AreStorable :
      (items : List ReserveStockItem) (snapshots : List ReservedStockItem)
      → Answers items snapshots
      → AreStorable (map (snapshot_row tables gateway env) snapshots)
  Answers-AreStorable [] [] h = tt
  Answers-AreStorable [] (s ∷ ss) h = elim h [ ]
  Answers-AreStorable (i ∷ is) [] h = elim h [ ]
  Answers-AreStorable (i ∷ is) (s ∷ ss) ((part, quantity, fit), h) =
      (fit, Answers-AreStorable is ss h)

module _ (store : Store) (laws : StoreLaws store) where
  -- The lines of the ledger answer the items of the request.
  pub Records-Answers :
      (db : store.Db) (index : ℕ) (items : List ReserveStockItem) (news : List NewItem)
      → All IsValidItem (map requested items)
      → Records store db index (map requested items) news
      → Answers items (map snapshot_of news)
  Records-Answers db index [] [] v r = tt
  Records-Answers db index [] (n ∷ ns) v r = elim r [ ]
  Records-Answers db index (i ∷ is) [] v r = elim r [ ]
  Records-Answers db index (i ∷ is) (n ∷ ns) ((folded, some_pieces, few_pieces), v)
        ((row, found, _, e), r) =
      let same : n.part_id ≡ i.part_id =
        ap (λ (m : NewItem). m.part_id) e ∙ (laws.find_part_law i.part_id db row found).0 in
      (
        (
          ap to_lower_case same ∙ folded.1,
          ap (λ (m : NewItem). m.quantity) e,
          subst (λ (m : NewItem). IsFitting (snapshot_of m)) (sym e)
              (
                some_pieces,
                few_pieces,
                (laws.part_columns_law i.part_id db row found).0,
                (laws.part_columns_law i.part_id db row found).1,
              ),
        ),
        Records-Answers db (suc index) is ns v r,
      )
