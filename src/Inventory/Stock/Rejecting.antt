-- ===== src/Inventory/Stock/Rejecting.antt =====
-- The reservations that the inventory refuses, and that a refusal changes nothing.
use tarea_integracion_sistem.Prelude.{
  ◌≡◌, refl, ◌∙◌, List, [], ◌∷◌, Option, none, some, All, arith, ltb, Bool-cases, Option-cases, inl,
  inr, if◌then◌else◌,
}
use tarea_integracion_sistem.Prelude.Result.{ok, err}
use tarea_integracion_sistem.Prelude.Tx.{◌>>=◌, Fate, transaction-err}
use tarea_integracion_sistem.Text.{Text, text_eq}
use tarea_integracion_sistem.Js.{Date}
use tarea_integracion_sistem.Inventory.Errors.{
  Exception, inventory, StockShortage, parts_not_found, insufficient_stock, order_id_conflict,
  reservation_already_released,
}
use mathlib.Core.List.{Perm}
use tarea_integracion_sistem.Prelude.{◌⊎◌, sym, ◌∙◌}
use tarea_integracion_sistem.Text.{IsDistinct}
use tarea_integracion_sistem.Text.Laws.{text_eq_sound, text_eq_iff}
use tarea_integracion_sistem.Inventory.Request.Parsing.{IsValidItem, part_ids}
use tarea_integracion_sistem.Inventory.Request.Fingerprint.{
  canonical_injective, request_fingerprint-Perm,
}
use tarea_integracion_sistem.Inventory.Request.{
  canonical, ReserveItem, ReserveCommand, request_fingerprint,
}
use tarea_integracion_sistem.Inventory.Request.Parsing.{part_ids}
use tarea_integracion_sistem.Inventory.Store.{Store, StoreLaws, PartRow, Operation, released}
use tarea_integracion_sistem.Inventory.Stock.Reserving.{AreAmong, AreAmong-part_ids}
use tarea_integracion_sistem.Inventory.Stock.{
  part_of, part_or_throw, missing_parts, find_shortages, reserve_existing, reserve_new,
  reserve_body, reserve,
}

abbrev pub absent_part : Option PartRow → Text → List Text → List Text
absent_part none id rest = id ∷ rest
absent_part (some row) id rest = rest

-- The parts of the items that the table does not have.
abbrev pub absent : (Text → Option PartRow) → List ReserveItem → List Text
absent find [] = []
absent find (i ∷ is) = absent_part (find i.part_id) i.part_id (absent find is)

abbrev pub short_part : Option PartRow → ReserveItem → List StockShortage → List StockShortage
short_part none i rest = rest
short_part (some row) i rest =
    if ltb row.stock_available i.quantity
    then record { part_id = i.part_id; requested = i.quantity; available = row.stock_available }
      ∷ rest
    else rest

-- The items that ask for more than their part has.
abbrev pub short : (Text → Option PartRow) → List ReserveItem → List StockShortage
short find [] = []
short find (i ∷ is) = short_part (find i.part_id) i (short find is)

-- The rows say of each item what the table says.
abbrev Agrees : (Text → Option PartRow) → List PartRow → List ReserveItem → Type 0
Agrees find locked items = All (λ i. part_of locked i.part_id ≡ find i.part_id) items

missing_parts-absent :
    (find : Text → Option PartRow) (locked : List PartRow) (items : List ReserveItem)
    → Agrees find locked items
    → missing_parts locked items ≡ absent find items
unfolding missing_parts
missing_parts-absent find locked [] h = refl
missing_parts-absent find locked (i ∷ is) (same, h) =
    ground (arith, missing_parts-absent find locked is h)

find_shortages-short :
    (find : Text → Option PartRow) (locked : List PartRow) (items : List ReserveItem)
    → Agrees find locked items
    → absent find items ≡ []
    → find_shortages locked items ≡ ok (short find items)
unfolding find_shortages part_or_throw
find_shortages-short find locked [] h none_absent = refl
find_shortages-short find locked (i ∷ is) (same, h) none_absent =
    elim (Option-cases (find i.part_id)) [
      | inl gone ↦ ground arith
      | inr (row, there) ↦
          let rest : absent find is ≡ [] = ground arith in
          let later = find_shortages-short find locked is h rest in
          elim (Bool-cases (ltb row.stock_available i.quantity)) [
            | inl less ↦ rw (same, there, later, less) refl
            | inr enough ↦ rw (same, there, later, enough) refl
          ]
    ]

module _ (store : Store) (laws : StoreLaws store) where
  open store use {Db, find_part, find_operation, select_parts}

  locked-Agrees :
      (ids : List Text) (items : List ReserveItem) (db : Db)
      → AreAmong ids items
      → Agrees (λ k. find_part k db) (select_parts ids db) items
  locked-Agrees ids [] db a = tt
  locked-Agrees ids (i ∷ is) db (a, rest) =
      (laws.select_parts_get ids i.part_id db ∙ rw a refl, locked-Agrees ids is db rest)

  module _ (sha256_hex : Text → Text) (now : Date) (fate : Fate Exception)
      (command : ReserveCommand) (db : Db) where
    agrees : Agrees (λ k. find_part k db) (select_parts (part_ids command.items) db) command.items
    agrees =
        locked-Agrees (part_ids command.items) command.items db (AreAmong-part_ids command.items)

    -- A reservation of a new order with parts that the table does not have is refused with all of
    -- them, in the order of the request, and changes nothing.
    pub reserve_rejects_absent :
        (k : Text) (ks : List Text)
        → find_operation command.order_id db ≡ none
        → absent (λ k. find_part k db) command.items ≡ k ∷ ks
        → reserve store sha256_hex now fate command db
          ≡ (err (inventory (parts_not_found (k ∷ ks))), db)
    unfolding reserve reserve_body reserve_new ◌>>=◌
    reserve_rejects_absent k ks fresh gone =
        transaction-err fate (reserve_body store sha256_hex now command) db
          (rw (fresh, missing_parts-absent _ _ command.items agrees, gone) refl)

    -- A reservation of a new order whose parts are all in the table, and of which some have less
    -- than is asked of them, is refused with each of these, what is asked of it and what it has, in the
    -- order of the request, and changes nothing.
    pub reserve_rejects_short :
        (s : StockShortage) (ss : List StockShortage)
        → find_operation command.order_id db ≡ none
        → absent (λ k. find_part k db) command.items ≡ []
        → short (λ k. find_part k db) command.items ≡ s ∷ ss
        → reserve store sha256_hex now fate command db
          ≡ (err (inventory (insufficient_stock (s ∷ ss))), db)
    unfolding reserve reserve_body reserve_new ◌>>=◌
    reserve_rejects_short s ss fresh there less =
        transaction-err fate (reserve_body store sha256_hex now command) db (
          rw
            (
              fresh,
              missing_parts-absent _ _ command.items agrees,
              there,
              find_shortages-short _ _ command.items agrees there,
              less,
            )
            refl)

    -- An order whose operation is released, with the fingerprint of some items, is not reserved
    -- again, whatever the end of the transaction: a command with these items in any order is refused
    -- as released, a command with any other items as a conflict, and nothing changes. The items of
    -- both are valid, no part twice among the first, and the digest does not collide on their two
    -- texts.
    pub released_is_terminal :
        (op : Operation) (items : List ReserveItem)
        → find_operation command.order_id db ≡ some op
        → op.status ≡ released
        → op.request_hash ≡ request_fingerprint sha256_hex items
        → All IsValidItem items
        → All IsValidItem command.items
        → IsDistinct (part_ids items)
        → (sha256_hex (canonical items) ≡ sha256_hex (canonical command.items)
            → canonical items ≡ canonical command.items)
        → Perm items command.items
            × (reserve store sha256_hex now fate command db
                ≡ (err (inventory (reservation_already_released command.order_id)), db))
          ⊎ ¬ Perm items command.items
            × (reserve store sha256_hex now fate command db
                ≡ (err (inventory (order_id_conflict command.order_id)), db))
    unfolding reserve reserve_body reserve_existing request_fingerprint ◌>>=◌
    released_is_terminal op items found status hash valid valid' distinct apart =
        elim (Bool-cases (text_eq op.request_hash (request_fingerprint sha256_hex command.items))) [
          | inl same ↦ inl (
            canonical_injective items command.items valid valid'
                (apart (sym hash ∙ text_eq_sound op.request_hash _ same)),
            transaction-err fate (reserve_body store sha256_hex now command) db
                (rw (found, same, status) refl),
          )
          | inr differs ↦ inr (
            λ p.
                let same = hash ∙ request_fingerprint-Perm sha256_hex p distinct in
                let e =
                  (text_eq_iff op.request_hash (request_fingerprint sha256_hex command.items)).1
                    same in
                cc (e, differs),
            transaction-err fate (reserve_body store sha256_hex now command) db
                (rw (found, differs) refl),
          )
        ]
