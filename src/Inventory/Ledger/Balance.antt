-- ===== src/Inventory/Ledger/Balance.antt =====
-- The books balance: whatever is called on the inventory, a part has what it had at first but for
-- what the orders hold of it.
use tarea_integracion_sistem.Prelude.{
  ◌+◌, ◌<◌, ◌≤◌, ◌≡◌, sym, ◌∙◌, ap, subst, List, [], ◌∷◌, Option, none, some, arith, All,
  Option-cases, inl, inr,
}
use tarea_integracion_sistem.Prelude.Tx.{Fate, commits, Persists}
use tarea_integracion_sistem.Text.{Text}
use tarea_integracion_sistem.Js.{Date}
use tarea_integracion_sistem.Inventory.Errors.{Exception}
use tarea_integracion_sistem.Inventory.Request.{ReserveCommand}
use tarea_integracion_sistem.Inventory.Request.Parsing.{IsValidCommand}
use tarea_integracion_sistem.Inventory.Store.{
  Store, StoreLaws, PartRow, Operation, OperationItem, reserved, released, int_limit,
}
use tarea_integracion_sistem.Inventory.Stock.{reserve, release}
use tarea_integracion_sistem.Inventory.Stock.Taking.{after_taking}
use tarea_integracion_sistem.Inventory.Stock.Reserving.{Has}
use tarea_integracion_sistem.Inventory.Stock.Returning.{
  held_by, after_returning, after_returning-stock,
}
use tarea_integracion_sistem.Inventory.Stock.Release.{IsReturnable, returned, release_returns}
use tarea_integracion_sistem.Inventory.Stock.Lifecycle.{
  reserve_creates, reserve_takes, reserve_state,
}
use tarea_integracion_sistem.Inventory.Stock.Undo.{
  InTable, reservation-IsReturnable, after_taking-none, after_returning-none, le-held_by,
}
use tarea_integracion_sistem.Inventory.Ledger.{held_of, held_while, held_total, IsBalanced}
use tarea_integracion_sistem.Inventory.Ledger.Sums.{held_of-le_total}
use tarea_integracion_sistem.Inventory.Ledger.Changes.{IsChange}

module _ (store : Store) (laws : StoreLaws store) where
  open store use {Db, find_part, find_operation}

  -- A new reservation that took effect.
  pub reservation-IsChange :
      (sha256_hex : Text → Text) (now : Date) (fate : Fate Exception) (command : ReserveCommand)
      (db : Db)
      → IsValidCommand command
      → find_operation command.order_id db ≡ none
      → Has store db command.items
      → Persists fate
      → (op : Operation) × IsChange store db
          (reserve store sha256_hex now fate command db).1
          command.order_id
          op
  reservation-IsChange sha256_hex now fate command db valid fresh has p =
      let (op, db', run, w) =
        reserve_creates store laws sha256_hex now command db valid fresh has in
      let state : db' ≡ (reserve store sha256_hex now fate command db).1 = sym (
        reserve_state store laws sha256_hex now command db valid fresh has fate p
        ∙ ap (λ r. r.1) run) in
      let (sound, held) =
        reservation-IsReturnable store laws sha256_hex now command db valid fresh has op db' run
          w in
      let takes = reserve_takes store laws sha256_hex now command db valid fresh has in
      let status : op.status ≡ reserved = ap (λ (o : Operation). o.status) w.shape in
      let holds : (j : Text) → held_of (some op) j ≡ held_by j op.items =
        λ j. ap (λ s. held_while s j op.items) status in
      (
        op,
        subst (λ d. IsChange store db d command.order_id op) state
            (record {
              ledger = w.ledger;
              parts = λ j row found.
                  let (row', found', stock, _, _, _) = takes j row found in
                  (
                    row',
                    sym (ap (λ r. find_part j r.1) run) ∙ found',
                    rw (fresh) (omega (arith, holds j, held j)),
                  );
              none_new = λ j gone.
                  w.parts j
                  ∙ ap (after_taking now command.items j) gone
                  ∙ after_taking-none now command.items j;
              sound = λ _. record {
                distinct_ids = sound.distinct_ids;
                distinct_parts = sound.distinct_parts;
                in_table = rooms db' op.items sound.room;
              };
            }),
      )
    where
      rooms :
          (db' : Db) (items : List OperationItem)
          → All
              (λ i.
                (row : PartRow) × (find_part i.part_id db' ≡ some row)
                × (row.stock_available + i.quantity < int_limit))
              items
          → InTable store db' items
      rooms db' [] h = tt
      rooms db' (i ∷ is) ((row, found, _), h) = ((row, found), rooms db' is h)

  module _ (initial : Text → Option PartRow) (orders : List Text) (db : Db)
      (b : IsBalanced store initial orders db) where
    -- What a reserved operation holds fits back into the stock of its parts.
    room_in_balance :
        (items : List OperationItem)
        → InTable store db items
        → All (λ i. i.quantity ≤ held_total (λ x. find_operation x db) orders i.part_id) items
        → All
            (λ i.
              (row : PartRow) × (find_part i.part_id db ≡ some row)
              × (row.stock_available + i.quantity < int_limit))
            items
    room_in_balance [] t h = tt
    room_in_balance (i ∷ is) ((row, found), t) h = elim (Option-cases (initial i.part_id)) [
      | inl never ↦ let gone = b.none_new i.part_id never in absurd (ground arith)
      | inr (first, at_first) ↦
          let (row', found', balance, small) = b.kept i.part_id first at_first in
          ((row', found', omega arith), room_in_balance is t h.1)
    ]

    le-held_total :
        (k : Text) (op : Operation) (items : List OperationItem)
        → find_operation k db ≡ some op
        → op.status ≡ reserved
        → All (λ i. i.quantity ≤ held_by i.part_id op.items) items
        → All (λ i. i.quantity ≤ held_total (λ x. find_operation x db) orders i.part_id) items
    le-held_total k op [] found holds h = tt
    le-held_total k op (i ∷ is) found holds h =
        let part =
          held_of-le_total (λ x. find_operation x db) orders k i.part_id (b.listed k op found) in
        let own : held_of (find_operation k db) i.part_id ≡ held_by i.part_id op.items =
          ap (λ o. held_of o i.part_id) found ∙ ap (λ s. held_while s i.part_id op.items) holds in
        (omega (arith, h.0, own, part), le-held_total k op is found holds h.1)

    pub balanced-IsReturnable :
        (k : Text) (op : Operation)
        → find_operation k db ≡ some op
        → op.status ≡ reserved
        → IsReturnable store db op
    balanced-IsReturnable k op found holds =
        let s = b.sound k op found holds in
        record {
          distinct_ids = s.distinct_ids;
          distinct_parts = s.distinct_parts;
          room =
              room_in_balance op.items s.in_table
                (le-held_total k op op.items found holds (le-held_by op.items));
        }

    -- A release that took effect.
    pub release-IsChange :
        (k : Text) (now : Date) (op : Operation)
        → find_operation k db ≡ some op
        → op.status ≡ reserved
        → IsChange store db
            (release store k now commits db).1
            k
            (returned (λ j. find_part j db) now op)
    release-IsChange k now op found holds =
        let (db', run, parts, ledger) =
          release_returns store laws k now op db found holds
            (balanced-IsReturnable k op found holds) in
        subst (λ d. IsChange store db d k (returned (λ j. find_part j db) now op))
          (sym (ap (λ r. r.1) run))
          (record {
            ledger = ledger;
            parts = λ j row there.
                let (row', after, stock, _, _, _) = after_returning-stock now op.items j row in
                let own : held_of (find_operation k db) j ≡ held_by j op.items =
                  ap (λ o. held_of o j) found ∙ ap (λ s. held_while s j op.items) holds in
                (
                  row',
                  parts j ∙ ap (after_returning now op.items j) there ∙ after,
                  omega (arith, own),
                );
            none_new = λ j gone.
                parts j
                ∙ ap (after_returning now op.items j) gone
                ∙ after_returning-none now op.items j;
            sound = λ impossible. elim (not_reserved impossible) [ ];
          })
      where
        not_reserved : released ≡ reserved → ⊥
        not_reserved e = cc e
