-- ===== src/Inventory/Stock/Reserve.antt =====
-- A new reservation that the table covers succeeds: it takes the stock, and writes the ledger.
use tarea_integracion_sistem.Prelude.{
  ℕ, suc, ◌+◌, ◌≤◌, ◌≡◌, refl, sym, ◌∙◌, subst, ap, false, List, [], ◌∷◌, map, none, some, arith,
  length, All, Bool-cases, inl, inr, if◌then◌else◌,
}
use tarea_integracion_sistem.Prelude.Result.{ok}
use tarea_integracion_sistem.Prelude.Tx.{◌>>=◌}
use tarea_integracion_sistem.Text.{Text, text_eq}
use tarea_integracion_sistem.Js.{Date}
use tarea_integracion_sistem.Inventory.Request.{ReserveItem, ReserveCommand, request_fingerprint}
use tarea_integracion_sistem.Inventory.Request.Parsing.{part_ids, IsValidItem, IsValidCommand}
use tarea_integracion_sistem.Inventory.Store.{
  Store, StoreLaws, PartRow, Operation, NewItem, NewOperation, IsDistinct, IsNumbered, IsLine,
  stored, reserved,
}
use tarea_integracion_sistem.Inventory.Stock.{
  missing_parts, find_shortages, new_items, to_reserve_result, reserve_new, take_stock,
}
use tarea_integracion_sistem.Inventory.Stock.Taking.{after_taking, take_from, take_stock_lem}
use tarea_integracion_sistem.Inventory.Stock.Reserving.{
  IsFresh-IsDistinct, Has, select_parts-Covers, missing_parts-covered, find_shortages-covered,
  Records, new_items-Records,
}

after_taking-some :
    (now : Date) (items : List ReserveItem) (j : Text) (row : PartRow)
    → (row' : PartRow) × (after_taking now items j (some row) ≡ some row')
after_taking-some now [] j row = (row, refl)
after_taking-some now (i ∷ is) j row = elim (Bool-cases (text_eq i.part_id j)) [
  | inl e ↦ rw e (after_taking-some now is j (take_from now i row))
  | inr e ↦ rw e (after_taking-some now is j row)
]

abbrev pub reservation : (Text → Text) → Date → ReserveCommand → List NewItem → NewOperation
reservation sha256_hex now command news = record {
  order_id = command.order_id;
  request_hash = request_fingerprint sha256_hex command.items;
  status = reserved;
  reserved_at = now;
  items = news;
}

module _ (store : Store) where
  open store use {Db, find_part, find_operation}

  -- What a new reservation leaves: an operation of the order with one line for each item, which
  -- says what its part had and has, and the parts with their stock taken.
  pub record IsReservation (sha256_hex : Text → Text) (now : Date) (command : ReserveCommand)
      (db db' : Db) (op : Operation) : Type 0 where
    pub ids : List Text
    pub news : List NewItem
    pub shape : op ≡ stored ids (reservation sha256_hex now command news)
    pub same_length : length ids ≡ length news
    pub distinct_ids : IsDistinct ids
    pub lines : Records store db 0 command.items news
    pub ledger :
        (j : Text)
        → find_operation j db'
          ≡ (if text_eq command.order_id j then some op else find_operation j db)
    pub parts : (j : Text) → find_part j db' ≡ after_taking now command.items j (find_part j db)

module _ (store : Store) (laws : StoreLaws store) where
  open store use {Db, find_part, find_operation, select_parts}

  Records-IsNumbered :
      (db : Db) (index : ℕ) (items : List ReserveItem) (news : List NewItem)
      → Records store db index items news
      → IsNumbered (suc index) news
  Records-IsNumbered db index [] [] r = tt
  Records-IsNumbered db index (i ∷ is) (n ∷ ns) ((row, _, _, e), r) = (
    ap (λ (m : NewItem). m.line_number) e ∙ omega arith,
    Records-IsNumbered db (suc index) is ns r,
  )
  Records-IsNumbered db index [] (n ∷ ns) r = elim r [ ]
  Records-IsNumbered db index (i ∷ is) [] r = elim r [ ]

  pub Records-part_ids :
      (db : Db) (index : ℕ) (items : List ReserveItem) (news : List NewItem)
      → Records store db index items news
      → map (λ (n : NewItem). n.part_id) news ≡ part_ids items
  Records-part_ids db index [] [] r = refl
  Records-part_ids db index (i ∷ is) (n ∷ ns) ((row, found, _, e), r) =
      cc (e, (laws.find_part_law i.part_id db row found).0, Records-part_ids db (suc index) is ns r)
  Records-part_ids db index [] (n ∷ ns) r = elim r [ ]
  Records-part_ids db index (i ∷ is) [] r = elim r [ ]

  Records-IsLine :
      (db db' : Db) (now : Date) (all : List ReserveItem) (index : ℕ) (items : List ReserveItem)
      (news : List NewItem)
      → Records store db index items news
      → All IsValidItem items
      → index + length items ≤ 50
      → ((j : Text) → find_part j db' ≡ after_taking now all j (find_part j db))
      → All (IsLine (λ k. find_part k db')) news
  Records-IsLine db db' now all index [] [] r v few after = tt
  Records-IsLine db db' now all index (i ∷ is) (n ∷ ns) ((row, found, enough, e), r) v few after =
      let (id, _) = laws.find_part_law i.part_id db row found in
      let (row', kept) = after_taking-some now all i.part_id row in
      (
        subst (IsLine (λ k. find_part k db')) (sym e) (record {
          quantity_positive = v.0.1;
          quantity_bounded = v.0.2;
          line_positive = omega arith;
          line_bounded = omega arith;
          arithmetic = omega arith;
          part = row';
          foreign_key =
              ap (λ k. find_part k db') id
              ∙ after i.part_id
              ∙ ap (after_taking now all i.part_id) found
              ∙ kept;
        }),
        Records-IsLine db db' now all (suc index) is ns r v.1 (omega arith) after,
      )
  Records-IsLine db db' now all index [] (n ∷ ns) r v few after = elim r [ ]
  Records-IsLine db db' now all index (i ∷ is) [] r v few after = elim r [ ]

  -- A new reservation step by step.
  reserve_new-steps :
      (hash : Text) (now : Date) (command : ReserveCommand) (db db₁ : Db) (news : List NewItem)
      {op : Operation} {db₂ : Db}
      → missing_parts (select_parts (part_ids command.items) db) command.items ≡ []
      → find_shortages (select_parts (part_ids command.items) db) command.items ≡ ok []
      → take_stock store (select_parts (part_ids command.items) db) now command.items db
        ≡ ok (tt, db₁)
      → new_items (select_parts (part_ids command.items) db) 0 command.items ≡ ok news
      → store.create_operation
          (record {
            order_id = command.order_id;
            request_hash = hash;
            status = reserved;
            reserved_at = now;
            items = news;
          })
          db₁
        ≡ ok (op, db₂)
      → reserve_new store hash now command db ≡ ok (to_reserve_result op false, db₂)
  unfolding reserve_new ◌>>=◌
  reserve_new-steps hash now command db db₁ news none_missing none_short taken made created =
      rw (none_missing, none_short, taken, made, created)

  pub reserve_new-covered :
      (sha256_hex : Text → Text) (now : Date) (command : ReserveCommand) (db : Db)
      → IsValidCommand command
      → find_operation command.order_id db ≡ none
      → Has store db command.items
      → (op : Operation) × (db' : Db) × (reserve_new store
            (request_fingerprint sha256_hex command.items)
            now
            command
            db
          ≡ ok (to_reserve_result op false, db'))
        × IsReservation store sha256_hex now command db db' op
  reserve_new-covered sha256_hex now command db valid fresh has =
      let distinct = IsFresh-IsDistinct (part_ids command.items) valid.distinct in
      let locked : List PartRow = select_parts (part_ids command.items) db in
      let covers = select_parts-Covers store laws command.items db has in
      let (db₁, taken, parts, operations) =
        take_stock_lem store laws locked now command.items db distinct covers in
      let (news, made, records) = new_items-Records store laws locked db 0 command.items covers in
      let new : NewOperation = reservation sha256_hex now command news in
      let (ids, db₂, created, same_length, distinct_ids, ledger, parts₂) =
        laws.create_operation_law new db₁ (operations command.order_id ∙ fresh)
          (Records-IsNumbered db 0 command.items news records)
          (Records-IsLine db db₁ now command.items 0 command.items news records valid.items
            (omega arith) parts)
          (subst IsDistinct (sym (Records-part_ids db 0 command.items news records)) distinct) in
      (
        stored ids new,
        db₂,
        reserve_new-steps (request_fingerprint sha256_hex command.items) now command db db₁ news
            (missing_parts-covered store laws locked db command.items covers)
            (find_shortages-covered store laws locked db command.items covers) taken made created,
        record {
          ids = ids;
          news = news;
          shape = refl;
          same_length = same_length;
          distinct_ids = distinct_ids;
          lines = records;
          ledger = λ j.
              ledger j
              ∙ ap (λ o. if text_eq command.order_id j then some (stored ids new) else o)
                  (operations j);
          parts = λ j. parts₂ j ∙ parts j;
        },
      )
