-- ===== src/Inventory/Stock/Lifecycle.antt =====
-- The life of an order in the inventory: a reservation, its retries, its release.
use tarea_integracion_sistem.Prelude.{
  ◌+◌, ◌≤◌, ◌≡◌, ◌∙◌, ap, false, true, List, [], ◌∷◌, none, some, arith, All,
}
use tarea_integracion_sistem.Prelude.Result.{ok}
use tarea_integracion_sistem.Prelude.Tx.{◌>>=◌, Fate, commits, Persists, transaction_state}
use tarea_integracion_sistem.Text.{Text}
use tarea_integracion_sistem.Text.Laws.{text_eq_refl, text_eq_iff}
use tarea_integracion_sistem.Js.{Date}
use tarea_integracion_sistem.Inventory.Errors.{Exception}
use tarea_integracion_sistem.Inventory.Request.{ReserveItem, ReserveCommand, request_fingerprint}
use mathlib.Core.List.{Perm}
use mathlib.Core.List.Perm
use tarea_integracion_sistem.Inventory.Request.Fingerprint.{request_fingerprint-Perm}
use tarea_integracion_sistem.Inventory.Request.Parsing.{part_ids, IsValidCommand}
use tarea_integracion_sistem.Inventory.Store.{Store, StoreLaws, PartRow, Operation, reserved}
use tarea_integracion_sistem.Inventory.Stock.{
  to_reserve_result, reserve_existing, reserve_body, reserve,
}
use tarea_integracion_sistem.Inventory.Stock.Taking.{after_taking, after_taking-stock, quantity_of}
use tarea_integracion_sistem.Inventory.Stock.Reserving.{Has, IsFresh-IsDistinct}
use tarea_integracion_sistem.Inventory.Stock.Reserve.{IsReservation, reserve_new-covered}

reserve_existing-same :
    (order hash : Text) (op : Operation)
    → op.request_hash ≡ hash
    → op.status ≡ reserved
    → reserve_existing order hash op ≡ ok (to_reserve_result op true)
unfolding reserve_existing
reserve_existing-same order hash op same status = ground (arith, text_eq_iff op.request_hash hash)

module _ (store : Store) (laws : StoreLaws store) where
  open store use {Db, find_part, find_operation}

  Has-enough :
      (db : Db) (items : List ReserveItem) (j : Text) (row : PartRow)
      → Has store db items
      → find_part j db ≡ some row
      → All (λ i. i.part_id ≡ j → i.quantity ≤ row.stock_available) items
  Has-enough db [] j row h found = tt
  Has-enough db (i ∷ is) j row ((row', found', enough), h) found =
      (λ same. let e : row' ≡ row = ground arith in rw (← e) enough, Has-enough db is j row h found)

  -- A reservation with the fingerprint of the order's operation, not released, replays its answer.
  pub reserve_replays :
      (sha256_hex : Text → Text) (now : Date) (command : ReserveCommand) (op : Operation) (db : Db)
      → find_operation command.order_id db ≡ some op
      → op.request_hash ≡ request_fingerprint sha256_hex command.items
      → op.status ≡ reserved
      → reserve store sha256_hex now commits command db ≡ (ok (to_reserve_result op true), db)
  unfolding reserve ◌>>=◌
  reserve_replays sha256_hex now command op db found same status =
      rw (found, reserve_existing-same command.order_id _ op same status)

  module _ (sha256_hex : Text → Text) (now : Date) (command : ReserveCommand) (db : Db)
      (valid : IsValidCommand command) (fresh : find_operation command.order_id db ≡ none)
      (has : Has store db command.items) where
    -- A valid reservation of an order that has no operation, for parts that all have the stock,
    -- succeeds: the answer is of the operation that the ledger now has for the order, and the
    -- operations of other orders are kept.
    pub reserve_creates :
        (op : Operation) × (db' : Db) × (reserve store sha256_hex now commits command db
          ≡ (ok (to_reserve_result op false), db'))
        × IsReservation store sha256_hex now command db db' op
    reserve_creates =
        let (op, db', run, written) =
          reserve_new-covered store laws sha256_hex now command db valid fresh has in
        (op, db', unfold reserve ◌>>=◌ in rw (fresh, run), written)

    -- Such a reservation takes from each part exactly what its items ask of it, and keeps the rest
    -- of the part but its time of change; a part that is not in the table stays out of it.
    pub reserve_takes :
        (j : Text) (row : PartRow)
        → find_part j db ≡ some row
        → (row' : PartRow) × (find_part j (reserve store sha256_hex now commits command db).1
            ≡ some row')
          × (row'.stock_available + quantity_of j command.items ≡ row.stock_available)
          × (row'.id ≡ row.id)
          × (row'.sku ≡ row.sku)
          × (row'.name ≡ row.name)
    reserve_takes j row found =
        let (op, db', run, written) = reserve_creates in
        let (row', after, stock, id, sku, name) =
          after_taking-stock now command.items j row
            (IsFresh-IsDistinct (part_ids command.items) valid.distinct)
            (Has-enough db command.items j row has found) in
        (
          row',
          ap (λ r. find_part j r.1) run
              ∙ written.parts j
              ∙ ap (after_taking now command.items j) found
              ∙ after,
          stock,
          id,
          sku,
          name,
        )

    pub reserve_state :
        (fate : Fate Exception)
        → Persists fate
        → (reserve store sha256_hex now fate command db).1
          ≡ (reserve store sha256_hex now commits command db).1
    unfolding reserve
    reserve_state fate = transaction_state fate (reserve_body store sha256_hex now command) db

    -- The state after a reservation whose transaction took effect, told or not, has the operation.
    persisted :
        (fate : Fate Exception)
        → Persists fate
        → (op : Operation) × (find_operation command.order_id
              (reserve store sha256_hex now fate command db).1
            ≡ some op)
          × (op.status ≡ reserved)
          × (op.request_hash ≡ request_fingerprint sha256_hex command.items)
          × ((reserve store sha256_hex now commits command db).0 ≡ ok (to_reserve_result op false))
    persisted fate p =
        let (op, db', run, written) = reserve_creates in
        let here : find_operation command.order_id db' ≡ some op =
          written.ledger command.order_id ∙ rw (text_eq_refl command.order_id) in
        (
          op,
          ap (find_operation command.order_id) (reserve_state fate p ∙ ap (λ r. r.1) run) ∙ here,
          ap (λ (o : Operation). o.status) written.shape,
          ap (λ (o : Operation). o.request_hash) written.shape,
          ap (λ r. r.0) run,
        )

    -- A retry of a reservation that took effect, with its items in any other order, is the same
    -- reservation: it takes nothing more and replays the answer of the first call.
    pub reserve_reordered :
        (fate : Fate Exception) (later : Date) (items : List ReserveItem)
        → Persists fate
        → Perm command.items items
        → let db' = (reserve store sha256_hex now fate command db).1 in
          (op : Operation) × ((reserve store sha256_hex now commits command db).0
            ≡ ok (to_reserve_result op false))
          × (reserve store sha256_hex later commits (record command { items = items }) db'
              ≡ (ok (to_reserve_result op true), db'))
    reserve_reordered fate later items p reordered =
        let (op, here, status, hash, answer) = persisted fate p in
        let same =
          request_fingerprint-Perm sha256_hex reordered
            (IsFresh-IsDistinct (part_ids command.items) valid.distinct) in
        (
          op,
          answer,
          reserve_replays sha256_hex later (record command { items = items }) op _ here
              (hash ∙ same) status,
        )

    -- A retry of a reservation that took effect, even if its answer was lost, takes nothing
    -- more: it leaves the tables as they are and answers as the first call would have, marked as a
    -- replay.
    pub reserve_retry :
        (fate : Fate Exception) (later : Date)
        → Persists fate
        → let db' = (reserve store sha256_hex now fate command db).1 in
          (op : Operation) × ((reserve store sha256_hex now commits command db).0
            ≡ ok (to_reserve_result op false))
          × (reserve store sha256_hex later commits command db'
              ≡ (ok (to_reserve_result op true), db'))
    reserve_retry fate later p =
        reserve_reordered fate later command.items p (Perm.refl command.items)
