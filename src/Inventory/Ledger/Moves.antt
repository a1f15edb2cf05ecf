-- ===== src/Inventory/Ledger/Moves.antt =====
-- What one call does to the tables: nothing, or a reservation that the table covers, or the release
-- of a reserved operation.
use tarea_integracion_sistem.Prelude.{
  ◌≡◌, refl, ap, ◌∙◌, true, List, [], ◌∷◌, none, some, arith, ltb, Bool-cases, Option-cases, ◌⊎◌,
  inl, inr,
}
use tarea_integracion_sistem.Prelude.Tx.{
  ◌>>=◌, Fate, commits, Persists, lift-LeavesState, transaction-unchanged, transaction-rolled_back,
  transaction_state, Fate-cases,
}
use tarea_integracion_sistem.Text.{Text}
use tarea_integracion_sistem.Js.{Date}
use tarea_integracion_sistem.Inventory.Errors.{Exception}
use tarea_integracion_sistem.Inventory.Request.{ReserveItem, ReserveCommand, request_fingerprint}
use tarea_integracion_sistem.Inventory.Store.{
  Store, StoreLaws, Operation, OperationStatus, reserved, released,
}
use tarea_integracion_sistem.Inventory.Stock.{
  reserve, release, reserve_body, release_body, reserve_existing, reserve_found, release_found,
  to_release_result,
}
use tarea_integracion_sistem.Inventory.Stock.Reserving.{Has}
use tarea_integracion_sistem.Inventory.Stock.Rejecting.{
  absent, short, reserve_rejects_absent, reserve_rejects_short,
}

list_cases : {A : Type 0} (xs : List A) → (xs ≡ []) ⊎ ((x : A) × (rest : List A) × (xs ≡ x ∷ rest))
list_cases [] = inl refl
list_cases (x ∷ xs) = inr (x, xs, refl)

pub status_cases : (s : OperationStatus) → (s ≡ reserved) ⊎ (s ≡ released)
status_cases reserved = inl refl
status_cases released = inr refl

module _ (store : Store) where
  open store use {Db, find_part, find_operation}

  -- No part is absent and none is short: the table has them all.
  pub Has-of_nothing_wrong :
      (db : Db) (items : List ReserveItem)
      → absent (λ k. find_part k db) items ≡ []
      → short (λ k. find_part k db) items ≡ []
      → Has store db items
  Has-of_nothing_wrong db [] h g = tt
  Has-of_nothing_wrong db (i ∷ is) h g = elim (Option-cases (find_part i.part_id db)) [
    | inl gone ↦
        let bad : i.part_id ∷ absent (λ k. find_part k db) is ≡ [] = rw (← h, gone) refl in cc
    | inr (row, there) ↦ elim (Bool-cases (ltb row.stock_available i.quantity)) [
      | inl less ↦ absurd (ground arith)
      | inr enough ↦
          ((row, there, ground arith), Has-of_nothing_wrong db is (ground arith) (ground arith))
    ]
  ]

module _ (store : Store) (laws : StoreLaws store) where
  open store use {Db, find_part, find_operation}

  -- A call of `reserve` leaves the tables, or its order is new, the table covers its items, and its
  -- transaction took effect.
  pub reserve_cases :
      (sha256_hex : Text → Text) (now : Date) (fate : Fate Exception) (command : ReserveCommand)
      (db : Db)
      → ((reserve store sha256_hex now fate command db).1 ≡ db)
        ⊎ ((find_operation command.order_id db ≡ none) × Has store db command.items × Persists fate)
  unfolding reserve reserve_body reserve_found ◌>>=◌
  reserve_cases sha256_hex now fate command db =
      elim (Option-cases (find_operation command.order_id db)) [
        | inr (op, found) ↦ inl (
            transaction-unchanged fate (reserve_body store sha256_hex now command) db (
              rw found (
                lift-LeavesState
                  (reserve_existing command.order_id (request_fingerprint sha256_hex command.items)
                    op)
                  db)))
        | inl fresh ↦ elim (list_cases (absent (λ k. find_part k db) command.items)) [
          | inr (k, ks, gone) ↦ inl (
              ap (λ r. r.1)
                (reserve_rejects_absent store laws sha256_hex now fate command db k ks fresh gone))
          | inl there ↦ elim (list_cases (short (λ k. find_part k db) command.items)) [
            | inr (s, ss, less) ↦ inl (
                ap (λ r. r.1)
                  (reserve_rejects_short store laws sha256_hex now fate command db s ss fresh there
                    less))
            | inl enough ↦ elim (Fate-cases fate) [
              | inl p ↦ inr (fresh, Has-of_nothing_wrong store db command.items there enough, p)
              | inr (e, taken_back) ↦ inl (
                  ap (λ f. (reserve store sha256_hex now f command db).1) taken_back
                  ∙ transaction-rolled_back e (reserve_body store sha256_hex now command) db)
            ]
          ]
        ]
      ]

  -- A call of `release` leaves the tables, or its order has a reserved operation and its transaction
  -- took effect.
  pub release_cases :
      (order : Text) (now : Date) (fate : Fate Exception) (db : Db)
      → ((release store order now fate db).1 ≡ db)
        ⊎ ((op : Operation) × (find_operation order db ≡ some op)
            × (op.status ≡ reserved)
            × Persists fate)
  unfolding release release_body release_found ◌>>=◌
  release_cases order now fate db = elim (Option-cases (find_operation order db)) [
    | inl gone ↦ inl (transaction-unchanged fate (release_body store order now) db (rw gone tt))
    | inr (op, found) ↦ elim (status_cases op.status) [
      | inr closed ↦ inl (
          transaction-unchanged fate (release_body store order now) db
            (rw (found, closed) (lift-LeavesState (to_release_result op true) db)))
      | inl holds ↦ elim (Fate-cases fate) [
        | inl p ↦ inr (op, found, holds, p)
        | inr (e, taken_back) ↦ inl (
            ap (λ f. (release store order now f db).1) taken_back
            ∙ transaction-rolled_back e (release_body store order now) db)
      ]
    ]
  ]

  pub release_state :
      (order : Text) (now : Date) (fate : Fate Exception) (db : Db)
      → Persists fate
      → (release store order now fate db).1 ≡ (release store order now commits db).1
  unfolding release
  release_state order now fate db = transaction_state fate (release_body store order now) db
