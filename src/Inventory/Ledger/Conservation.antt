-- ===== src/Inventory/Ledger/Conservation.antt =====
-- Stock is conserved over every history of calls, and every history can be wound back by releases.
use tarea_integracion_sistem.Prelude.{
  ◌+◌, ◌≡◌, refl, sym, ◌∙◌, ap, subst, true, false, List, [], ◌∷◌, Option, none, some, arith,
  Bool-cases, Option-cases, inl, inr,
}
use tarea_integracion_sistem.Prelude.Result.{ok}
use tarea_integracion_sistem.Prelude.Tx.{commits}
use tarea_integracion_sistem.Text.{Text, text_eq, contains}
use tarea_integracion_sistem.Text.Laws.{text_eq_refl, text_eq_sound, text_eq_comm}
use tarea_integracion_sistem.Js.{Date}
use tarea_integracion_sistem.Inventory.Store.{
  Store, StoreLaws, PartRow, Operation, reserved, released, IsDistinct,
}
use tarea_integracion_sistem.Inventory.Stock.{StockOperationResult, release}
use tarea_integracion_sistem.Inventory.Stock.Returning.{stock_of_row}
use tarea_integracion_sistem.Inventory.Stock.Release.{
  IsReturnable, returned, returned_result, release_returns,
}
use tarea_integracion_sistem.Inventory.Ledger.{
  Step, reserves, releases, Reach, here, next, held_of, held_total, IsBalanced,
}
use tarea_integracion_sistem.Inventory.Ledger.Sums.{held_total-zero}
use tarea_integracion_sistem.Inventory.Ledger.Changes.{
  IsBalanced-change, change_here, change_others,
}
use tarea_integracion_sistem.Inventory.Ledger.Balance.{
  reservation-IsChange, release-IsChange, balanced-IsReturnable,
}
use tarea_integracion_sistem.Inventory.Ledger.Moves.{
  reserve_cases, release_cases, release_state, status_cases,
}

module _ (store : Store) (laws : StoreLaws store) (sha256_hex : Text → Text) where
  open store use {Db, find_part, find_operation}

  IsBalanced-Step :
      (initial : Text → Option PartRow) (db db' : Db) (orders : List Text)
      → Step store sha256_hex db db'
      → IsBalanced store initial orders db
      → (orders' : List Text) × IsBalanced store initial orders' db'
  IsBalanced-Step initial db db' orders (reserves now fate command valid) b =
      elim (reserve_cases store laws sha256_hex now fate command db) [
        | inl same ↦ (orders, subst (IsBalanced store initial orders) (sym same) b)
        | inr (fresh, has, p) ↦
            let (op, change) =
              reservation-IsChange store laws sha256_hex now fate command db valid fresh has p in
            IsBalanced-change store initial db _ command.order_id op change orders b
      ]
  IsBalanced-Step initial db db' orders (releases order now fate) b =
      elim (release_cases store laws order now fate db) [
        | inl same ↦ (orders, subst (IsBalanced store initial orders) (sym same) b)
        | inr (op, found, holds, p) ↦
            let change = release-IsChange store laws initial orders db b order now op found holds in
            let (orders', b') = IsBalanced-change store initial db _ order _ change orders b in
            (
              orders',
              subst (IsBalanced store initial orders')
                  (sym (release_state store laws order now fate db p)) b',
            )
      ]

  IsBalanced-start :
      (db : Db)
      → ((k : Text) → find_operation k db ≡ none)
      → IsBalanced store (λ j. find_part j db) [] db
  IsBalanced-start db empty = record {
    distinct = tt;
    listed = λ k op found. let gone = empty k in absurd (ground arith);
    sound = λ k op found holds. let gone = empty k in absurd (ground arith);
    kept = λ j first at_first.
        (first, at_first, omega arith, (laws.find_part_law j db first at_first).1);
    none_new = λ j never. never;
  }

  IsBalanced-Reach :
      (db db' : Db)
      → ((k : Text) → find_operation k db ≡ none)
      → Reach store sha256_hex db db'
      → (orders : List Text) × IsBalanced store (λ j. find_part j db) orders db'
  IsBalanced-Reach db db' empty here = ([], IsBalanced-start db empty)
  IsBalanced-Reach db db' empty (next {db' = between} history step) =
      let (orders, b) = IsBalanced-Reach db between empty history in
      IsBalanced-Step (λ j. find_part j db) between db' orders step b

  module _ (db db' : Db) (empty : (k : Text) → find_operation k db ≡ none)
      (history : Reach store sha256_hex db db') where
    pub reserved-IsReturnable :
        (order : Text) (op : Operation)
        → find_operation order db' ≡ some op
        → op.status ≡ reserved
        → IsReturnable store db' op
    reserved-IsReturnable order op found holds =
        let (orders, b) = IsBalanced-Reach db db' empty history in
        balanced-IsReturnable store laws (λ j. find_part j db) orders db' b order op found holds

    -- After any calls of `reserve` with valid commands and of `release`, on a database that had no
    -- operations, however their transactions ended: the operations are of finitely many orders, and
    -- for every part of the table, what it has and what the reserved ones of these orders hold of it
    -- are together what it had at first.
    pub stock_is_conserved :
        (orders : List Text) × IsDistinct orders
        × ((k : Text) (op : Operation) → find_operation k db' ≡ some op → contains k orders ≡ true)
        × ((j : Text) (first : PartRow)
            → find_part j db ≡ some first
            → (row : PartRow) × (find_part j db' ≡ some row)
              × (row.stock_available + held_total (λ k. find_operation k db') orders j
                  ≡ first.stock_available))
    stock_is_conserved =
        let (orders, b) = IsBalanced-Reach db db' empty history in
        (
          orders,
          b.distinct,
          b.listed,
          λ j first at_first.
              let (row, found, balance, _) = b.kept j first at_first in (row, found, balance),
        )

    -- After any calls of `reserve` with valid commands and of `release`, on a database that had
    -- no operations, however their transactions ended, a reserved order can be released: in a
    -- transaction that commits, the release succeeds as a new one and closes the order.
    pub release_always_succeeds :
        (order : Text) (now : Date) (op : Operation)
        → find_operation order db' ≡ some op
        → op.status ≡ reserved
        → let (answer, db'') = release store order now commits db' in
          (r : StockOperationResult) × (closed : Operation) × (answer ≡ ok r)
          × (r.replayed ≡ false)
          × (find_operation order db'' ≡ some closed)
          × (closed.status ≡ released)
    release_always_succeeds order now op found holds =
        let (db'', run, parts, ledger) =
          release_returns store laws order now op db' found holds
            (reserved-IsReturnable order op found holds) in
        (
          returned_result (λ j. find_part j db') now op false,
          returned (λ j. find_part j db') now op,
          ap (λ r. r.0) run,
          refl,
          ap (λ r. find_operation order r.1) run ∙ ledger order ∙ rw (text_eq_refl order) refl,
          refl,
        )

  -- One order less to release.
  release_one :
      (initial : Text → Option PartRow) (start db : Db) (orders : List Text) (k : Text) (now : Date)
      → Reach store sha256_hex start db
      → IsBalanced store initial orders db
      → (db' : Db) × Reach store sha256_hex start db'
        × ((orders' : List Text) × IsBalanced store initial orders' db')
        × ((j : Text) → held_of (find_operation k db') j ≡ 0)
        × ((x : Text) → text_eq k x ≡ false → find_operation x db' ≡ find_operation x db)
  release_one initial start db orders k now history b = elim (Option-cases (find_operation k db)) [
    | inl gone ↦ (db, history, (orders, b), λ j. rw gone refl, λ x ne. refl)
    | inr (op, found) ↦ elim (status_cases op.status) [
      | inr closed ↦ (db, history, (orders, b), λ j. rw (found, closed) refl, λ x ne. refl)
      | inl holds ↦
          let change = release-IsChange store laws initial orders db b k now op found holds in
          let done = returned (λ j. find_part j db) now op in
          (
            (release store k now commits db).1,
            next history (releases k now commits),
            IsBalanced-change store initial db _ k done change orders b,
            λ j. ap (λ o. held_of o j) (change_here store initial db _ k done change),
            change_others store initial db _ k done change,
          )
    ]
  ]

  release_all :
      (initial : Text → Option PartRow) (start db : Db) (orders pending : List Text) (now : Date)
      → Reach store sha256_hex start db
      → IsBalanced store initial orders db
      → ((x : Text) → contains x pending ≡ false → (j : Text) → held_of (find_operation x db) j ≡ 0)
      → (db' : Db) × Reach store sha256_hex start db'
        × ((orders' : List Text) × IsBalanced store initial orders' db')
        × ((x j : Text) → held_of (find_operation x db') j ≡ 0)
  unfolding contains
  release_all initial start db orders [] now history b held =
      (db, history, (orders, b), λ x. held x refl)
  release_all initial start db orders (k ∷ ks) now history b held =
      let (db', history', (orders', b'), closed, others) =
        release_one initial start db orders k now history b in
      release_all initial start db' orders' ks now history' b' (λ x unlisted j.
        elim (Bool-cases (text_eq k x)) [
          | inl e ↦ let at : k ≡ x = text_eq_sound k x e in rw (← at) (closed j)
          | inr ne ↦
              let off : contains x (k ∷ ks) ≡ false = ground (arith, text_eq_comm x k) in
              ap (λ o. held_of o j) (others x ne) ∙ held x off j
        ])

  -- After any calls of `reserve` with valid commands and of `release`, on a database that had no
  -- operations, however their transactions ended, some further calls give every part of the table
  -- the stock that it had at first.
  pub stock_can_be_restored :
      (db db' : Db)
      → ((k : Text) → find_operation k db ≡ none)
      → Reach store sha256_hex db db'
      → Date
      → (db'' : Db) × Reach store sha256_hex db' db''
        × ((j : Text) → stock_of_row (find_part j db'') ≡ stock_of_row (find_part j db))
  stock_can_be_restored db db' empty history now =
      let (orders, b) = IsBalanced-Reach db db' empty history in
      let (db'', more, (orders', b'), none_held) =
        release_all (λ j. find_part j db) db' db' orders orders now here b
          (λ x unlisted j. elim (Option-cases (find_operation x db')) [
            | inl gone ↦ rw gone refl
            | inr (op, found) ↦ let there = b.listed x op found in absurd (ground arith)
          ]) in
      (
        db'',
        more,
        λ j. elim (Option-cases (find_part j db)) [
          | inl never ↦ rw (never, b'.none_new j never) refl
          | inr (first, at_first) ↦
              let (row, found, balance, _) = b'.kept j first at_first in
              let zero_held =
                held_total-zero (λ k. find_operation k db'') orders' j (λ k. none_held k j) in
              let same : row.stock_available ≡ first.stock_available = omega (arith, zero_held) in
              rw (at_first, found) same
        ],
      )
