-- ===== src/Inventory/Ledger.antt =====
-- The inventory over time: any calls of `reserve` and `release` (apps/inventory-grpc/src/stock/stock.service.ts),
-- of any orders, in any order, however their transactions end.
pub mod Sums
pub mod Moves
pub mod Changes
pub mod Balance
pub mod Conservation
use tarea_integracion_sistem.Prelude.{ℕ, ◌+◌, ◌<◌, ◌≡◌, true, List, [], ◌∷◌, Option, none, some}
use tarea_integracion_sistem.Prelude.Tx.{Fate}
use tarea_integracion_sistem.Text.{Text, contains}
use tarea_integracion_sistem.Js.{Date}
use tarea_integracion_sistem.Inventory.Errors.{Exception}
use tarea_integracion_sistem.Inventory.Request.{ReserveCommand}
use tarea_integracion_sistem.Inventory.Request.Parsing.{IsValidCommand}
use tarea_integracion_sistem.Inventory.Store.{
  Store, PartRow, Operation, OperationItem, OperationStatus, reserved, released, IsDistinct,
  int_limit,
}
use tarea_integracion_sistem.Inventory.Stock.{reserve, release}
use tarea_integracion_sistem.Inventory.Stock.Undo.{InTable}
use tarea_integracion_sistem.Inventory.Stock.Returning.{held_by, item_parts, item_ids}

-- What an order holds of a part: its lines, while it is reserved.
abbrev pub held_while : OperationStatus → Text → List OperationItem → ℕ
held_while reserved j items = held_by j items
held_while released j items = 0

abbrev pub held_of : Option Operation → Text → ℕ
held_of none j = 0
held_of (some op) j = held_while op.status j op.items

-- What the orders hold of a part together.
abbrev pub held_total : (Text → Option Operation) → List Text → Text → ℕ
held_total find [] j = 0
held_total find (k ∷ ks) j = held_of (find k) j + held_total find ks j

module _ (store : Store) (sha256_hex : Text → Text) where
  open store use {Db, find_part, find_operation}

  -- One call, with its clock and the end of its transaction.
  pub data Step (db : Db) : Db → Type 0 where
    reserves :
        (now : Date) (fate : Fate Exception) (command : ReserveCommand)
        → IsValidCommand command
        → Step db (reserve store sha256_hex now fate command db).1
    releases :
        (order : Text) (now : Date) (fate : Fate Exception)
        → Step db (release store order now fate db).1

  pub data Reach (db : Db) : Db → Type 0 where
    here : Reach db db
    next : {db' db'' : Db} → Reach db db' → Step db' db'' → Reach db db''

module _ (store : Store) where
  open store use {Db, find_part, find_operation}

  -- A reserved operation, as the checks of the tables have it.
  pub record IsSound (db : Db) (op : Operation) : Type 0 where
    pub distinct_ids : IsDistinct (item_ids op.items)
    pub distinct_parts : IsDistinct (item_parts op.items)
    pub in_table : InTable store db op.items

  -- The orders that have an operation are listed, and every part has what it has at first but for
  -- what they hold of it.
  pub record IsBalanced (initial : Text → Option PartRow) (orders : List Text) (db : Db)
      : Type 0 where
    pub distinct : IsDistinct orders
    pub listed :
        (k : Text) (op : Operation) → find_operation k db ≡ some op → contains k orders ≡ true
    pub sound :
        (k : Text) (op : Operation)
        → find_operation k db ≡ some op
        → op.status ≡ reserved
        → IsSound db op
    pub kept :
        (j : Text) (first : PartRow)
        → initial j ≡ some first
        → (row : PartRow) × (find_part j db ≡ some row)
          × (row.stock_available + held_total (λ k. find_operation k db) orders j
              ≡ first.stock_available)
          × (first.stock_available < int_limit)
    pub none_new : (j : Text) → initial j ≡ none → find_part j db ≡ none
