-- ===== src/Inventory/Store.antt =====
-- The tables of the inventory database (apps/inventory-grpc/prisma/schema.prisma), as the statements of the
-- service see them. The database is not part of the repository: it is an interface, `Store`, with
-- the documented effect of each statement, `StoreLaws`, under the constraints that the migrations
-- declare.
pub mod Tables
use tarea_integracion_sistem.Prelude.{
  ℕ, suc, ◌+◌, ◌^◌, ◌≤◌, ◌<◌, ◌≡◌, List, [], ◌∷◌, map, Option, none, some, length, All,
  if◌then◌else◌,
}
use tarea_integracion_sistem.Prelude.Result.{Result, ok}
use tarea_integracion_sistem.Text.{Text, text_eq, contains}
pub use tarea_integracion_sistem.Text.{IsDistinct}
use tarea_integracion_sistem.Js.{Date, map_get}
use tarea_integracion_sistem.Inventory.Errors.{Exception}

-- A row of `parts`.
pub record PartRow : Type 0 where
  pub id : Text
  pub sku : Text
  pub name : Text
  pub stock_available : ℕ
  pub created_at : Date
  pub updated_at : Date

pub data OperationStatus : Type 0 where
  reserved released : OperationStatus

-- A row of `stock_operation_items`, under the `order_id` of its operation.
pub record OperationItem : Type 0 where
  pub id : Text
  pub line_number : ℕ
  pub part_id : Text
  pub part_sku : Text
  pub part_name : Text
  pub quantity : ℕ
  pub reserved_stock_before : ℕ
  pub reserved_stock_after : ℕ
  pub released_stock_before : Option ℕ
  pub released_stock_after : Option ℕ

-- A row of `stock_operations` with its items in the order of their lines.
pub record Operation : Type 0 where
  pub order_id : Text
  pub request_hash : Text
  pub status : OperationStatus
  pub reserved_at : Date
  pub released_at : Option Date
  pub items : List OperationItem

-- The data of a `create`: the database chooses the ids of the item rows.
pub record NewItem : Type 0 where
  pub line_number : ℕ
  pub part_id : Text
  pub part_sku : Text
  pub part_name : Text
  pub quantity : ℕ
  pub reserved_stock_before : ℕ
  pub reserved_stock_after : ℕ

pub record NewOperation : Type 0 where
  pub order_id : Text
  pub request_hash : Text
  pub status : OperationStatus
  pub reserved_at : Date
  pub items : List NewItem

abbrev pub stored_item : Text → NewItem → OperationItem
stored_item id new = record {
  id = id;
  line_number = new.line_number;
  part_id = new.part_id;
  part_sku = new.part_sku;
  part_name = new.part_name;
  quantity = new.quantity;
  reserved_stock_before = new.reserved_stock_before;
  reserved_stock_after = new.reserved_stock_after;
  released_stock_before = none;
  released_stock_after = none;
}

abbrev pub stored_items : List Text → List NewItem → List OperationItem
stored_items [] news = []
stored_items (id ∷ ids) [] = []
stored_items (id ∷ ids) (new ∷ news) = stored_item id new ∷ stored_items ids news

abbrev pub stored : List Text → NewOperation → Operation
stored ids new = record {
  order_id = new.order_id;
  request_hash = new.request_hash;
  status = new.status;
  reserved_at = new.reserved_at;
  released_at = none;
  items = stored_items ids new.items;
}

-- `data: { releasedStockBefore, releasedStockAfter }` on the rows with the id.
abbrev pub release_item : Text → ℕ → ℕ → OperationItem → OperationItem
release_item id before after item =
    if text_eq item.id id
    then (record item { released_stock_before = some before; released_stock_after = some after })
    else item

abbrev pub release_items : Text → ℕ → ℕ → Operation → Operation
release_items id before after op = record op { items = map (release_item id before after) op.items }

abbrev pub map_option : {A B : Type 0} → (A → B) → Option A → Option B
map_option f none = none
map_option f (some a) = some (f a)

-- Values that a column of type `integer` holds.
abbrev pub int_limit : ℕ
int_limit = 2 ^ 31

-- The lines are numbered upwards from `n`.
abbrev pub IsNumbered : ℕ → List NewItem → Type 0
IsNumbered n [] = Unit
IsNumbered n (i ∷ is) = (i.line_number ≡ n) × IsNumbered (suc n) is

-- The statements that the service runs on its database. A uuid is its canonical text, in lower case:
-- the database reads a uuid in either case, and the service, which folds the ids of requests first,
-- passes no other text.
pub record Store : Type 1 where
  pub Db : Type 0
  -- `part.findUnique`
  pub find_part : Text → Db → Option PartRow
  -- `stockOperation.findUnique` with `INCLUDE_ITEMS`
  pub find_operation : Text → Db → Option Operation
  -- the rows of `SELECT … WHERE id = ANY(ids) ORDER BY id FOR UPDATE`
  pub select_parts : List Text → Db → List PartRow
  -- `part.findMany({ orderBy: { sku: 'asc' } })`
  pub parts_by_sku : Db → List PartRow
  -- `part.update({ where: { id }, data: { stockAvailable, updatedAt } })`
  pub update_part : Text → ℕ → Date → Db → Result Exception Db
  -- `stockOperation.create` with nested items
  pub create_operation : NewOperation → Db → Result Exception (Operation × Db)
  -- `stockOperationItem.update({ where: { id }, … })`
  pub update_item : Text → ℕ → ℕ → Db → Result Exception Db
  -- `stockOperation.update({ where: { orderId }, data: { status, releasedAt } })`
  pub update_operation : Text → OperationStatus → Date → Db → Result Exception (Operation × Db)

-- The checks of the migrations on a line of the ledger, and its foreign key.
pub record IsLine (find : Text → Option PartRow) (i : NewItem) : Type 0 where
  pub quantity_positive : 1 ≤ i.quantity
  pub quantity_bounded : i.quantity ≤ 999
  pub line_positive : 1 ≤ i.line_number
  pub line_bounded : i.line_number ≤ 50
  pub arithmetic : i.reserved_stock_after + i.quantity ≡ i.reserved_stock_before
  pub part : PartRow
  pub foreign_key : find i.part_id ≡ some part

-- The documented effect of each statement, under the constraints of the tables. Nothing is said of
-- a statement that violates one: it may throw.
pub record StoreLaws (s : Store) : Type 1 where
  -- the primary key, and the range of the column
  pub find_part_law :
      (k : Text) (db : s.Db) (row : PartRow)
      → s.find_part k db ≡ some row
      → (row.id ≡ k) × (row.stock_available < int_limit)
  -- VARCHAR(40) and VARCHAR(120)
  pub part_columns_law :
      (k : Text) (db : s.Db) (row : PartRow)
      → s.find_part k db ≡ some row
      → (length row.sku ≤ 40) × (length row.name ≤ 120)
  pub select_parts_get :
      (ids : List Text) (k : Text) (db : s.Db)
      → map_get (λ r. r.id) k (s.select_parts ids db)
        ≡ (if contains k ids then s.find_part k db else none)
  pub update_part_law :
      (k : Text) (stock : ℕ) (now : Date) (db : s.Db) (row : PartRow)
      → s.find_part k db ≡ some row
      → stock < int_limit
      → (db' : s.Db) × (s.update_part k stock now db ≡ ok db')
        × ((j : Text)
            → s.find_part j db' ≡ (
                if text_eq k j
                then some (record row { stock_available = stock; updated_at = now })
                else s.find_part j db))
        × ((j : Text) → s.find_operation j db' ≡ s.find_operation j db)
  pub create_operation_law :
      (new : NewOperation) (db : s.Db)
      → s.find_operation new.order_id db ≡ none
      → IsNumbered 1 new.items
      → All (IsLine (λ k. s.find_part k db)) new.items
      → IsDistinct (map (λ i. i.part_id) new.items)
      → (ids : List Text) × (db' : s.Db) × (s.create_operation new db ≡ ok (stored ids new, db'))
        × (length ids ≡ length new.items)
        × IsDistinct ids
        × ((j : Text)
            → s.find_operation j db'
              ≡ (if text_eq new.order_id j then some (stored ids new) else s.find_operation j db))
        × ((j : Text) → s.find_part j db' ≡ s.find_part j db)
  pub update_item_law :
      (id order : Text) (before quantity : ℕ) (item : OperationItem) (op : Operation) (db : s.Db)
      → s.find_operation order db ≡ some op
      → map_get (λ i. i.id) id op.items ≡ some item
      → item.quantity ≡ quantity
      → before + quantity < int_limit
      → (db' : s.Db) × (s.update_item id before (before + quantity) db ≡ ok db')
        × ((j : Text)
            → s.find_operation j db' ≡ (
                if text_eq order j
                then some (release_items id before (before + quantity) op)
                else s.find_operation j db))
        × ((j : Text) → s.find_part j db' ≡ s.find_part j db)
  pub update_operation_law :
      (k : Text) (now : Date) (op : Operation) (db : s.Db)
      → s.find_operation k db ≡ some op
      → (db' : s.Db) × (s.update_operation k released now db
          ≡ ok (record op { status = released; released_at = some now }, db'))
        × ((j : Text)
            → s.find_operation j db' ≡ (
                if text_eq k j
                then some (record op { status = released; released_at = some now })
                else s.find_operation j db))
        × ((j : Text) → s.find_part j db' ≡ s.find_part j db)
