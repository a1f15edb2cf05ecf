-- ===== src/Sales/Orders/Tables.antt =====
-- The tables of the sales database (apps/sales-api/prisma/schema.prisma), as the statements of the service
-- see them: an interface, `Tables`, with the documented effect of each statement, `TablesLaws`.
use tarea_integracion_sistem.Prelude.{
  ℕ, ◌≡◌, ◌≤◌, All, length, Bool, true, false, List, [], ◌∷◌, Option, none, some, map,
  if◌then◌else◌,
}
use tarea_integracion_sistem.Prelude.Result.{Result, ok, err}
use tarea_integracion_sistem.Text.{Text, text, text_eq, contains}
use tarea_integracion_sistem.Js.{Date}
use tarea_integracion_sistem.Sort.{sort_by}
use tarea_integracion_sistem.Sales.Errors.{Exception, database}
use tarea_integracion_sistem.Sales.Orders.Views.{
  Json, OrderRow, OrderItemRow, OrderStatus, confirmed, cancelled,
}

pub data IdempotencyState : Type 0 where
  in_progress confirmed_key failed_key compensating : IdempotencyState

-- A row of `idempotency_requests`.
pub record IdempotencyRequest : Type 0 where
  pub key : Text
  pub request_hash : Text
  pub order_id : Text
  pub state : IdempotencyState
  pub response_status : Option ℕ
  pub response_body : Option Json

-- The data of `order.create`.
pub record NewOrder : Type 0 where
  pub id : Text
  pub customer_id : Text
  pub items : List OrderItemRow

-- The row that `order.create` makes: confirmed, at the database's time, its items in the order of
-- their parts.
abbrev pub created_order : Date → NewOrder → OrderRow
created_order now new = record {
  id = new.id;
  customer_id = new.customer_id;
  status = confirmed;
  items = sort_by (λ i. i.part_id) new.items;
  created_at = now;
  updated_at = now;
  cancelled_at = none;
}

-- The row after a cancellation: the time that the service gives, and Prisma's own for `@updatedAt`.
abbrev pub cancelled_order : (cancelled_at updated_at : Date) → OrderRow → OrderRow
cancelled_order cancelled_at updated_at order = record order {
  status = cancelled;
  updated_at = updated_at;
  cancelled_at = some cancelled_at;
}

-- The filter, the page and its size, of `order.findMany` and `order.count`.
pub record OrderWhere : Type 0 where
  pub status : Option OrderStatus
  pub customer_id : Option Text

pub record Tables : Type 1 where
  pub Db : Type 0
  -- `idempotencyRequest.findUnique`
  pub find_request : Text → Db → Option IdempotencyRequest
  -- `idempotencyRequest.create`
  pub create_request : IdempotencyRequest → Db → Result Exception Db
  -- `idempotencyRequest.update` of the row under a key: the row's new value
  pub update_request : Text → IdempotencyRequest → Db → Result Exception Db
  -- `order.findUnique` with `ORDER_INCLUDE`
  pub find_order : Text → Db → Option OrderRow
  -- `customer.findUnique({ select: { id: true } })`
  pub has_customer : Text → Db → Bool
  pub create_order : Date → NewOrder → Db → Result Exception (OrderRow × Db)
  -- `order.update({ data: { status: 'CANCELLED', cancelledAt } })`
  pub cancel_order : Text → (cancelled_at updated_at : Date) → Db → Result Exception (OrderRow × Db)
  pub count_orders : OrderWhere → Db → ℕ
  -- newest first: the rows after the first `skip`, at most `take` of them
  pub list_orders : OrderWhere → (skip take : ℕ) → Db → List OrderRow

-- No text stands twice, and none is among those seen.
abbrev pub IsFresh : List Text → List Text → Type 0
IsFresh seen [] = Unit
IsFresh seen (k ∷ ks) = (contains k seen ≡ false) × IsFresh (k ∷ seen) ks

-- The rows fit the columns: the check of the quantity, VARCHAR(40) and VARCHAR(120).
abbrev pub AreStorable : List OrderItemRow → Type 0
AreStorable = All (λ i.
    (1 ≤ i.quantity)
    × (i.quantity ≤ 999)
    × (length i.part_sku_snapshot ≤ 40)
    × (length i.part_name_snapshot ≤ 120))

pub record TablesLaws (t : Tables) : Type 1 where
  -- the primary key
  pub create_request_taken :
      (new old : IdempotencyRequest) (db : t.Db)
      → t.find_request new.key db ≡ some old
      → t.create_request new db ≡ err (database (text "P2002"))
  -- a new key, with an order id of its own, a key of VARCHAR(128) and a hash of CHAR(64)
  pub create_request_law :
      (new : IdempotencyRequest) (db : t.Db)
      → t.find_request new.key db ≡ none
      → ((k : Text) (old : IdempotencyRequest)
          → t.find_request k db ≡ some old
          → text_eq old.order_id new.order_id ≡ false)
      → length new.key ≤ 128
      → length new.request_hash ≡ 64
      → (db' : t.Db) × (t.create_request new db ≡ ok db')
        × ((j : Text)
            → t.find_request j db' ≡ (if text_eq new.key j then some new else t.find_request j db))
        × ((j : Text) → t.find_order j db' ≡ t.find_order j db)
        × ((c : Text) → t.has_customer c db' ≡ t.has_customer c db)
  pub update_request_law :
      (k : Text) (old new : IdempotencyRequest) (db : t.Db)
      → t.find_request k db ≡ some old
      → (db' : t.Db) × (t.update_request k new db ≡ ok db')
        × ((j : Text)
            → t.find_request j db' ≡ (if text_eq k j then some new else t.find_request j db))
        × ((j : Text) → t.find_order j db' ≡ t.find_order j db)
        × ((c : Text) → t.has_customer c db' ≡ t.has_customer c db)
  pub cancel_order_law :
      (id : Text) (now updated_at : Date) (order : OrderRow) (db : t.Db)
      → t.find_order id db ≡ some order
      → (db' : t.Db) × (t.cancel_order id now updated_at db
          ≡ ok (cancelled_order now updated_at order, db'))
        × ((j : Text)
            → t.find_order j db' ≡ (
                if text_eq id j
                then some (cancelled_order now updated_at order)
                else t.find_order j db))
  pub create_order_law :
      (now : Date) (new : NewOrder) (db : t.Db)
      → t.find_order new.id db ≡ none
      → t.has_customer new.customer_id db ≡ true
      → IsFresh [] (map (λ i. i.part_id) new.items)
      → AreStorable new.items
      → (db' : t.Db) × (t.create_order now new db ≡ ok (created_order now new, db'))
        × ((j : Text)
            → t.find_order j db'
              ≡ (if text_eq new.id j then some (created_order now new) else t.find_order j db))
        × ((k : Text) → t.find_request k db' ≡ t.find_request k db)
