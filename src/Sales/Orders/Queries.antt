-- ===== src/Sales/Orders/Queries.antt =====
-- apps/sales-api/src/orders/orders.service.ts: the listing, the reading and the cancellation of orders.
pub mod Cancelling
use tarea_integracion_sistem.Prelude.{ℕ, ◌-◌, ◌*◌, List, map, Option, none, some}
use tarea_integracion_sistem.Prelude.Result.{Result, ok, err, or_throw}
use tarea_integracion_sistem.Prelude.Act.{pure, throw, attempt, ◌>>=◌, ◌>>◌}
use tarea_integracion_sistem.Prelude.Tx.{Fate}
use tarea_integracion_sistem.Text.{Text, to_lower_case}
use tarea_integracion_sistem.Sales.Errors.{Exception, api, internal_failure}
use tarea_integracion_sistem.Sales.Gateway.{InventoryGateway}
use tarea_integracion_sistem.Sales.Orders.Views.{
  OrderRow, OrderView, OrderStatus, confirmed, cancelled, to_order_view,
}
use tarea_integracion_sistem.Sales.Orders.Tables.{Tables, OrderWhere}
use tarea_integracion_sistem.Sales.Orders.Service.{
  Environment, World, Service, call_release, in_transaction, order_not_found,
}

pub record OrderListQuery : Type 0 where
  pub page : Option ℕ
  pub page_size : Option ℕ
  pub status : Option OrderStatus
  pub customer_id : Option Text

pub record OrderPage : Type 0 where
  pub page : ℕ
  pub page_size : ℕ
  pub total : ℕ
  pub items : List OrderView

abbrev or_number : Option ℕ → ℕ → ℕ
or_number none default_number = default_number
or_number (some n) default_number = n

abbrev fold_customer : Option Text → Option Text
fold_customer none = none
fold_customer (some id) = some (to_lower_case id)

module _ (tables : Tables) {Remote : Type 0} (gateway : InventoryGateway Remote)
    (env : Environment) where
  open tables use {Db}

  abbrev Own : Type 0 → Type 0
  Own A = Service tables gateway env A

  -- The page is at least 1: the query was validated.
  unfoldable pub list : OrderListQuery → Own OrderPage
  list query w =
      let page = or_number query.page 1 in
      let page_size = or_number query.page_size 20 in
      let filter : OrderWhere = record {
        status = query.status;
        customer_id = fold_customer query.customer_id;
      } in
      (
        ok (record {
          page = page;
          page_size = page_size;
          total = tables.count_orders filter w.db;
          items =
              map to_order_view (tables.list_orders filter ((page - 1) * page_size) page_size w.db);
        }),
        w,
      )

  -- `order.findUnique`, and the 404 where there is none
  unfoldable pub find_or_404 : Text → Own OrderRow
  find_or_404 id w = (or_throw (api order_not_found) (tables.find_order id w.db), w)

  unfoldable pub get : Text → Own OrderView
  get order_id = find_or_404 (to_lower_case order_id) >>= λ order. pure (to_order_view order)

  abbrev updated :
      World Db Remote
      → Result Exception (OrderRow × Db)
      → Result Exception OrderRow × World Db Remote
  updated w (ok (order, db)) = (ok order, record w { db = db })
  updated w (err e) = (err e, w)

  unfoldable pub cancel_row : Text → Own OrderRow
  cancel_row id w = updated w (tables.cancel_order id env.now env.updated_at w.db)

  cancel_locked : Text → OrderStatus → OrderRow → Own OrderView
  cancel_locked id cancelled locked = pure (to_order_view locked)
  cancel_locked id confirmed locked = cancel_row id >>= λ order. pure (to_order_view order)

  -- The transaction of `cancel`.
  unfoldable pub cancel_body : Text → Own OrderView
  unfolding cancel_locked
  cancel_body id = find_or_404 id >>= λ locked. cancel_locked id locked.status locked

  abbrev pub persisted_or_500 : Result Exception OrderView → Own OrderView
  persisted_or_500 (ok view) = pure view
  persisted_or_500 (err e) = throw (api internal_failure)

  cancel_current : Fate Exception → Text → OrderStatus → OrderRow → Own OrderView
  cancel_current fate id cancelled current = pure (to_order_view current)
  cancel_current fate id confirmed current =
      call_release tables gateway env id
      >> (attempt (in_transaction tables gateway env fate (cancel_body id)) >>= persisted_or_500)

  unfoldable pub cancel : Fate Exception → Text → Own OrderView
  unfolding cancel_current
  cancel fate order_id = find_or_404 (to_lower_case order_id) >>= λ current.
      cancel_current fate (to_lower_case order_id) current.status current
