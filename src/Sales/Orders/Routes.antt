-- ===== src/Sales/Orders/Routes.antt =====
-- apps/sales-api/src/orders/orders.controller.ts: the route that creates an order, with the headers of
-- its response. The pipes and decorators of the framework are not here: the body is the validated one.
pub mod Retrying
use tarea_integracion_sistem.Prelude.{Bool, true, false, Option, ◌++◌}
use tarea_integracion_sistem.Prelude.Result.{Result, ok, err}
use tarea_integracion_sistem.Text.{Text, text}
use tarea_integracion_sistem.Sales.Errors.{Exception}
use tarea_integracion_sistem.Sales.Gateway.{InventoryGateway}
use tarea_integracion_sistem.Sales.Orders.Views.{OrderView}
use tarea_integracion_sistem.Sales.Orders.Tables.{Tables}
use tarea_integracion_sistem.Sales.Orders.Service.{
  OrderCreate, CreateOrderSuccess, Environment, World, Service, create,
}

-- The response: its two headers and its body.
pub record CreatedResponse : Type 0 where
  pub location : Text
  pub idempotency_replayed : Text
  pub order : OrderView

-- `String(value)`
abbrev bool_text : Bool → Text
bool_text true = text "true"
bool_text false = text "false"

abbrev pub response_of : CreateOrderSuccess → CreatedResponse
response_of result = record {
  location = text "/v1/orders/" ++ result.order.id;
  idempotency_replayed = bool_text result.replayed;
  order = result.order;
}

module _ (tables : Tables) {Remote : Type 0} (gateway : InventoryGateway Remote)
    (env : Environment) where
  abbrev pub responded :
      Result Exception CreateOrderSuccess × World tables.Db Remote
      → Result Exception CreatedResponse × World tables.Db Remote
  responded (ok result, w) = (ok (response_of result), w)
  responded (err e, w) = (err e, w)

  -- `OrdersController.create`
  unfoldable pub post_order : OrderCreate → Option Text → Service tables gateway env CreatedResponse
  post_order body idempotency_key w = responded (create tables gateway env body idempotency_key w)
