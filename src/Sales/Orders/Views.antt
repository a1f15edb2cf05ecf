-- ===== src/Sales/Orders/Views.antt =====
-- apps/sales-api/src/orders/order.mapper.ts, and the stored responses of orders.service.ts: what a request
-- is answered with, kept as JSON under its key, and read back. The text of a date and its reading
-- are parameters, which the language's `toISOString` and `new Date` are.
pub mod Restoring
use tarea_integracion_sistem.Prelude.{ℕ, List, [], ◌∷◌, map, Option, none, some, if◌then◌else◌}
use tarea_integracion_sistem.Text.{Text, text, text_eq}
use tarea_integracion_sistem.Js.{Date, at, invalid}
use tarea_integracion_sistem.Sales.Errors.{ApiError, api_error, internal_failure}

pub data OrderStatus : Type 0 where
  confirmed cancelled : OrderStatus

pub record OrderItemRow : Type 0 where
  pub part_id : Text
  pub part_sku_snapshot : Text
  pub part_name_snapshot : Text
  pub quantity : ℕ

-- A row of `orders` with its items in the order of their parts.
pub record OrderRow : Type 0 where
  pub id : Text
  pub customer_id : Text
  pub status : OrderStatus
  pub items : List OrderItemRow
  pub created_at : Date
  pub updated_at : Date
  pub cancelled_at : Option Date

pub record OrderItemView : Type 0 where
  pub part_id : Text
  pub sku : Text
  pub name : Text
  pub quantity : ℕ

pub record OrderView : Type 0 where
  pub id : Text
  pub customer_id : Text
  pub status : OrderStatus
  pub items : List OrderItemView
  pub created_at : Date
  pub updated_at : Date
  pub cancelled_at : Option Date

abbrev pub item_view : OrderItemRow → OrderItemView
item_view item = record {
  part_id = item.part_id;
  sku = item.part_sku_snapshot;
  name = item.part_name_snapshot;
  quantity = item.quantity;
}

abbrev pub to_order_view : OrderRow → OrderView
to_order_view order = record {
  id = order.id;
  customer_id = order.customer_id;
  status = order.status;
  items = map item_view order.items;
  created_at = order.created_at;
  updated_at = order.updated_at;
  cancelled_at = order.cancelled_at;
}

-- A column of JSON.
mutual
  pub data Json : Type 0 where
    json_null : Json
    json_number : ℕ → Json
    json_text : Text → Json
    json_list : JsonList → Json
    json_object : JsonFields → Json

  pub data JsonList : Type 0 where
    no_elements : JsonList
    element : Json → JsonList → JsonList

  pub data JsonFields : Type 0 where
    no_fields : JsonFields
    field : Text → Json → JsonFields → JsonFields

unfoldable pub get_field : Text → JsonFields → Option Json
get_field name no_fields = none
get_field name (field n value fields) = if text_eq n name then some value else get_field name fields

abbrev pub text_field : Option Json → Option Text
text_field (some (json_text t)) = some t
text_field _ = none

-- The fields of a body that is an object, none of any other.
abbrev pub fields_of : Option Json → JsonFields
fields_of (some (json_object fields)) = fields
fields_of _ = no_fields

abbrev pub or_500 : Option ℕ → ℕ
or_500 none = 500
or_500 (some status) = status

abbrev failure_of : Option ℕ → Option Text → Option Text → ApiError
failure_of status (some code) (some message) = api_error (or_500 status) code message
failure_of status _ _ = internal_failure

-- `storedFailure`. A body that is no object has no fields, so that both give the fallback.
unfoldable pub stored_failure : Option ℕ → Option Json → ApiError
unfolding get_field
stored_failure status body =
    failure_of status (text_field (get_field (text "code") (fields_of body)))
      (text_field (get_field (text "message") (fields_of body)))

-- `{ code: error.code, message: error.message }`
abbrev pub failure_body : ApiError → Json
failure_body error = json_object (
    field (text "code") (json_text error.code)
      (field (text "message") (json_text error.message) no_fields))

abbrev item_bodies : List OrderItemView → JsonList
item_bodies [] = no_elements
item_bodies (item ∷ items) =
    element
      (json_object (
        field (text "partId") (json_text item.part_id) (
          field (text "sku") (json_text item.sku) (
            field (text "name") (json_text item.name)
              (field (text "quantity") (json_number item.quantity) no_fields)))))
      (item_bodies items)

module _ (to_iso_string : Date → Text) where
  -- `createResponseBody`
  unfoldable pub create_response_body : OrderView → Json
  create_response_body order = json_object (
      field (text "id") (json_text order.id) (
        field (text "customerId") (json_text order.customer_id) (
          field (text "status") (json_text (text "CONFIRMED")) (
            field (text "items") (json_list (item_bodies order.items)) (
              field (text "createdAt") (json_text (to_iso_string order.created_at)) (
                field (text "updatedAt") (json_text (to_iso_string order.updated_at))
                  (field (text "cancelledAt") json_null no_fields)))))))

module _ (new_date : Text → Date) where
  abbrev date_or : Date → Date → Date
  date_or fallback (at millis) = at millis
  date_or fallback invalid = fallback

  abbrev pub parse_date : Option Text → Date → Date
  parse_date none fallback = fallback
  parse_date (some value) fallback = date_or fallback (new_date value)

  -- `restoreCreateResponse`
  unfoldable pub restore_create_response : Option Json → OrderView → OrderView
  unfolding get_field
  restore_create_response body current = record current {
    status = confirmed;
    created_at =
        parse_date (text_field (get_field (text "createdAt") (fields_of body))) current.created_at;
    updated_at =
        parse_date (text_field (get_field (text "updatedAt") (fields_of body))) current.created_at;
    cancelled_at = none;
  }
