-- ===== src/Sales/Orders/Service/Requests.antt =====
-- The pure parts of apps/sales-api/src/orders/orders.service.ts: the normal form and the fingerprint of a
-- request, the test of its key, the classes of failures, and the comparison of an answer of the
-- inventory with the request.
use tarea_integracion_sistem.Prelude.{
  ℕ, Bool, true, false, ◌&&◌, ◌||◌, List, [], ◌∷◌, map, Option, none, some, leb, ◌==◌, length,
  if◌then◌else◌,
}
use tarea_integracion_sistem.Prelude.Result.{Result, ok, err}
use tarea_integracion_sistem.Text.{Text, text, text_eq, to_lower_case, decimal, all_units}
use tarea_integracion_sistem.Json.{json_string, json_array, json_fields}
use tarea_integracion_sistem.Js.{map_get}
use tarea_integracion_sistem.Sort.{sort_by}
use tarea_integracion_sistem.Sales.Errors.{
  ApiError, api_error, internal_failure, Exception, api, database, other,
}
use tarea_integracion_sistem.Sales.Gateway.{ReserveStockItem, ReservedStockItem}
use tarea_integracion_sistem.Sales.Orders.Views.{OrderView}

pub record OrderCreate : Type 0 where
  pub customer_id : Text
  pub items : List ReserveStockItem

pub record CreateOrderSuccess : Type 0 where
  pub order : OrderView
  pub replayed : Bool

pub data CreateOrderOutcome : Type 0 where
  success : CreateOrderSuccess → CreateOrderOutcome
  failure : ApiError → CreateOrderOutcome

abbrev fold_item : ReserveStockItem → ReserveStockItem
fold_item item = record item { part_id = to_lower_case item.part_id }

unfoldable pub normalize_items : List ReserveStockItem → List ReserveStockItem
normalize_items items = sort_by (λ i. i.part_id) (map fold_item items)

abbrev item_text : ReserveStockItem → Text
item_text item =
    json_fields
      ((text "partId", json_string item.part_id) ∷ (text "quantity", decimal item.quantity) ∷ [])

unfoldable pub hash_request : (Text → Text) → Text → List ReserveStockItem → Text
hash_request sha256_hex customer_id items = sha256_hex (
    json_fields (
      (text "customerId", json_string (to_lower_case customer_id))
      ∷ (text "items", json_array (map item_text items))
      ∷ []))

abbrev pub is_unique_violation : Exception → Bool
is_unique_violation (database code) = text_eq code (text "P2002")
is_unique_violation _ = false

abbrev pub public_inventory_error : Exception → ApiError
public_inventory_error (api e) = e
public_inventory_error _ = internal_failure

-- A failure after which the inventory may hold the reservation.
abbrev pub ambiguous_failure : Exception → Bool
ambiguous_failure (api e) = leb 500 e.status
ambiguous_failure _ = true

mismatch : Exception
mismatch = other (text "Inventory reservation result did not match request")

abbrev matches : Option ReservedStockItem → ℕ → Bool
matches none quantity = false
matches (some snapshot) quantity = snapshot.quantity == quantity

abbrev pub all_match : List ReservedStockItem → List ReserveStockItem → Bool
all_match reserved [] = true
all_match reserved (item ∷ items) =
    matches (map_get (λ (r : ReservedStockItem). to_lower_case r.part_id) item.part_id reserved)
      item.quantity
    && all_match reserved items

unfoldable pub assert_reservation_matches :
    List ReserveStockItem → List ReservedStockItem → Result Exception (Unit {0})
unfolding mismatch
assert_reservation_matches requested reserved =
    if length requested == length reserved && all_match reserved requested
    then ok tt
    else err mismatch

abbrev key_unit : ℕ → Bool
key_unit c =
    (leb b'A' c && leb c b'Z')
    || (leb b'a' c && leb c b'z')
    || (leb b'0' c && leb c b'9')
    || c == b'.'
    || c == b'_'
    || c == b':'
    || c == b'-'

unfoldable pub is_valid_key : Text → Bool
is_valid_key key = leb 8 (length key) && leb (length key) 128 && all_units key_unit key

pub invalid_key : ApiError
invalid_key = record (api_error 400 (text "VALIDATION_ERROR") (text "Request validation failed")) {
  details = some (
      record {
        field = text "Idempotency-Key";
        reason = text "must match the required 8–128 character format";
      }
      ∷ []);
}

abbrev pub key_conflict : ApiError
key_conflict =
    api_error 409 (text "IDEMPOTENCY_KEY_CONFLICT")
      (text "This Idempotency-Key was already used with a different request payload")

abbrev pub customer_not_found : ApiError
customer_not_found = api_error 404 (text "CUSTOMER_NOT_FOUND") (text "Customer not found")

abbrev pub order_not_found : ApiError
order_not_found = api_error 404 (text "ORDER_NOT_FOUND") (text "Order not found")
