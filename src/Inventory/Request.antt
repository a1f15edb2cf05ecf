-- ===== src/Inventory/Request.antt =====
-- apps/inventory-grpc/src/stock/stock-request.ts: the validation of the two mutating requests and
-- the fingerprint of a reservation. The hash function, which is the platform's, is a parameter.
pub mod Parsing
pub mod Accepting
pub mod Fingerprint
use tarea_integracion_sistem.Prelude.{
  ℕ, suc, Bool, List, [], ◌∷◌, ◌++◌, map, Option, none, some, ltb, length, ◌==◌, ◌||◌,
  if◌then◌else◌,
}
use tarea_integracion_sistem.Prelude.Int.{ℤ, pos, negsuc}
use tarea_integracion_sistem.Prelude.Result.{Result, ok, err, throw_if, ◌>>=◌, ◌>>◌}
use tarea_integracion_sistem.Text.{Text, text, to_lower_case, contains, decimal}
use tarea_integracion_sistem.Json.{json_string, json_array}
use tarea_integracion_sistem.Sort.{sort_by}
use tarea_integracion_sistem.Inventory.Uuid.{is_uuid}
use tarea_integracion_sistem.Inventory.Errors.{InventoryError, invalid_argument}

abbrev pub max_items_per_order : ℕ
max_items_per_order = 50

abbrev pub min_quantity : ℕ
min_quantity = 1

abbrev pub max_quantity : ℕ
max_quantity = 999

-- The messages of the contract, as the handlers may receive them. A `part_id` or `order_id` is
-- `none` where it is no string, a quantity is `none` where it is no integer, and the items are
-- `none` where the field is missing.
pub record StockItemRequest : Type 0 where
  pub part_id : Option Text
  pub quantity : Option ℤ

pub record ReserveStockRequest : Type 0 where
  pub order_id : Option Text
  pub items : Option (List StockItemRequest)

pub record ReleaseStockRequest : Type 0 where
  pub order_id : Option Text

pub record ReserveItem : Type 0 where
  pub part_id : Text
  pub quantity : ℕ

-- A validated reservation: identifiers in lower case, items in the order of the request.
pub record ReserveCommand : Type 0 where
  pub order_id : Text
  pub items : List ReserveItem

-- The narrowing that `isUuid` makes, and the folding of what it lets through.
uuid_value : Bool → Option Text → Text → Result InventoryError Text
uuid_value Bool.true (some value) field = ok (to_lower_case value)
uuid_value _ _ field = err (invalid_argument (field ++ text " must be a UUID"))

unfoldable pub parse_uuid : Option Text → Text → Result InventoryError Text
unfolding uuid_value
parse_uuid value field = uuid_value (is_uuid value) value field

abbrev item_field : ℕ → Text → Text
item_field index rest = text "items[" ++ (decimal index ++ rest)

quantity_error : ℕ → InventoryError
quantity_error index = invalid_argument (
    item_field index (
      text "].quantity must be between "
      ++ (decimal min_quantity ++ (text " and " ++ decimal max_quantity))))

-- `Number.isInteger` and the two bounds; what passes is a natural number.
unfoldable pub parse_quantity : ℕ → Option ℤ → Result InventoryError ℕ
unfolding quantity_error
parse_quantity index none = err (quantity_error index)
parse_quantity index (some (negsuc n)) = err (quantity_error index)
parse_quantity index (some (pos n)) =
    if ltb n min_quantity || ltb max_quantity n then err (quantity_error index) else ok n

-- The body of `rawItems.map`, with the set of the parts seen so far.
unfoldable pub parse_items :
    ℕ → List Text → List StockItemRequest → Result InventoryError (List ReserveItem)
unfolding parse_uuid parse_quantity
parse_items index seen [] = ok []
parse_items index seen (item ∷ items) = do
  part_id ← parse_uuid item.part_id (item_field index (text "].part_id"))
  throw_if (contains part_id seen)
      (invalid_argument (item_field index (text "].part_id is duplicated")))
  quantity ← parse_quantity index item.quantity
  rest ← parse_items (suc index) (part_id ∷ seen) items
  ok (record { part_id = part_id; quantity = quantity } ∷ rest)

-- `request.items ?? []`
abbrev pub raw_items : Option (List StockItemRequest) → List StockItemRequest
raw_items none = []
raw_items (some items) = items

unfoldable pub parse_reserve_request : ReserveStockRequest → Result InventoryError ReserveCommand
parse_reserve_request request = do
  order_id ← parse_uuid request.order_id (text "order_id")
  throw_if (length (raw_items request.items) == 0)
      (invalid_argument (text "items must not be empty"))
  throw_if (ltb max_items_per_order (length (raw_items request.items))) (
      invalid_argument
        (text "items must contain at most " ++ (decimal max_items_per_order ++ text " parts")))
  items ← parse_items 0 [] (raw_items request.items)
  ok (record { order_id = order_id; items = items })

unfoldable pub parse_release_request : ReleaseStockRequest → Result InventoryError Text
parse_release_request request = parse_uuid request.order_id (text "order_id")

abbrev canonical_item : ReserveItem → Text
canonical_item item = json_array (json_string item.part_id ∷ decimal item.quantity ∷ [])

-- The text that is hashed: the items in the order of their parts.
unfoldable pub canonical : List ReserveItem → Text
canonical items = json_array (map canonical_item (sort_by (λ i. i.part_id) items))

unfoldable pub request_fingerprint : (Text → Text) → List ReserveItem → Text
unfolding canonical
request_fingerprint sha256_hex items = sha256_hex (canonical items)
