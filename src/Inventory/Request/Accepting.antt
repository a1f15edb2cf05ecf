-- ===== src/Inventory/Request/Accepting.antt =====
-- The validation accepts the message of every valid command, and reads the command back.
use tarea_integracion_sistem.Prelude.{
  ℕ, suc, ◌≤◌, ◌≡◌, refl, List, [], ◌∷◌, map, some, arith, length-map, All,
}
use tarea_integracion_sistem.Prelude.Int.{pos}
use tarea_integracion_sistem.Prelude.Result.{ok}
use tarea_integracion_sistem.Text.{Text, text}
use tarea_integracion_sistem.Inventory.Uuid.{is_uuid}
use tarea_integracion_sistem.Inventory.Request.{
  ReserveItem, ReserveCommand, StockItemRequest, ReserveStockRequest, parse_uuid, parse_quantity,
  parse_items, uuid_value, parse_reserve_request, parse_release_request,
}
use tarea_integracion_sistem.Inventory.Request.Parsing.{
  IsFolded, IsFresh, IsValidItem, IsValidCommand, part_ids,
}

abbrev pub item_message : ReserveItem → StockItemRequest
item_message item = record { part_id = some item.part_id; quantity = some (pos item.quantity) }

abbrev pub command_message : ReserveCommand → ReserveStockRequest
command_message command = record {
  order_id = some command.order_id;
  items = some (map item_message command.items);
}

parse_uuid-folded : (id field : Text) → IsFolded id → parse_uuid (some id) field ≡ ok id
unfolding parse_uuid uuid_value is_uuid
parse_uuid-folded id field (shape, folded) = rw (shape, folded) refl

parse_quantity-valid : (index n : ℕ) → 1 ≤ n → n ≤ 999 → parse_quantity index (some (pos n)) ≡ ok n
unfolding parse_quantity
parse_quantity-valid index n low high = ground arith

parse_items-valid :
    (index : ℕ) (seen : List Text) (items : List ReserveItem)
    → All IsValidItem items
    → IsFresh seen (part_ids items)
    → parse_items index seen (map item_message items) ≡ ok items
unfolding parse_items
parse_items-valid index seen [] v d = refl
parse_items-valid index seen (i ∷ is) ((folded, low, high), v) (new, d) =
    rw
      (
        parse_uuid-folded i.part_id _ folded,
        new,
        parse_quantity-valid index i.quantity low high,
        parse_items-valid (suc index) (i.part_id ∷ seen) is v d,
      )
      refl

-- The message of a valid command is accepted, and read back as the command.
pub parse_reserve_request-command_message :
    (command : ReserveCommand)
    → IsValidCommand command
    → parse_reserve_request (command_message command) ≡ ok command
unfolding parse_reserve_request
parse_reserve_request-command_message command valid =
    let len = length-map item_message command.items in
    rw
      (
        parse_uuid-folded command.order_id (text "order_id") valid.order,
        parse_items-valid 0 [] command.items valid.items valid.distinct,
      )
      (ground (arith, len, valid.some_items, valid.few_items))

pub parse_release_request-folded :
    (order_id : Text)
    → IsFolded order_id
    → parse_release_request (record { order_id = some order_id }) ≡ ok order_id
unfolding parse_release_request
parse_release_request-folded order_id folded = parse_uuid-folded order_id (text "order_id") folded
