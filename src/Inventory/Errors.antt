-- ===== src/Inventory/Errors.antt =====
-- apps/inventory-grpc/src/common/inventory-errors.ts: the errors of the inventory domain with the
-- texts that they carry, beside the exceptions that are no `InventoryError`.
use tarea_integracion_sistem.Prelude.{ℕ, List, ◌++◌, map}
use tarea_integracion_sistem.Text.{Text, text, join_comma, decimal}
use tarea_integracion_sistem.Grpc.{GrpcExceptionBody}

pub record StockShortage : Type 0 where
  pub part_id : Text
  pub requested : ℕ
  pub available : ℕ

pub data InventoryError : Type 0 where
  invalid_argument : (message : Text) → InventoryError
  part_not_found : (part_id : Text) → InventoryError
  parts_not_found : (part_ids : List Text) → InventoryError
  insufficient_stock : (shortages : List StockShortage) → InventoryError
  order_id_conflict : (order_id : Text) → InventoryError
  reservation_not_found : (order_id : Text) → InventoryError
  reservation_already_released : (order_id : Text) → InventoryError

abbrev describe_shortage : StockShortage → Text
describe_shortage s =
    s.part_id
    ++ text " (requested "
    ++ decimal s.requested
    ++ text ", available "
    ++ decimal s.available
    ++ text ")"

-- `error.message`
pub message : InventoryError → Text
message (invalid_argument m) = m
message (part_not_found id) = text "part " ++ id ++ text " not found"
message (parts_not_found ids) = text "parts not found: " ++ join_comma ids
message (insufficient_stock ss) =
    text "insufficient stock: " ++ join_comma (map describe_shortage ss)
message (order_id_conflict id) =
    text "order " ++ id ++ text " already has a reservation with a different payload"
message (reservation_not_found id) = text "no reservation found for order " ++ id
message (reservation_already_released id) =
    text "reservation for order " ++ id ++ text " was already released"

-- What a handler may throw: an `InventoryError`, a `GrpcException` of the framework, or any other
-- error, with its message (a `TypeError`, an error of Prisma or of the database).
pub data Exception : Type 0 where
  inventory : InventoryError → Exception
  grpc : GrpcExceptionBody → Exception
  unexpected : (message : Text) → Exception
