-- ===== src/Inventory/Status.antt =====
-- apps/inventory-grpc/src/grpc/grpc-error.filter.ts: the one place where an exception becomes a gRPC
-- status.
use tarea_integracion_sistem.Prelude.Result.{Result, ok, err}
use tarea_integracion_sistem.Text.{text}
use tarea_integracion_sistem.Grpc.{GrpcStatus, GrpcExceptionBody}
use tarea_integracion_sistem.Inventory.Errors.{
  Exception, inventory, grpc, unexpected, InventoryError, message,
}

-- `STATUS_BY_ERROR`
abbrev pub status_by_error : InventoryError → GrpcStatus
status_by_error (InventoryError.invalid_argument m) = GrpcStatus.invalid_argument
status_by_error (InventoryError.part_not_found id) = GrpcStatus.not_found
status_by_error (InventoryError.parts_not_found ids) = GrpcStatus.not_found
status_by_error (InventoryError.insufficient_stock ss) = GrpcStatus.failed_precondition
status_by_error (InventoryError.order_id_conflict id) = GrpcStatus.already_exists
status_by_error (InventoryError.reservation_not_found id) = GrpcStatus.not_found
status_by_error (InventoryError.reservation_already_released id) = GrpcStatus.failed_precondition

abbrev pub internal_error : GrpcExceptionBody
internal_error = record { code = GrpcStatus.internal; message = text "Internal error" }

abbrev pub to_grpc_error : Exception → GrpcExceptionBody
to_grpc_error (inventory e) = record { code = status_by_error e; message = message e }
to_grpc_error (grpc body) = body
to_grpc_error (unexpected m) = internal_error

-- `GrpcErrorFilter`, around a handler.
abbrev pub catch_error : {A : Type 0} → Result Exception A → Result GrpcExceptionBody A
catch_error (ok a) = ok a
catch_error (err e) = err (to_grpc_error e)
