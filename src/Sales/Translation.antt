-- ===== src/Sales/Translation.antt =====
-- apps/sales-api/src/inventory/inventory-error.ts: what a failed call of the inventory becomes for the
-- caller of the sales service.
pub mod EndToEnd
use tarea_integracion_sistem.Prelude.{ℕ, Option, none, some}
use tarea_integracion_sistem.Text.{Text, text}
use tarea_integracion_sistem.Grpc.{GrpcStatus}
use tarea_integracion_sistem.Sales.Errors.{ApiError, api_error}

pub data InventoryOperation : Type 0 where
  reserve release read : InventoryOperation

pub record ErrorMapping : Type 0 where
  pub status : ℕ
  pub code : Text
  pub message : Text

abbrev pub internal_mapping : ErrorMapping
internal_mapping = record {
  status = 500;
  code = text "INTERNAL_ERROR";
  message = text "An unexpected internal error occurred";
}

abbrev pub validation_mapping : ErrorMapping
validation_mapping = record {
  status = 400;
  code = text "VALIDATION_ERROR";
  message = text "Request validation failed";
}

abbrev pub part_not_found_mapping : ErrorMapping
part_not_found_mapping = record {
  status = 422;
  code = text "PART_NOT_FOUND";
  message = text "One or more requested parts do not exist";
}

abbrev pub insufficient_stock_mapping : ErrorMapping
insufficient_stock_mapping = record {
  status = 409;
  code = text "INSUFFICIENT_STOCK";
  message = text "One or more parts do not have enough stock";
}

-- `SHARED`
abbrev pub shared : GrpcStatus → Option ErrorMapping
shared GrpcStatus.already_exists = some internal_mapping
shared GrpcStatus.unavailable = some (record {
  status = 503;
  code = text "INVENTORY_UNAVAILABLE";
  message = text "Inventory service is unavailable";
})
shared GrpcStatus.deadline_exceeded = some (record {
  status = 504;
  code = text "INVENTORY_TIMEOUT";
  message = text "Inventory service did not respond before the deadline";
})
shared _ = none

-- `PER_OPERATION`
abbrev pub per_operation : InventoryOperation → GrpcStatus → Option ErrorMapping
per_operation reserve GrpcStatus.invalid_argument = some validation_mapping
per_operation reserve GrpcStatus.not_found = some part_not_found_mapping
per_operation reserve GrpcStatus.failed_precondition = some insufficient_stock_mapping
per_operation release GrpcStatus.invalid_argument = some internal_mapping
per_operation release GrpcStatus.not_found = some internal_mapping
per_operation release GrpcStatus.failed_precondition = some internal_mapping
per_operation read GrpcStatus.invalid_argument = some validation_mapping
per_operation read GrpcStatus.not_found = some part_not_found_mapping
per_operation read GrpcStatus.failed_precondition = some internal_mapping
per_operation _ _ = none

-- `a ?? b`
abbrev pub or_else : {A : Type 0} → Option A → Option A → Option A
or_else none b = b
or_else (some a) b = some a

abbrev pub or_default : {A : Type 0} → Option A → A → A
or_default none b = b
or_default (some a) b = a

-- A failed call, with its numeric `code` if it has one.
pub record Failure : Type 0 where
  pub code : Option GrpcStatus

abbrev pub mapping_of : Option GrpcStatus → InventoryOperation → ErrorMapping
mapping_of none operation = internal_mapping
mapping_of (some status) operation =
    or_default (or_else (per_operation operation status) (shared status)) internal_mapping

unfoldable pub to_inventory_api_error : Failure → InventoryOperation → ApiError
to_inventory_api_error error operation =
    let mapping = mapping_of error.code operation in
    api_error mapping.status mapping.code mapping.message
