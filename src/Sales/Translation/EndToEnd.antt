-- ===== src/Sales/Translation/EndToEnd.antt =====
-- What the caller of the sales service may learn of a failure in the inventory.
use tarea_integracion_sistem.Prelude.{ℕ, ◌≡◌, ◌⊎◌, inl, inr, refl, Option, none, some}
use tarea_integracion_sistem.Text.{Text}
use tarea_integracion_sistem.Grpc.{GrpcStatus}
use tarea_integracion_sistem.Inventory.Errors.{InventoryError}
use tarea_integracion_sistem.Inventory.Status.{to_grpc_error}
use tarea_integracion_sistem.Inventory.Errors
use tarea_integracion_sistem.Sales.Translation.{
  InventoryOperation, Failure, mapping_of, to_inventory_api_error, reserve, release, read,
}

-- The failure that the client of the inventory sees for an exception of a handler.
abbrev pub seen : Errors.Exception → Failure
seen e = record { code = some (to_grpc_error e).code }

abbrev IsServerError : ℕ → Type 0
IsServerError status = (status ≡ 500) ⊎ ((status ≡ 503) ⊎ (status ≡ 504))

release_mapping : (code : Option GrpcStatus) → IsServerError (mapping_of code release).status
release_mapping none = inl refl
release_mapping (some GrpcStatus.ok_status) = inl refl
release_mapping (some GrpcStatus.canceled) = inl refl
release_mapping (some GrpcStatus.unknown) = inl refl
release_mapping (some GrpcStatus.invalid_argument) = inl refl
release_mapping (some GrpcStatus.deadline_exceeded) = inr (inr refl)
release_mapping (some GrpcStatus.not_found) = inl refl
release_mapping (some GrpcStatus.already_exists) = inl refl
release_mapping (some GrpcStatus.permission_denied) = inl refl
release_mapping (some GrpcStatus.resource_exhausted) = inl refl
release_mapping (some GrpcStatus.failed_precondition) = inl refl
release_mapping (some GrpcStatus.aborted) = inl refl
release_mapping (some GrpcStatus.out_of_range) = inl refl
release_mapping (some GrpcStatus.unimplemented) = inl refl
release_mapping (some GrpcStatus.internal) = inl refl
release_mapping (some GrpcStatus.unavailable) = inr (inl refl)
release_mapping (some GrpcStatus.data_loss) = inl refl
release_mapping (some GrpcStatus.unauthenticated) = inl refl
release_mapping (some (GrpcStatus.unlisted n)) = inl refl

-- A failed release is never the caller's fault: whatever its status, the answer is 500, 503 or 504.
pub release_is_server_error :
    (failure : Failure)
    → let status = (to_inventory_api_error failure release).status in
      (status ≡ 500) ⊎ ((status ≡ 503) ⊎ (status ≡ 504))
unfolding to_inventory_api_error
release_is_server_error failure = release_mapping failure.code

-- The HTTP status with which the sales service answers for each error of the domain, by the call
-- in which it was raised.
abbrev pub expected : InventoryOperation → InventoryError → ℕ
expected reserve (InventoryError.invalid_argument m) = 400
expected reserve (InventoryError.part_not_found id) = 422
expected reserve (InventoryError.parts_not_found ids) = 422
expected reserve (InventoryError.insufficient_stock ss) = 409
expected reserve (InventoryError.order_id_conflict id) = 500
expected reserve (InventoryError.reservation_not_found id) = 422
expected reserve (InventoryError.reservation_already_released id) = 409
expected release e = 500
expected read (InventoryError.invalid_argument m) = 400
expected read (InventoryError.part_not_found id) = 422
expected read (InventoryError.parts_not_found ids) = 422
expected read (InventoryError.insufficient_stock ss) = 500
expected read (InventoryError.order_id_conflict id) = 500
expected read (InventoryError.reservation_not_found id) = 422
expected read (InventoryError.reservation_already_released id) = 500

domain_status :
    (operation : InventoryOperation) (e : InventoryError)
    → (mapping_of (seen (Errors.inventory e)).code operation).status ≡ expected operation e
domain_status reserve (InventoryError.invalid_argument m) = refl
domain_status reserve (InventoryError.part_not_found id) = refl
domain_status reserve (InventoryError.parts_not_found ids) = refl
domain_status reserve (InventoryError.insufficient_stock ss) = refl
domain_status reserve (InventoryError.order_id_conflict id) = refl
domain_status reserve (InventoryError.reservation_not_found id) = refl
domain_status reserve (InventoryError.reservation_already_released id) = refl
domain_status release (InventoryError.invalid_argument m) = refl
domain_status release (InventoryError.part_not_found id) = refl
domain_status release (InventoryError.parts_not_found ids) = refl
domain_status release (InventoryError.insufficient_stock ss) = refl
domain_status release (InventoryError.order_id_conflict id) = refl
domain_status release (InventoryError.reservation_not_found id) = refl
domain_status release (InventoryError.reservation_already_released id) = refl
domain_status read (InventoryError.invalid_argument m) = refl
domain_status read (InventoryError.part_not_found id) = refl
domain_status read (InventoryError.parts_not_found ids) = refl
domain_status read (InventoryError.insufficient_stock ss) = refl
domain_status read (InventoryError.order_id_conflict id) = refl
domain_status read (InventoryError.reservation_not_found id) = refl
domain_status read (InventoryError.reservation_already_released id) = refl

unexpected_status :
    (operation : InventoryOperation) (m : Text)
    → (mapping_of (seen (Errors.unexpected m)).code operation).status ≡ 500
unexpected_status reserve m = refl
unexpected_status release m = refl
unexpected_status read m = refl

-- Through both services: each error of the inventory domain, raised in each call, reaches the
-- caller of the sales service with the status of the table `expected`, and every exception outside
-- the domain that carries no status of its own reaches it as 500.
pub domain_error_status :
    (operation : InventoryOperation)
    → ((e : InventoryError)
        → (to_inventory_api_error (seen (Errors.inventory e)) operation).status
          ≡ expected operation e)
      × ((m : Text) → (to_inventory_api_error (seen (Errors.unexpected m)) operation).status ≡ 500)
unfolding to_inventory_api_error
domain_error_status operation = (λ e. domain_status operation e, λ m. unexpected_status operation m)
