-- ===== src/Sales/Gateway/Calls.antt =====
-- Each call of the gateway is one RPC, and fails only as the interface promises.
use tarea_integracion_sistem.Prelude.{
  ℕ, ◌+◌, ◌≤◌, ◌≡◌, ◌⊎◌, inl, inr, refl, Option, none, some, arith,
}
use tarea_integracion_sistem.Prelude.Result.{ok, err, ◌>>=◌}
use tarea_integracion_sistem.Text.{Text}
use tarea_integracion_sistem.Sales.Errors.{ApiError, Exception, api}
use tarea_integracion_sistem.Sales.Translation.{InventoryOperation, Failure, to_inventory_api_error}
use tarea_integracion_sistem.Sales.Translation.EndToEnd.{release_is_server_error}
use tarea_integracion_sistem.Sales.Gateway.{
  InventoryServiceClient, grpc_gateway, safe_trace_id, ReleaseStockResponse, settle,
  release_stock_rpc,
}

at_least_500 : (status : ℕ) → (status ≡ 500) ⊎ ((status ≡ 503) ⊎ (status ≡ 504)) → 500 ≤ status
at_least_500 status (inl e) = omega (arith, e)
at_least_500 status (inr (inl e)) = omega (arith, e)
at_least_500 status (inr (inr e)) = omega (arith, e)

rejected_release :
    (error : Option Failure) (response : Option ReleaseStockResponse) (e : Exception)
    → (settle release_stock_rpc error response >>= λ r. ok tt) ≡ err e
    → (a : ApiError) × (e ≡ api a) × (500 ≤ a.status)
rejected_release none (some response) e h = cc
rejected_release none none e h =
    let f : Failure = record { code = none } in
    (
      to_inventory_api_error f InventoryOperation.release,
      cc,
      at_least_500 _ (release_is_server_error f),
    )
rejected_release (some f) response e h = (
  to_inventory_api_error f InventoryOperation.release,
  cc,
  at_least_500 _ (release_is_server_error f),
)

-- A release that fails throws an `ApiError` of the server's, never one that blames the caller, and
-- whether it fails or not it is exactly one RPC, with the order's id, the trace id if that is safe
-- to log, and the configured deadline.
pub release_call :
    (World : Type 0) (client : InventoryServiceClient World) (now_ms deadline_ms : ℕ)
    (order_id trace_id : Text) (world : World)
    → let (result, after) =
        (grpc_gateway client now_ms deadline_ms).release order_id trace_id world in
      (after
        ≡ (client.ReleaseStock
            (record { order_id = order_id })
            (record { trace_metadata = safe_trace_id trace_id; deadline = now_ms + deadline_ms })
            world).1)
      × ((e : Exception) → result ≡ err e → (a : ApiError) × (e ≡ api a) × (500 ≤ a.status))
unfolding grpc_gateway
release_call World client now_ms deadline_ms order_id trace_id world =
    (refl, λ e h. rejected_release _ _ e h)
