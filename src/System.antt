-- ===== src/System.antt =====
-- The two services together: the client of the sales service (its messages are those of
-- contracts/grpc/repuestossur/inventory/v1/inventory.proto, which both services load) and the handlers of the
-- inventory. The generated client and the network are parameters; what a call may come to is stated
-- of them by `IsAnswered` and `IsLost`.
pub mod Snapshots
pub mod Answering
pub mod Creating
pub mod Retrying
pub mod Cancelling
pub mod Tracing
pub mod Tests
use tarea_integracion_sistem.Prelude.{ℕ, ◌+◌, ◌≡◌, [], ◌∷◌, map, none, some}
use tarea_integracion_sistem.Prelude.Int.{pos}
use tarea_integracion_sistem.Prelude.Result.{Result, ok, err}
use tarea_integracion_sistem.Prelude.Tx.{Fate}
use tarea_integracion_sistem.Text.{Text}
use tarea_integracion_sistem.Js.{Date}
use tarea_integracion_sistem.Grpc.{GrpcStatus, GrpcExceptionBody}
use tarea_integracion_sistem.Inventory.Errors
use tarea_integracion_sistem.Inventory.Messages
use tarea_integracion_sistem.Inventory.Request
use tarea_integracion_sistem.Inventory.Store.{Store}
use tarea_integracion_sistem.Inventory.Handlers.{reserve_stock, release_stock}
use tarea_integracion_sistem.Sales.Gateway.{
  InventoryServiceClient, ProtoPart, Reply, StockItemRequest, ReserveStockRequest,
  StockMutationItem, ReserveStockResponse, ReleaseStockRequest, ReleaseStockResponse, CallOptions,
}

-- `message StockItemRequest`, as the inventory decodes what the sales service encodes.
abbrev pub item_received : StockItemRequest → Request.StockItemRequest
item_received item = record { part_id = some item.part_id; quantity = some (pos item.quantity) }

-- `message ReserveStockRequest`
abbrev pub reserve_received : ReserveStockRequest → Request.ReserveStockRequest
reserve_received request = record {
  order_id = some request.order_id;
  items = some (map item_received request.items);
}

-- `message ReleaseStockRequest`
abbrev pub release_received : ReleaseStockRequest → Request.ReleaseStockRequest
release_received request = record { order_id = some request.order_id }

-- `message Part`, as the sales service decodes it.
abbrev pub part_received : Messages.ProtoPart → ProtoPart
part_received part = record {
  id = part.id;
  sku = part.sku;
  name = part.name;
  stock_available = part.stock_available;
}

-- `message StockMutationItem`
abbrev pub mutation_received : Messages.StockMutationItem → StockMutationItem
mutation_received item = record { part = some (part_received item.part); quantity = item.quantity }

-- `message ReserveStockResponse`, or the status of the error.
abbrev pub reserve_reply :
    Result GrpcExceptionBody Messages.ReserveStockResponse → Reply ReserveStockResponse
reserve_reply (ok response) = record {
  error = none;
  response =
      some (record { order_id = response.order_id; items = map mutation_received response.items });
}
reserve_reply (err body) = record {
  error = some (record { code = some body.code });
  response = none;
}

-- `message ReleaseStockResponse`, or the status of the error.
abbrev pub release_reply :
    Result GrpcExceptionBody Messages.ReserveStockResponse → Reply ReleaseStockResponse
release_reply (ok response) = record {
  error = none;
  response = some (record { order_id = response.order_id });
}
release_reply (err body) = record {
  error = some (record { code = some body.code });
  response = none;
}

-- What the client reports when no answer came.
abbrev pub no_answer : {R : Type 0} → GrpcStatus → Reply R
no_answer code = record { error = some (record { code = some code }); response = none }

module _ (store : Store) (sha256_hex : Text → Text) {Remote : Type 0}
    (client : InventoryServiceClient Remote) (db_of : Remote → store.Db) where
  -- The handler ran at the inventory, and its answer came back.
  pub record IsAnswered (now : Date) (fate : Fate Errors.Exception) (request : ReserveStockRequest)
      (options : CallOptions) (before after : Remote) : Type 0 where
    pub call : client.ReserveStock request options before ≡ (
      reserve_reply
          (reserve_stock store sha256_hex now fate (reserve_received request) (db_of before)).0,
      after,
    )
    pub effect :
        db_of after
        ≡ (reserve_stock store sha256_hex now fate (reserve_received request) (db_of before)).1

  -- The handler ran at the inventory, and the client gave up before the answer came.
  pub record IsLost (now : Date) (fate : Fate Errors.Exception) (code : GrpcStatus)
      (request : ReserveStockRequest) (options : CallOptions) (before after : Remote) : Type 0 where
    pub call : client.ReserveStock request options before ≡ (no_answer code, after)
    pub effect :
        db_of after
        ≡ (reserve_stock store sha256_hex now fate (reserve_received request) (db_of before)).1

  -- A release that ran at the inventory and was answered.
  pub record IsReleased (now : Date) (fate : Fate Errors.Exception) (request : ReleaseStockRequest)
      (options : CallOptions) (before after : Remote) : Type 0 where
    pub call : client.ReleaseStock request options before ≡ (
      release_reply (release_stock store now fate (release_received request) (db_of before)).0,
      after,
    )
    pub effect :
        db_of after ≡ (release_stock store now fate (release_received request) (db_of before)).1
