-- ===== src/Inventory/Handlers.antt =====
-- The RPCs of the inventory: apps/inventory-grpc/src/parts/parts.controller.ts, parts.service.ts and
-- part.mapper.ts, apps/inventory-grpc/src/stock/stock.controller.ts and stock.mapper.ts, each with the
-- error filter around it.
use tarea_integracion_sistem.Prelude.{Bool, List, [], ◌∷◌, Option, some}
use tarea_integracion_sistem.Prelude.Result.{Result, ok, err, or_throw, ◌>>=◌}
use tarea_integracion_sistem.Prelude.Tx.{Fate}
use tarea_integracion_sistem.Text.{Text, text, to_lower_case}
use tarea_integracion_sistem.Js.{Date}
use tarea_integracion_sistem.Grpc.{GrpcExceptionBody}
use tarea_integracion_sistem.Inventory.Errors.{
  Exception, inventory, InventoryError, invalid_argument, part_not_found,
}
use tarea_integracion_sistem.Inventory.Uuid.{is_uuid}
use tarea_integracion_sistem.Inventory.Request.{
  ReserveStockRequest, ReleaseStockRequest, parse_reserve_request, parse_release_request,
  ReserveCommand,
}
use tarea_integracion_sistem.Inventory.Store.{Store, PartRow}
use tarea_integracion_sistem.Inventory.Stock.{StockMutation, StockOperationResult, reserve, release}
use tarea_integracion_sistem.Inventory.Messages.{
  ProtoTimestamp, ProtoPart, GetPartRequest, GetPartResponse, ListPartsResponse, StockMutationItem,
  ReserveStockResponse, to_proto_timestamp,
}
use tarea_integracion_sistem.Inventory.Status.{catch_error, to_grpc_error}

unfoldable pub to_proto_part : PartRow → Result Exception ProtoPart
to_proto_part part = do
  updated_at ← to_proto_timestamp part.updated_at
  ok (record {
    id = part.id;
    sku = part.sku;
    name = part.name;
    stock_available = part.stock_available;
    updated_at = updated_at;
  })

abbrev pub to_proto_parts : List PartRow → Result Exception (List ProtoPart)
to_proto_parts [] = ok []
to_proto_parts (part ∷ parts) = do
  first ← to_proto_part part
  rest ← to_proto_parts parts
  ok (first ∷ rest)

-- The entry of `items` for one mutation: the part as it was just after it.
abbrev pub mutation_item : ProtoTimestamp → StockMutation → StockMutationItem
mutation_item processed_at item = record {
  part = record {
    id = item.part_id;
    sku = item.part_sku;
    name = item.part_name;
    stock_available = item.stock_after;
    updated_at = processed_at;
  };
  quantity = item.quantity;
  stock_before = item.stock_before;
  stock_after = item.stock_after;
}

abbrev pub mutation_items : ProtoTimestamp → List StockMutation → List StockMutationItem
mutation_items processed_at [] = []
mutation_items processed_at (item ∷ items) =
    mutation_item processed_at item ∷ mutation_items processed_at items

unfoldable pub to_stock_response : StockOperationResult → Result Exception ReserveStockResponse
to_stock_response result = do
  processed_at ← to_proto_timestamp result.processed_at
  ok (record {
    order_id = result.order_id;
    items = mutation_items processed_at result.items;
    processed_at = processed_at;
    replayed = result.replayed;
  })

module _ (store : Store) where
  open store use {Db}

  -- `PartsService.getPart`. The column is of the type uuid, which reads a text in either case.
  valid_part : Bool → Option Text → Db → Result Exception PartRow
  valid_part Bool.true (some part_id) db =
      or_throw (inventory (part_not_found part_id)) (store.find_part (to_lower_case part_id) db)
  valid_part _ _ db = err (inventory (invalid_argument (text "part_id must be a UUID")))

  unfoldable pub get_part : Option Text → Db → Result Exception PartRow
  unfolding valid_part
  get_part part_id db = valid_part (is_uuid part_id) part_id db

  -- `PartsController.getPart`
  unfoldable pub get_part_rpc : GetPartRequest → Db → Result GrpcExceptionBody GetPartResponse
  get_part_rpc request db = catch_error (
      get_part request.part_id db >>= λ part.
      to_proto_part part >>= λ proto. ok (record { part = proto }))

  -- `PartsController.listParts`, of `PartsService.listParts`
  unfoldable pub list_parts_rpc : Db → Result GrpcExceptionBody ListPartsResponse
  list_parts_rpc db =
      catch_error
        (to_proto_parts (store.parts_by_sku db) >>= λ parts. ok (record { parts = parts }))

  abbrev pub answer :
      Result Exception StockOperationResult × Db
      → Result GrpcExceptionBody ReserveStockResponse × Db
  answer (result, db) = (catch_error (result >>= to_stock_response), db)

  abbrev reserve_parsed :
      (Text → Text)
      → Date
      → Fate Exception
      → Result InventoryError ReserveCommand
      → Db
      → Result GrpcExceptionBody ReserveStockResponse × Db
  reserve_parsed sha256_hex now fate (ok command) db =
      answer (reserve store sha256_hex now fate command db)
  reserve_parsed sha256_hex now fate (err e) db = (err (to_grpc_error (inventory e)), db)

  -- `StockController.reserveStock`
  unfoldable pub reserve_stock :
      (Text → Text)
      → Date
      → Fate Exception
      → ReserveStockRequest
      → Db
      → Result GrpcExceptionBody ReserveStockResponse × Db
  reserve_stock sha256_hex now fate request db =
      reserve_parsed sha256_hex now fate (parse_reserve_request request) db

  abbrev release_parsed :
      Date
      → Fate Exception
      → Result InventoryError Text
      → Db
      → Result GrpcExceptionBody ReserveStockResponse × Db
  release_parsed now fate (ok order_id) db = answer (release store order_id now fate db)
  release_parsed now fate (err e) db = (err (to_grpc_error (inventory e)), db)

  -- `StockController.releaseStock`
  unfoldable pub release_stock :
      Date
      → Fate Exception
      → ReleaseStockRequest
      → Db
      → Result GrpcExceptionBody ReserveStockResponse × Db
  release_stock now fate request db = release_parsed now fate (parse_release_request request) db
