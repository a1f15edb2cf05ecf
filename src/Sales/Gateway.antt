-- ===== src/Sales/Gateway.antt =====
-- apps/sales-api/src/inventory/inventory.gateway.ts, the interface through which the sales service uses
-- the inventory, and apps/sales-api/src/inventory/inventory-grpc.gateway.ts, its implementation by gRPC
-- (with the messages of apps/sales-api/src/inventory/inventory.proto-types.ts). The generated client is a
-- parameter: an RPC takes the state of the other side to a reply and a state.
pub mod Calls
use tarea_integracion_sistem.Prelude.{
  ℕ, ◌+◌, Bool, ◌&&◌, ◌||◌, List, [], ◌∷◌, map, Option, none, some, leb, ◌==◌, length,
  if◌then◌else◌,
}
use tarea_integracion_sistem.Prelude.Result.{Result, ok, err, ◌>>=◌}
use tarea_integracion_sistem.Text.{Text, text, trim, all_units}
use tarea_integracion_sistem.Sales.Errors.{Exception, api, other}
use tarea_integracion_sistem.Sales.Translation.{InventoryOperation, Failure, to_inventory_api_error}

pub record ReserveStockItem : Type 0 where
  pub part_id : Text
  pub quantity : ℕ

pub record ReservedStockItem : Type 0 where
  pub part_id : Text
  pub sku : Text
  pub name : Text
  pub quantity : ℕ

pub record PartSnapshot : Type 0 where
  pub part_id : Text
  pub sku : Text
  pub name : Text
  pub stock_available : ℕ

-- The interface: a call reads and changes the state of the inventory, `World`, and may throw after
-- it has changed it.
pub record InventoryGateway (World : Type 0) : Type 0 where
  pub reserve :
      (order_id : Text)
      → List ReserveStockItem
      → (trace_id : Text) → World
      → Result Exception (List ReservedStockItem) × World
  pub release : (order_id trace_id : Text) → World → Result Exception (Unit {0}) × World
  pub get_part : (part_id trace_id : Text) → World → Result Exception PartSnapshot × World
  pub list_parts : (trace_id : Text) → World → Result Exception (List PartSnapshot) × World

-- The messages, as the client sends and decodes them: a message field that was not set is null.
pub record StockItemRequest : Type 0 where
  pub part_id : Text
  pub quantity : ℕ

pub record ReserveStockRequest : Type 0 where
  pub order_id : Text
  pub items : List StockItemRequest

pub record ProtoPart : Type 0 where
  pub id : Text
  pub sku : Text
  pub name : Text
  pub stock_available : ℕ

pub record GetPartRequest : Type 0 where
  pub part_id : Text

pub record GetPartResponse : Type 0 where
  pub part : Option ProtoPart

pub record ListPartsResponse : Type 0 where
  pub parts : List ProtoPart

pub record StockMutationItem : Type 0 where
  pub part : Option ProtoPart
  pub quantity : ℕ

pub record ReserveStockResponse : Type 0 where
  pub order_id : Text
  pub items : List StockMutationItem

pub record ReleaseStockRequest : Type 0 where
  pub order_id : Text

pub record ReleaseStockResponse : Type 0 where
  pub order_id : Text

pub data InventoryRpcName : Type 0 where
  get_part_rpc list_parts_rpc reserve_stock_rpc release_stock_rpc : InventoryRpcName

abbrev pub operation_by_rpc : InventoryRpcName → InventoryOperation
operation_by_rpc get_part_rpc = InventoryOperation.read
operation_by_rpc list_parts_rpc = InventoryOperation.read
operation_by_rpc reserve_stock_rpc = InventoryOperation.reserve
operation_by_rpc release_stock_rpc = InventoryOperation.release

-- What a call carries beside its request: the trace id under `x-trace-id`, and the deadline.
pub record CallOptions : Type 0 where
  pub trace_metadata : Option Text
  pub deadline : ℕ

-- The arguments of the callback.
pub record Reply (Response : Type 0) : Type 0 where
  pub error : Option Failure
  pub response : Option Response

abbrev pub UnaryMethod : Type 0 → Type 0 → Type 0 → Type 0
UnaryMethod World Request Response = Request → CallOptions → World → Reply Response × World

pub record InventoryServiceClient (World : Type 0) : Type 0 where
  pub GetPart : UnaryMethod World GetPartRequest GetPartResponse
  pub ListParts : UnaryMethod World (Unit {0}) ListPartsResponse
  pub ReserveStock : UnaryMethod World ReserveStockRequest ReserveStockResponse
  pub ReleaseStock : UnaryMethod World ReleaseStockRequest ReleaseStockResponse

-- `[\w.:-]`
abbrev pub trace_unit : ℕ → Bool
trace_unit c =
    (leb b'a' c && leb c b'z')
    || (leb b'A' c && leb c b'Z')
    || (leb b'0' c && leb c b'9')
    || c == b'_'
    || c == b'.'
    || c == b':'
    || c == b'-'

-- `TRACE_ID_PATTERN` on the trimmed id
unfoldable pub safe_trace_id : Text → Option Text
safe_trace_id trace_id =
    let trimmed = trim trace_id in
    if leb 1 (length trimmed) && leb (length trimmed) 128 && all_units trace_unit trimmed
    then some trimmed
    else none

-- The callback: an error, or the absence of a response, rejects with the translated failure.
abbrev pub settle : {R : Type 0} → InventoryRpcName → Option Failure → Option R → Result Exception R
settle method none (some response) = ok response
settle method none none =
    err (api (to_inventory_api_error (record { code = none }) (operation_by_rpc method)))
settle method (some error) response =
    err (api (to_inventory_api_error error (operation_by_rpc method)))

abbrev settle_reply : {R W : Type 0} → InventoryRpcName → Reply R × W → Result Exception R × W
settle_reply method (reply, world) = (settle method reply.error reply.response, world)

abbrev null_part : Exception
null_part = other (text "Cannot read properties of null")

abbrev reserved_item : ℕ → ProtoPart → ReservedStockItem
reserved_item quantity part = record {
  part_id = part.id;
  sku = part.sku;
  name = part.name;
  quantity = quantity;
}

abbrev part_or_null : Option ProtoPart → Result Exception ProtoPart
part_or_null none = err null_part
part_or_null (some part) = ok part

abbrev pub reserved_items : List StockMutationItem → Result Exception (List ReservedStockItem)
reserved_items [] = ok []
reserved_items (item ∷ items) = part_or_null item.part >>= λ part.
    reserved_items items >>= λ rest. ok (reserved_item item.quantity part ∷ rest)

abbrev part_snapshot : ProtoPart → PartSnapshot
part_snapshot part = record {
  part_id = part.id;
  sku = part.sku;
  name = part.name;
  stock_available = part.stock_available;
}

abbrev then_decode :
    {R A W : Type 0} → (R → Result Exception A) → Result Exception R × W → Result Exception A × W
then_decode decode (result, world) = (result >>= decode, world)

-- The clock's reading and the configured deadline are parameters.
module _ {World : Type 0} (client : InventoryServiceClient World) (now_ms deadline_ms : ℕ) where
  unfoldable pub invoke :
      {Q R : Type 0}
      → UnaryMethod World Q R
      → InventoryRpcName
      → Q
      → Text
      → World
      → Result Exception R × World
  unfolding safe_trace_id
  invoke rpc method request trace_id world = settle_reply method (
      rpc request
        (record { trace_metadata = safe_trace_id trace_id; deadline = now_ms + deadline_ms }) world)

  unfoldable pub grpc_gateway : InventoryGateway World
  unfolding invoke
  grpc_gateway = record {
    reserve = λ order_id items trace_id world.
        then_decode (λ response. reserved_items response.items)
          (invoke client.ReserveStock reserve_stock_rpc
            (record {
              order_id = order_id;
              items =
                  map (λ item. record { part_id = item.part_id; quantity = item.quantity }) items;
            })
            trace_id world);
    release = λ order_id trace_id world.
        then_decode (λ response. ok tt)
          (invoke client.ReleaseStock release_stock_rpc (record { order_id = order_id }) trace_id
            world);
    get_part = λ part_id trace_id world.
        then_decode (λ response. part_or_null response.part >>= λ part. ok (part_snapshot part))
          (invoke client.GetPart get_part_rpc (record { part_id = part_id }) trace_id world);
    list_parts = λ trace_id world.
        then_decode (λ response. ok (map part_snapshot response.parts))
          (invoke client.ListParts list_parts_rpc tt trace_id world);
  }
