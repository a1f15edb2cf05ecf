-- ===== src/Sales/Tests.antt =====
-- Runs of the sales service at concrete inputs: one request, with the ends that its reservation may
-- have.
pub mod Creating
pub mod Cancelling
pub mod Customers
pub mod Startup
pub mod Requests
use tarea_integracion_sistem.Prelude.{
  inl, ℕ, ◌+◌, ◌≤◌, ◌≡◌, ◌⊎◌, refl, true, false, List, [], ◌∷◌, none, some, arith,
}
use tarea_integracion_sistem.Prelude.Int.{ℤ, pos}
use tarea_integracion_sistem.Prelude.Result.{Result, ok, err}
use tarea_integracion_sistem.Prelude.Tx.{Fate, commits}
use tarea_integracion_sistem.Text.{Text, text, text_eq}
use tarea_integracion_sistem.Js.{Date, at}
use tarea_integracion_sistem.Grpc.{GrpcStatus}
use tarea_integracion_sistem.Inventory.Errors
use tarea_integracion_sistem.Inventory.Errors.{InventoryError}
use tarea_integracion_sistem.Sales.Errors.{
  ApiError, api_error, Exception, api, database, internal_failure,
}
use tarea_integracion_sistem.Sales.Translation.{InventoryOperation, Failure, to_inventory_api_error}
use tarea_integracion_sistem.Sales.Translation.EndToEnd.{domain_error_status, seen, expected}
use tarea_integracion_sistem.Sales.Gateway.{
  InventoryGateway, InventoryServiceClient, ReservedStockItem, grpc_gateway, safe_trace_id,
}
use tarea_integracion_sistem.Sales.Gateway.Calls.{release_call}
use tarea_integracion_sistem.Sales.Guard.{
  AuthenticatedRequest, ApiKeys, operator, reader, can_activate, constant_time_equal,
}
use tarea_integracion_sistem.Sales.Guard.Access.{can_activate_sound}
use tarea_integracion_sistem.Sales.Orders.Views.{
  OrderRow, OrderView, confirmed, cancelled, to_order_view, failure_body, create_response_body,
  restore_create_response,
}
use tarea_integracion_sistem.Sales.Orders.Views.Restoring.{restored_response}
use tarea_integracion_sistem.Sales.Orders.Tables.{IdempotencyRequest, IdempotencyState, in_progress}
use tarea_integracion_sistem.Sales.Orders.Service.{hash_request, snapshot_row}
use tarea_integracion_sistem.Sales.Orders.Tables.{AreStorable}
use tarea_integracion_sistem.Prelude.{map, length}
use tarea_integracion_sistem.Sales.Orders.Service.Claiming.{IsOpen}
use tarea_integracion_sistem.Sales.Orders.Sample.{SampleDb, sample}
use tarea_integracion_sistem.Sales.Orders.Service.{OrderCreate, Environment, World, is_valid_key}
use tarea_integracion_sistem.Sales.Orders.Service.Replay.{fingerprint}

abbrev missing : Failure
missing = record { code = some GrpcStatus.not_found }

domain_error_example :
    ((e : InventoryError)
      → (to_inventory_api_error (seen (Errors.inventory e)) InventoryOperation.reserve).status
        ≡ expected InventoryOperation.reserve e)
    × ((m : Text)
        → (to_inventory_api_error (seen (Errors.unexpected m)) InventoryOperation.reserve).status
          ≡ 500)
domain_error_example = domain_error_status InventoryOperation.reserve

-- A client whose inventory counts the calls and answers each with NOT_FOUND.
abbrev client : InventoryServiceClient ℕ
client = record {
  GetPart = λ q o w. (record { error = some missing; response = none }, w + 1);
  ListParts = λ q o w. (record { error = some missing; response = none }, w + 1);
  ReserveStock = λ q o w. (record { error = some missing; response = none }, w + 1);
  ReleaseStock = λ q o w. (record { error = some missing; response = none }, w + 1);
}

abbrev pub order_a : Text
order_a = text "6f1f64d5-58b7-4b3f-9d6a-0f3a1c2b4e5d"

abbrev pub trace : Text
trace = text "trace-1"

release_call_example :
    let (result, after) = (grpc_gateway client 1000 2000).release order_a trace 0 in
    (after
      ≡ (client.ReleaseStock
          (record { order_id = order_a })
          (record { trace_metadata = safe_trace_id trace; deadline = 1000 + 2000 })
          0).1)
    × ((e : Exception) → result ≡ err e → (a : ApiError) × (e ≡ api a) × (500 ≤ a.status))
release_call_example = release_call ℕ client 1000 2000 order_a trace 0

abbrev pub no_hash : Text → Text
no_hash t = t

abbrev keys : ApiKeys
keys = record { api_key_operator = text "op-key"; api_key_reader = text "rd-key" }

abbrev read_request : AuthenticatedRequest
read_request = record { method = text "GET"; api_key = some (text "rd-key") }

read_admitted : can_activate no_hash keys false read_request ≡ ok (some reader)
unfolding can_activate constant_time_equal text_eq
read_admitted = refl

guard_example :
    (text_eq (text "rd-key") [] ≡ false)
    × ((some reader ≡ some operator) × (text "rd-key" ≡ text "op-key")
        ⊎ (some reader ≡ some reader)
          × (text "rd-key" ≡ text "rd-key")
          × (read_request.method ≡ text "GET"))
guard_example = can_activate_sound no_hash keys read_request (some reader) read_admitted

abbrev pub short : ApiError
short =
    api_error 409 (text "INSUFFICIENT_STOCK") (text "One or more parts do not have enough stock")

abbrev pub noon : Date
noon = at (pos 43200000)

abbrev part_a : Text
part_a = text "0a7f64d5-58b7-4b3f-9d6a-0f3a1c2b4e01"

abbrev pub customer_a : Text
customer_a = text "0c7f64d5-58b7-4b3f-9d6a-0f3a1c2b4e02"

abbrev pub write_date : Date → Text
write_date (at (ℤ.pos n)) = n ∷ []
write_date (at (ℤ.negsuc n)) = 0 ∷ n ∷ []
write_date Date.invalid = []

abbrev pub read_date : Text → Date
read_date (n ∷ []) = at (ℤ.pos n)
read_date (sign ∷ n ∷ []) = at (ℤ.negsuc n)
read_date _ = Date.invalid

pub read_back : (millis : ℤ) → read_date (write_date (at millis)) ≡ at millis
read_back (ℤ.pos n) = refl
read_back (ℤ.negsuc n) = refl

abbrev pub order_row : OrderRow
order_row = record {
  id = order_a;
  customer_id = customer_a;
  status = cancelled;
  items = [];
  created_at = noon;
  updated_at = noon;
  cancelled_at = some noon;
}

abbrev given : OrderView
given = record (to_order_view order_row) { status = confirmed; cancelled_at = none }

restore_example :
    restore_create_response read_date (some (create_response_body write_date given)) (record given {
      status = cancelled;
      updated_at = at (pos 43200009);
      cancelled_at = some noon;
    })
    ≡ given
restore_example =
    restored_response write_date read_date read_back given (pos 43200000) (pos 43200000) cancelled
      (at (pos 43200009)) (some noon) refl refl refl refl

-- 64 units for each text.
abbrev pub digest : Text → Text
digest t =
    map (λ c. c + length t)
      (text "0123456789abcdef0123456789abcdef0123456789abcdef0123456789abcdef")

abbrev pub platform : Fate Exception → Environment
platform fate = record {
  sha256_hex = digest;
  to_iso_string = write_date;
  new_date = read_date;
  random_uuid = order_a;
  now = noon;
  updated_at = at (pos 43200001);
  trace_id = trace;
  create_fate = fate;
  prepare_fate = commits;
  compensate_fate = commits;
}

abbrev pub env : Environment
env = platform commits

abbrev pub key : Text
key = text "order-key-1"

pub key_valid : is_valid_key key ≡ true
unfolding is_valid_key
key_valid = refl

abbrev pub body : OrderCreate
body = record { customer_id = customer_a; items = record { part_id = part_a; quantity = 2 } ∷ [] }

abbrev pub claimed : IdempotencyState → Text → IdempotencyRequest
claimed state hash = record {
  key = key;
  request_hash = hash;
  order_id = order_a;
  state = state;
  response_status = some 409;
  response_body = some (failure_body short);
}

abbrev pub world_of : IdempotencyRequest → World SampleDb ℕ
world_of entry = record {
  db = record {
    requests = (key, entry) ∷ [];
    orders = (text "another", order_row) ∷ (order_a, order_row) ∷ [];
    customers = customer_a ∷ [];
  };
  remote = 0;
  reservation_order_id = none;
  reservation_succeeded = false;
}

abbrev pub new_world_of : IdempotencyRequest → World SampleDb ℕ
new_world_of entry = record (world_of entry) {
  db = record { requests = (key, entry) ∷ []; orders = []; customers = customer_a ∷ [] };
}

-- A gateway that answers every reservation so and lets every release succeed, counting the calls.
abbrev pub gateway_of : Result Exception (List ReservedStockItem) → InventoryGateway ℕ
gateway_of answer = record {
  reserve = λ order_id items trace_id w. (answer, w + 1);
  release = λ order_id trace_id w. (ok tt, w + 1);
  get_part = λ part_id trace_id w. (err (api internal_failure), w + 1);
  list_parts = λ trace_id w. (ok [], w + 1);
}

abbrev pub snapshot : ReservedStockItem
snapshot = record { part_id = part_a; sku = text "BRK-1"; name = text "Brake pad"; quantity = 2 }

abbrev pub working : InventoryGateway ℕ
working = gateway_of (ok (snapshot ∷ []))

abbrev pub refusing : InventoryGateway ℕ
refusing = gateway_of (err (api short))

pub found_in :
    (entry : IdempotencyRequest) → sample.find_request key (world_of entry).db ≡ some entry
unfolding text_eq
found_in entry = refl

pub found_new :
    (entry : IdempotencyRequest) → sample.find_request key (new_world_of entry).db ≡ some entry
unfolding text_eq
found_new entry = refl

-- The row that the first request writes.
abbrev pub open_entry : IdempotencyRequest
open_entry = record {
  key = key;
  request_hash = fingerprint env body;
  order_id = order_a;
  state = in_progress;
  response_status = none;
  response_body = none;
}

-- No key was used yet.
abbrev pub fresh_world : World SampleDb ℕ
fresh_world = record (world_of open_entry) {
  db = record { requests = []; orders = []; customers = customer_a ∷ [] };
}

pub starts :
    (fate : Fate Exception) → IsOpen sample (platform fate) key body fresh_world.db open_entry
unfolding hash_request
starts fate = inl (record {
  unused = refl;
  own_order = λ k old absent. absurd (cc absent);
  hash_fits = refl;
  drawn = refl;
})

pub snapshot_fits : AreStorable (map (snapshot_row sample working env) (snapshot ∷ []))
snapshot_fits = ((omega arith, omega arith, omega arith, omega arith), tt)

abbrev pub reset : Exception
reset = database (text "P1017")
