-- ===== src/Inventory/Tests.antt =====
-- Runs of the inventory at concrete inputs: two parts, an order for both.
pub mod Refusals
pub mod History
pub mod Startup
pub mod Secrets
use mathlib.Core.List.{Perm}
use mathlib.Core.List.Perm
use tarea_integracion_sistem.Prelude.{
  ℕ, ◌+◌, ◌*◌, ◌<◌, ◌≡◌, refl, true, false, List, [], ◌∷◌, All, Option, none, some, arith,
  if◌then◌else◌,
}
use tarea_integracion_sistem.Prelude.Int.{pos, negsuc, pos_part, neg_part}
use tarea_integracion_sistem.Prelude.Result.{ok}
use tarea_integracion_sistem.Prelude.Tx.{Fate, commits, ack_lost}
use tarea_integracion_sistem.Text.{Text, text, text_eq, to_lower_case, contains}
use tarea_integracion_sistem.Js.{Date, at, map_get}
use tarea_integracion_sistem.Inventory.Errors.{Exception, unexpected}
use tarea_integracion_sistem.Inventory.Uuid.{is_uuid_text, is_uuid}
use tarea_integracion_sistem.Inventory.Request.{
  ReserveItem, ReserveCommand, ReserveStockRequest, parse_reserve_request, parse_items, parse_uuid,
  parse_quantity,
}
use tarea_integracion_sistem.Inventory.Request.Parsing.{
  IsValidCommand, parse_reserve_request-IsValidCommand,
}
use tarea_integracion_sistem.Inventory.Request.Accepting.{
  command_message, parse_reserve_request-command_message,
}
use tarea_integracion_sistem.Inventory.Store.{PartRow, Operation, reserved, released}
use tarea_integracion_sistem.Inventory.Store.Tables.{TablesDb, tables, find_part, find_operation}
use tarea_integracion_sistem.Inventory.Store.Tables.Laws.{tables_laws}
use tarea_integracion_sistem.Inventory.Stock.{
  StockOperationResult, to_reserve_result, reserve, release,
}
use tarea_integracion_sistem.Inventory.Stock.Reserving.{Has}
use tarea_integracion_sistem.Inventory.Stock.Reserve.{IsReservation}
use tarea_integracion_sistem.Inventory.Stock.Returning.{after_returning, stock_of_row}
use tarea_integracion_sistem.Inventory.Stock.Release.{
  IsReturnable, returned, returned_result, release_returns, release_replays,
}
use tarea_integracion_sistem.Inventory.Stock.Lifecycle.{reserve_creates, reserve_reordered}
use tarea_integracion_sistem.Inventory.Stock.Undo.{release_undoes_reserve}
use tarea_integracion_sistem.Inventory.Messages.{ProtoTimestamp, to_proto_timestamp}
use tarea_integracion_sistem.Inventory.Messages.Timestamps.{to_proto_timestamp-floor}
use tarea_integracion_sistem.Inventory.Health.{
  HealthEvent, not_serving, health_service_names, initial_health, run, step, answered, probe_begins,
  probe_ends, shuts_down, reachable,
}
use tarea_integracion_sistem.Inventory.Health.Shutdown.{
  IsPublished, run-IsPublished, shutdown_is_final,
}

abbrev pub order_a : Text
order_a = text "6f1f64d5-58b7-4b3f-9d6a-0f3a1c2b4e5d"

abbrev pub part_a : Text
part_a = text "0a7f64d5-58b7-4b3f-9d6a-0f3a1c2b4e01"

abbrev pub part_b : Text
part_b = text "0b7f64d5-58b7-4b3f-9d6a-0f3a1c2b4e02"

abbrev pub noon : Date
noon = at (pos 43200000)

abbrev pub later : Date
later = at (pos 46800000)

abbrev pub row_a : PartRow
row_a = record {
  id = part_a;
  sku = text "BRK-1";
  name = text "Brake pad";
  stock_available = 5;
  created_at = noon;
  updated_at = noon;
}

abbrev pub row_b : PartRow
row_b = record {
  id = part_b;
  sku = text "OIL-2";
  name = text "Oil filter";
  stock_available = 9;
  created_at = noon;
  updated_at = noon;
}

abbrev pub db : TablesDb
db = record { parts = row_a ∷ row_b ∷ []; operations = [] }

abbrev pub command : ReserveCommand
command = record {
  order_id = order_a;
  items =
      record { part_id = part_a; quantity = 2 } ∷ record { part_id = part_b; quantity = 9 } ∷ [];
}

-- The same command as a request, with a part in upper case.
abbrev request : ReserveStockRequest
request = record {
  order_id = some order_a;
  items = some (
      record {
        part_id = some (text "0A7F64D5-58b7-4b3f-9d6a-0f3a1c2b4e01");
        quantity = some (pos 2);
      }
      ∷ record { part_id = some part_b; quantity = some (pos 9) }
      ∷ []);
}

abbrev pub no_hash : Text → Text
no_hash t = t

request_parses : parse_reserve_request request ≡ ok command
unfolding parse_reserve_request parse_items parse_uuid parse_quantity is_uuid is_uuid_text
    to_lower_case contains text_eq
request_parses = refl

parse_example : IsValidCommand command
parse_example = parse_reserve_request-IsValidCommand request command request_parses

command-Has : Has tables db command.items
unfolding map_get text_eq
command-Has = ((row_a, refl, omega arith), ((row_b, refl, omega arith), tt))

reserve_creates_example :
    (op : Operation) × (db' : TablesDb) × (reserve tables no_hash noon commits command db
      ≡ (ok (to_reserve_result op false), db'))
    × IsReservation tables no_hash noon command db db' op
reserve_creates_example =
    reserve_creates tables tables_laws no_hash noon command db parse_example refl command-Has

row_a_there : find_part part_a db ≡ some row_a
unfolding map_get text_eq
row_a_there = refl

abbrev pub lost : Fate Exception
lost = ack_lost (unexpected (text "connection reset"))

abbrev reordered_items : List ReserveItem
reordered_items =
    record { part_id = part_b; quantity = 9 } ∷ record { part_id = part_a; quantity = 2 } ∷ []

reserve_reordered_example :
    let db' = (reserve tables no_hash noon lost command db).1 in
    (op : Operation) × ((reserve tables no_hash noon commits command db).0
      ≡ ok (to_reserve_result op false))
    × (reserve tables no_hash later commits (record command { items = reordered_items }) db'
        ≡ (ok (to_reserve_result op true), db'))
reserve_reordered_example =
    reserve_reordered tables tables_laws no_hash noon command db parse_example refl command-Has lost
      later reordered_items tt (Perm.swap _ _ [])

message_example : parse_reserve_request (command_message command) ≡ ok command
message_example = parse_reserve_request-command_message command parse_example

release_undoes_reserve_example :
    let db' = (reserve tables no_hash noon lost command db).1 in
    let (answer, db'') = release tables order_a later commits db' in
    (r : StockOperationResult) × (op : Operation) × (answer ≡ ok r)
    × (r.replayed ≡ false)
    × ((j : Text) → stock_of_row (find_part j db'') ≡ stock_of_row (find_part j db))
    × (find_operation order_a db'' ≡ some op)
    × (op.status ≡ released)
release_undoes_reserve_example =
    release_undoes_reserve tables tables_laws no_hash noon command db parse_example refl command-Has
      lost later tt

-- An operation that holds two of the first part.
abbrev pub operation : Operation
operation = record {
  order_id = order_a;
  request_hash = text "abc";
  status = reserved;
  reserved_at = noon;
  released_at = none;
  items =
      record {
        id = 0 ∷ order_a;
        line_number = 1;
        part_id = part_a;
        part_sku = text "BRK-1";
        part_name = text "Brake pad";
        quantity = 2;
        reserved_stock_before = 7;
        reserved_stock_after = 5;
        released_stock_before = none;
        released_stock_after = none;
      }
      ∷ [];
}

abbrev held_db : TablesDb
held_db = record { parts = row_a ∷ row_b ∷ []; operations = (order_a, operation) ∷ [] }

operation_there : find_operation order_a held_db ≡ some operation
unfolding text_eq
operation_there = refl

operation-IsReturnable : IsReturnable tables held_db operation
unfolding map_get text_eq contains
operation-IsReturnable = record {
  distinct_ids = (refl, tt);
  distinct_parts = (refl, tt);
  room = ((row_a, refl, omega arith), tt);
}

release_returns_example :
    let find = λ (k : Text). find_part k held_db in
    (db' : TablesDb) × (release tables order_a later commits held_db
      ≡ (ok (returned_result find later operation false), db'))
    × ((j : Text) → find_part j db' ≡ after_returning later operation.items j (find_part j held_db))
    × ((j : Text)
        → find_operation j db' ≡ (
            if text_eq order_a j
            then some (returned find later operation)
            else find_operation j held_db))
release_returns_example =
    release_returns tables tables_laws order_a later operation held_db operation_there refl
      operation-IsReturnable

abbrev pub find_held : Text → Option PartRow
find_held k = find_part k held_db

release_replays_example :
    let (first, db') = release tables order_a noon commits held_db in
    (r : StockOperationResult) × (first ≡ ok r)
    × (r.replayed ≡ false)
    × (release tables order_a later commits db' ≡ (ok (record r { replayed = true }), db'))
release_replays_example =
    release_replays tables tables_laws order_a noon later operation held_db operation_there refl
      operation-IsReturnable

-- A millisecond before 1970.
timestamp_example :
    (t : ProtoTimestamp) × (rest : ℕ) × (to_proto_timestamp (at (negsuc 0)) ≡ ok t)
    × (t.nanos ≡ pos (rest * 1000000))
    × (rest * 1000000 < 1000000000)
    × (pos_part (negsuc 0) + neg_part t.seconds * 1000
        ≡ neg_part (negsuc 0) + (pos_part t.seconds * 1000 + rest))
timestamp_example = to_proto_timestamp-floor (negsuc 0)

abbrev events : List HealthEvent
events = probe_begins ∷ probe_ends reachable ∷ probe_begins ∷ []

health_example : IsPublished (run events initial_health)
health_example = run-IsPublished events

abbrev late_events : List HealthEvent
late_events = probe_ends reachable ∷ []

shutdown_example :
    let h' = run late_events (step shuts_down (run events initial_health)) in
    (h'.status ≡ not_serving)
    × (h'.shutting_down ≡ true)
    × All (λ name. answered name h'.calls ≡ some not_serving) health_service_names
shutdown_example = shutdown_is_final late_events (run events initial_health)
