-- ===== src/System/Tests.antt =====
-- Runs through both services: a client whose first call is lost after it ran.
pub mod Traces
use tarea_integracion_sistem.Prelude.{
  ◌≡◌, ◌+◌, refl, true, false, [], ◌∷◌, none, some, arith, if◌then◌else◌, Bool,
}
use tarea_integracion_sistem.Prelude.Int.{pos}
use tarea_integracion_sistem.Prelude.Result.{ok, err}
use tarea_integracion_sistem.Prelude.Tx.{commits}
use tarea_integracion_sistem.Text.{Text, text_eq, to_lower_case, contains}
use tarea_integracion_sistem.Js.{map_get}
use tarea_integracion_sistem.Sort.{sort_by, insert_by}
use tarea_integracion_sistem.Grpc.{GrpcStatus}
use tarea_integracion_sistem.Inventory.Uuid.{is_uuid_text}
use tarea_integracion_sistem.Inventory.Handlers.{reserve_stock, release_stock}
use tarea_integracion_sistem.Inventory.Store.Tables.{TablesDb, tables}
use tarea_integracion_sistem.Inventory.Store.Tables.Laws.{tables_laws}
use tarea_integracion_sistem.Inventory.Stock.Reserving.{Has}
use tarea_integracion_sistem.Inventory.Stock.Returning.{held_by}
use tarea_integracion_sistem.Inventory.Store.{Operation, PartRow, reserved, released}
use tarea_integracion_sistem.Inventory.Stock.{reserve}
use tarea_integracion_sistem.Inventory.Stock.Lifecycle.{reserve_creates}
use tarea_integracion_sistem.Text.Laws.{text_eq_refl}
use tarea_integracion_sistem.Prelude.{ap, ◌∙◌}
use tarea_integracion_sistem.Inventory.Ledger.{Reach, here, next, reserves}
use tarea_integracion_sistem.Inventory.Tests.{row_a, db, noon}
use tarea_integracion_sistem.Sales.Errors.{api}
use tarea_integracion_sistem.Sales.Gateway.{InventoryServiceClient, grpc_gateway}
use tarea_integracion_sistem.Sales.Orders.Views.{OrderRow, confirmed, to_order_view}
use tarea_integracion_sistem.Sales.Orders.Tables.{cancelled_order}
use tarea_integracion_sistem.Sales.Orders.Sample.{SampleDb, sample, sample_laws}
use tarea_integracion_sistem.Sales.Orders.Service.{World, normalize_items, create}
use tarea_integracion_sistem.Sales.Orders.Queries.{cancel}
use tarea_integracion_sistem.Sales.Tests.{
  order_a, trace, no_hash, env, key, key_valid, body, fresh_world, starts, open_entry, new_world_of,
  customer_a, order_row,
}
use tarea_integracion_sistem.System.{
  reserve_received, release_received, reserve_reply, release_reply, no_answer,
}
use tarea_integracion_sistem.System.Snapshots.{command_of}
use tarea_integracion_sistem.System.Answering.{reserve_sent, options_of}
use tarea_integracion_sistem.System.Creating.{IsRequest, IsOrdered, inventory_timeout}
use tarea_integracion_sistem.System.Retrying.{timeout_then_retry}
use tarea_integracion_sistem.System.Cancelling.{cancel_returns_stock}

record Remote : Type 0 where
  inventory : TablesDb
  heard : Bool

-- Not heard at first, heard after the first call.
abbrev client : InventoryServiceClient Remote
client = record {
  GetPart = λ q o r. (no_answer GrpcStatus.unavailable, r);
  ListParts = λ q o r. (no_answer GrpcStatus.unavailable, r);
  ReserveStock = λ q o r.
      let result = reserve_stock tables no_hash noon commits (reserve_received q) r.inventory in
      (
        if r.heard then reserve_reply result.0 else no_answer GrpcStatus.deadline_exceeded,
        record { inventory = result.1; heard = true },
      );
  ReleaseStock = λ q o r.
      let result = release_stock tables noon commits (release_received q) r.inventory in
      (release_reply result.0, record { inventory = result.1; heard = true });
}

abbrev world_at : Bool → World SampleDb Remote
world_at heard = record {
  db = (new_world_of open_entry).db;
  remote = record { inventory = db; heard = heard };
  reservation_order_id = none;
  reservation_succeeded = false;
}

body-IsRequest : IsRequest order_a body
unfolding normalize_items sort_by insert_by to_lower_case is_uuid_text contains
body-IsRequest = record {
  order = (refl, refl);
  some_items = omega arith;
  few_items = omega arith;
  items = (((refl, refl), omega arith, omega arith), tt);
  distinct = (refl, tt);
}

request_Has : Has tables db (command_of order_a (normalize_items body.items)).items
unfolding normalize_items sort_by insert_by to_lower_case map_get text_eq
request_Has = ((row_a, refl, omega arith), tt)

named : text_eq order_a [] ≡ false
unfolding text_eq
named = refl

abbrev after_call : Remote → Remote
after_call r =
    (client.ReserveStock (reserve_sent order_a (normalize_items body.items))
      (options_of trace 1000 2000) r).1

-- No key was used yet, and no call is heard at first.
abbrev unheard : World SampleDb Remote
unheard = record (world_at false) { db = fresh_world.db }

known : sample.has_customer (to_lower_case body.customer_id) unheard.db ≡ true
unfolding text_eq to_lower_case contains
known = refl

retry_example :
    let (answer, w') = create sample (grpc_gateway client 1000 2000) env body (some key) unheard in
    let (answer', w'') = create sample (grpc_gateway client 5000 2000) env body (some key) w' in
    (answer ≡ err (api inventory_timeout))
    × (sample.find_request key w'.db ≡ some open_entry)
    × ((j : Text) → sample.find_order j w'.db ≡ sample.find_order j unheard.db)
    × ((c : Text) → sample.has_customer c w'.db ≡ sample.has_customer c unheard.db)
    × ((order : OrderRow) × (answer'
          ≡ ok (record { order = to_order_view order; replayed = false }))
        × IsOrdered tables sample
            (λ (r : Remote). r.inventory)
            body
            open_entry
            unheard.remote
            w''
            order)
retry_example =
    timeout_then_retry tables tables_laws no_hash sample sample_laws client (λ r. r.inventory) 2000
      key body open_entry unheard key_valid known refl body-IsRequest named (pos 43200000) refl
      request_Has env env 1000 5000 commits noon (after_call unheard.remote)
      (after_call (after_call unheard.remote)) (starts commits) refl refl refl tt
      (record { call = refl; effect = refl }) (record { call = refl; effect = refl })

abbrev live_order : OrderRow
live_order = record order_row { status = confirmed; cancelled_at = none }

abbrev reserved_remote : Remote
reserved_remote = record {
  inventory =
      (reserve tables no_hash noon commits (command_of order_a (normalize_items body.items)) db).1;
  heard = true;
}

history : Reach tables no_hash db reserved_remote.inventory
history =
    next here
      (reserves noon commits (command_of order_a (normalize_items body.items)) body-IsRequest)

held_there :
    (op : Operation) × (tables.find_operation order_a reserved_remote.inventory ≡ some op)
    × (op.status ≡ reserved)
held_there =
    let (op, db', run, w) =
      reserve_creates tables tables_laws no_hash noon
        (command_of order_a (normalize_items body.items)) db body-IsRequest refl request_Has in
    (
      op,
      ap (λ r. tables.find_operation order_a r.1) run
          ∙ w.ledger order_a
          ∙ rw (text_eq_refl order_a) refl,
      ap (λ (o : Operation). o.status) w.shape,
    )

abbrev live_world : World SampleDb Remote
live_world = record {
  db = record { requests = []; orders = (order_a, live_order) ∷ []; customers = customer_a ∷ [] };
  remote = reserved_remote;
  reservation_order_id = none;
  reservation_succeeded = false;
}

live_there : sample.find_order order_a live_world.db ≡ some live_order
unfolding text_eq
live_there = refl

abbrev after_release : Remote
after_release =
    (client.ReleaseStock (record { order_id = order_a }) (options_of trace 9000 2000)
      reserved_remote).1

returns_example :
    let (answer, w') =
      cancel sample (grpc_gateway client 9000 2000) env commits order_a live_world in
    (answer ≡ ok (to_order_view (cancelled_order env.now env.updated_at live_order)))
    × (sample.find_order order_a w'.db ≡ some (cancelled_order env.now env.updated_at live_order))
    × ((closed : Operation) × (tables.find_operation order_a w'.remote.inventory ≡ some closed)
        × (closed.status ≡ released))
    × ((j : Text) (row : PartRow)
        → tables.find_part j reserved_remote.inventory ≡ some row
        → (row' : PartRow) × (tables.find_part j w'.remote.inventory ≡ some row')
          × (row'.stock_available ≡ row.stock_available + held_by j held_there.0.items))
returns_example =
    cancel_returns_stock tables tables_laws no_hash client (λ r. r.inventory) 2000 order_a
      body-IsRequest.order db reserved_remote (λ k. refl) history held_there.0 held_there.1
      held_there.2 sample sample_laws env live_order live_world (pos 43200000) 9000 after_release
      refl live_there refl (record { call = refl; effect = refl })
