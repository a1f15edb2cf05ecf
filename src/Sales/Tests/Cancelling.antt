-- ===== src/Sales/Tests/Cancelling.antt =====
-- Runs of cancellations.
use tarea_integracion_sistem.Prelude.{ℕ, ◌+◌, false, ◌≡◌, refl, [], ◌∷◌, none, some}
use tarea_integracion_sistem.Prelude.Result.{ok, err}
use tarea_integracion_sistem.Prelude.Tx.{commits, rolled_back}
use tarea_integracion_sistem.Text.{text_eq, to_lower_case}
use tarea_integracion_sistem.Sales.Errors.{api, internal_failure}
use tarea_integracion_sistem.Sales.Gateway.{InventoryGateway}
use tarea_integracion_sistem.Sales.Orders.Views.{OrderRow, confirmed, to_order_view}
use tarea_integracion_sistem.Sales.Orders.Tables.{cancelled_order}
use tarea_integracion_sistem.Sales.Orders.Sample.{SampleDb, sample, sample_laws}
use tarea_integracion_sistem.Sales.Orders.Service.{World}
use tarea_integracion_sistem.Sales.Orders.Queries.{cancel}
use tarea_integracion_sistem.Sales.Orders.Queries.Cancelling.{cancel_releases, cancel_resumes}
use tarea_integracion_sistem.Sales.Tests.{
  order_a, order_row, env, reset, world_of, open_entry, working, customer_a,
}

cancelled_there :
    sample.find_order (to_lower_case order_a) (world_of open_entry).db ≡ some order_row
unfolding text_eq to_lower_case
cancelled_there = refl

abbrev live_order : OrderRow
live_order = record order_row { status = confirmed; cancelled_at = none }

abbrev live_world : World SampleDb ℕ
live_world = record {
  db = record { requests = []; orders = (order_a, live_order) ∷ []; customers = customer_a ∷ [] };
  remote = 0;
  reservation_order_id = none;
  reservation_succeeded = false;
}

live_there : sample.find_order (to_lower_case order_a) live_world.db ≡ some live_order
unfolding text_eq to_lower_case
live_there = refl

-- It lets no release succeed.
abbrev closed : InventoryGateway ℕ
closed = record working { release = λ order_id trace_id w. (err (api internal_failure), w + 1) }

cancel_example :
    (db' : SampleDb) × (cancel sample working env commits order_a live_world ≡ (
      ok (to_order_view (cancelled_order env.now env.updated_at live_order)),
      record live_world { db = db'; remote = 1 },
    ))
    × (sample.find_order (to_lower_case order_a) db'
        ≡ some (cancelled_order env.now env.updated_at live_order))
cancel_example =
    cancel_releases sample sample_laws working env order_a live_order live_world live_there 1 refl
      refl

resumes_example :
    let w' = (cancel sample working env (rolled_back reset) order_a live_world).1 in
    (db' : SampleDb) × (cancel sample working env (rolled_back reset) order_a live_world
      ≡ (err (api internal_failure), record live_world { remote = 1 }))
    × (cancel sample working env commits order_a w' ≡ (
      ok (to_order_view (cancelled_order env.now env.updated_at live_order)),
      record live_world { db = db'; remote = 2 },
    ))
resumes_example =
    cancel_resumes sample sample_laws working env order_a live_order live_world reset 1 2 live_there
      refl refl refl
