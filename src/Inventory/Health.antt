-- ===== src/Inventory/Health.antt =====
-- apps/inventory-grpc/src/health/health.service.ts: the serving status that the service publishes. The
-- library that answers health checks is a list of the calls made to it. A probe waits for the
-- database between its two checks of `shuttingDown`, so it is two steps, and others come between.
pub mod Shutdown
use tarea_integracion_sistem.Prelude.{
  ℕ, zero, suc, Bool, true, false, List, [], ◌∷◌, ◌++◌, map, Option, none, some, if◌then◌else◌,
}
use tarea_integracion_sistem.Text.{Text, text, text_eq}

pub data ServingStatus : Type 0 where
  serving not_serving : ServingStatus

abbrev pub same_status : ServingStatus → ServingStatus → Bool
same_status serving serving = true
same_status not_serving not_serving = true
same_status _ _ = false

abbrev pub health_service_names : List Text
health_service_names = text "" ∷ text "repuestossur.inventory.v1.InventoryService" ∷ []

pub record StatusChange : Type 0 where
  pub from_status : ServingStatus
  pub to_status : ServingStatus
  pub reason : Text

-- `probes` counts the probes that wait for the database, `calls` the statuses set at the health
-- implementation, the latest first, and `changes` what was logged.
pub record Health : Type 0 where
  pub status : ServingStatus
  pub shutting_down : Bool
  pub timer : Bool
  pub probes : ℕ
  pub calls : List (Text × ServingStatus)
  pub changes : List StatusChange

-- `createHealthImplementation`, and the service's fields.
abbrev pub initial_health : Health
initial_health = record {
  status = not_serving;
  shutting_down = false;
  timer = false;
  probes = 0;
  calls = map (λ name. (name, not_serving)) health_service_names;
  changes = [];
}

-- `this.health.setStatus` for each name
abbrev pub publish :
    List Text → ServingStatus → List (Text × ServingStatus) → List (Text × ServingStatus)
publish [] status calls = calls
publish (name ∷ names) status calls = publish names status ((name, status) ∷ calls)

unfoldable pub set_status : ServingStatus → Text → Health → Health
set_status status reason h = record h {
  status = status;
  calls = publish health_service_names status h.calls;
  changes =
      if same_status status h.status
      then h.changes
      else record { from_status = h.status; to_status = status; reason = reason } ∷ h.changes;
}

-- The outcome of the race between `SELECT 1` and the timeout, with the message of the error.
pub data ProbeOutcome : Type 0 where
  reachable : ProbeOutcome
  failed : (message : Text) → ProbeOutcome

pub data HealthEvent : Type 0 where
  probe_begins : HealthEvent
  probe_ends : ProbeOutcome → HealthEvent
  timer_starts : HealthEvent
  shuts_down : HealthEvent
  module_destroyed : HealthEvent

-- `probe`, up to its `await`
unfoldable pub begin_probe : Health → Health
begin_probe h = if h.shutting_down then h else record h { probes = suc h.probes }

-- `probe`, after its `await`
unfoldable pub end_probe : ProbeOutcome → Health → Health
unfolding set_status
end_probe outcome h = if h.shutting_down then h else elim outcome [
  | reachable ↦ set_status serving (text "database reachable") h
  | failed message ↦ set_status not_serving message h
]

abbrev pub finish_probe : ProbeOutcome → ℕ → Health → Health
finish_probe outcome zero h = h
finish_probe outcome (suc n) h = end_probe outcome (record h { probes = n })

-- `markShuttingDown`
unfoldable pub mark_shutting_down : Health → Health
mark_shutting_down h =
    set_status not_serving (text "shutting down") (record h { shutting_down = true; timer = false })

-- `timer_starts` is the rest of `onApplicationBootstrap`, after its own probe; the timer and the
-- bootstrap begin probes; `module_destroyed` is `onModuleDestroy`.
unfoldable pub step : HealthEvent → Health → Health
unfolding begin_probe end_probe mark_shutting_down
step probe_begins h = begin_probe h
step (probe_ends outcome) h = finish_probe outcome h.probes h
step timer_starts h = record h { timer = true }
step shuts_down h = mark_shutting_down h
step module_destroyed h = record h { timer = false }

abbrev pub run : List HealthEvent → Health → Health
run [] h = h
run (event ∷ events) h = run events (step event h)

-- What a health check of the name answers: the status of the latest call for it.
unfoldable pub answered : Text → List (Text × ServingStatus) → Option ServingStatus
answered name [] = none
answered name ((n, status) ∷ calls) = if text_eq n name then some status else answered name calls
