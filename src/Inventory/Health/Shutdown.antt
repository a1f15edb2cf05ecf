-- ===== src/Inventory/Health/Shutdown.antt =====
-- What health checks are told, whatever the order of probes and shutdown.
use tarea_integracion_sistem.Prelude.{
  ℕ, zero, suc, ◌≡◌, refl, ap, ◌∙◌, if◌then◌else◌, Bool, true, false, List, [], ◌∷◌, All, some,
}
use tarea_integracion_sistem.Text.{Text, text, text_eq}
use tarea_integracion_sistem.Inventory.Health.{
  Health, HealthEvent, ProbeOutcome, ServingStatus, serving, not_serving, health_service_names,
  initial_health, set_status, begin_probe, finish_probe, end_probe, mark_shutting_down, step, run,
  answered, probe_begins, probe_ends, timer_starts, shuts_down, module_destroyed, reachable, failed,
}

-- Every name that is served answers with the status that the service holds.
abbrev pub IsPublished : Health → Type 0
IsPublished h = All (λ name. answered name h.calls ≡ some h.status) health_service_names

set_status-IsPublished :
    (status : ServingStatus) (reason : Text) (h : Health) → IsPublished (set_status status reason h)
unfolding set_status answered text_eq
set_status-IsPublished status reason h = (refl, (refl, tt))

IsPublished-if :
    (b : Bool) (h h' : Health) → IsPublished h → IsPublished h' → IsPublished (if b then h else h')
IsPublished-if true h h' p p' = p
IsPublished-if false h h' p p' = p'

end_probe-IsPublished :
    (outcome : ProbeOutcome) (h : Health) → IsPublished h → IsPublished (end_probe outcome h)
unfolding end_probe
end_probe-IsPublished reachable h p =
    IsPublished-if h.shutting_down h _ p
      (set_status-IsPublished serving (text "database reachable") h)
end_probe-IsPublished (failed message) h p =
    IsPublished-if h.shutting_down h _ p (set_status-IsPublished not_serving message h)

finish_probe-IsPublished :
    (outcome : ProbeOutcome) (n : ℕ) (h : Health)
    → IsPublished h
    → IsPublished (finish_probe outcome n h)
finish_probe-IsPublished outcome zero h p = p
finish_probe-IsPublished outcome (suc n) h p =
    end_probe-IsPublished outcome (record h { probes = n }) p

begin_probe-IsPublished : (h : Health) → IsPublished h → IsPublished (begin_probe h)
unfolding begin_probe
begin_probe-IsPublished h p = IsPublished-if h.shutting_down h _ p p

step-IsPublished : (event : HealthEvent) (h : Health) → IsPublished h → IsPublished (step event h)
unfolding step mark_shutting_down
step-IsPublished probe_begins h p = begin_probe-IsPublished h p
step-IsPublished (probe_ends outcome) h p = finish_probe-IsPublished outcome h.probes h p
step-IsPublished timer_starts h p = p
step-IsPublished shuts_down h p =
    set_status-IsPublished not_serving (text "shutting down")
      (record h { shutting_down = true; timer = false })
step-IsPublished module_destroyed h p = p

run_keeps : (events : List HealthEvent) (h : Health) → IsPublished h → IsPublished (run events h)
run_keeps [] h p = p
run_keeps (event ∷ events) h p = run_keeps events (step event h) (step-IsPublished event h p)

-- Whatever probes, timers and shutdowns happen in whatever order, a health check of either name is
-- answered with the status that the service holds.
pub run-IsPublished : (events : List HealthEvent) → IsPublished (run events initial_health)
unfolding answered text_eq
run-IsPublished events = run_keeps events initial_health (refl, (refl, tt))

abbrev IsDown : Health → Type 0
IsDown h = (h.status ≡ not_serving) × (h.shutting_down ≡ true)

finish_probe-IsDown :
    (outcome : ProbeOutcome) (n : ℕ) (h : Health) → IsDown h → IsDown (finish_probe outcome n h)
unfolding end_probe
finish_probe-IsDown outcome zero h d = d
finish_probe-IsDown outcome (suc n) h d = rw (d.1) (d.0, refl)

step-IsDown : (event : HealthEvent) (h : Health) → IsDown h → IsDown (step event h)
unfolding step begin_probe mark_shutting_down set_status
step-IsDown probe_begins h d = rw (d.1) (d.0, refl)
step-IsDown (probe_ends outcome) h d = finish_probe-IsDown outcome h.probes h d
step-IsDown timer_starts h d = d
step-IsDown shuts_down h d = (refl, refl)
step-IsDown module_destroyed h d = d

run-IsDown : (events : List HealthEvent) (h : Health) → IsDown h → IsDown (run events h)
run-IsDown [] h d = d
run-IsDown (event ∷ events) h d = run-IsDown events (step event h) (step-IsDown event h d)

-- After the shutdown is marked, whatever probes were waiting and whatever follows, every health
-- check is answered with NOT_SERVING and the status stays so.
pub shutdown_is_final :
    (events : List HealthEvent) (h : Health)
    → let h' = run events (step shuts_down h) in
      (h'.status ≡ not_serving)
      × (h'.shutting_down ≡ true)
      × All (λ name. answered name h'.calls ≡ some not_serving) health_service_names
unfolding step mark_shutting_down set_status
shutdown_is_final events h =
    let down = run-IsDown events (step shuts_down h) (refl, refl) in
    let (first, (second, end)) = run_keeps events (step shuts_down h) (
      set_status-IsPublished not_serving (text "shutting down")
        (record h { shutting_down = true; timer = false })) in
    (down.0, down.1, (first ∙ ap some down.0, (second ∙ ap some down.0, tt)))
