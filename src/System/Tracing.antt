-- ===== src/System/Tracing.antt =====
-- The trace id of a request of the sales service, in the log of the inventory.
use tarea_integracion_sistem.Prelude.{
  ℕ, ◌≡◌, ◌⊎◌, inl, inr, refl, ap, ◌∙◌, true, false, [], ◌∷◌, Option, none, some, arith, Bool-cases,
  Option-cases,
}
use tarea_integracion_sistem.Prelude.Result.{Result, ok, err}
use tarea_integracion_sistem.Text.{Text, trim, all_units, is_space}
use tarea_integracion_sistem.Text.Trim.{trim-clean}
use tarea_integracion_sistem.Inventory.Errors.{Exception}
use tarea_integracion_sistem.Inventory.Status.{to_grpc_error}
use tarea_integracion_sistem.Inventory.Logging.{
  IdentifiableRequest, RequestFields, intercept, read_trace_id, is_trace_id, trace_unit, tapped,
  is_internal, describe_request,
}
use tarea_integracion_sistem.Sales.Gateway
use tarea_integracion_sistem.Sales.Gateway.{safe_trace_id}

is_space-trace_unit : (c : ℕ) → trace_unit c ≡ true → is_space c ≡ false
unfolding is_space
is_space-trace_unit c h = ground arith

-- Both services accept the same units.
all_units-trace_unit :
    (t : Text) → all_units Gateway.trace_unit t ≡ true → all_units trace_unit t ≡ true
all_units-trace_unit [] h = refl
all_units-trace_unit (c ∷ cs) h = ground (arith, all_units-trace_unit cs)

safe_trace_id-some :
    (trace_id sent : Text) → safe_trace_id trace_id ≡ some sent → is_trace_id sent ≡ true
unfolding safe_trace_id
safe_trace_id-some trace_id sent h =
    let e : trim trace_id ≡ sent = ground arith in
    rw (← e) (ground (arith, all_units-trace_unit (trim trace_id)))

read_trace_id-sent :
    (random_uuid sent : Text)
    → is_trace_id sent ≡ true
    → read_trace_id random_uuid (some sent) ≡ sent
unfolding read_trace_id
read_trace_id-sent random_uuid sent h =
    let same : trim sent ≡ sent = trim-clean trace_unit is_space-trace_unit sent (ground arith) in
    rw (same, h) refl

tapped-trace_id :
    {A : Type 0} (detail : Exception → Text) (handler : Text) (duration_tenths : ℕ)
    (trace_id : Text) (fields : RequestFields) (handled : Result Exception A)
    → (tapped detail handler duration_tenths trace_id fields handled).trace_id ≡ trace_id
unfolding tapped
tapped-trace_id detail handler duration_tenths trace_id fields (ok a) = refl
tapped-trace_id detail handler duration_tenths trace_id fields (err e) =
    elim (Bool-cases (is_internal (to_grpc_error e).code)) [
      | inl internal ↦ rw internal refl
      | inr known ↦ rw known refl
    ]

-- The line that a call writes to the log of the inventory has the trace id that the gateway sent with
-- it, where it sent one, and else the random one; the answer of the call is the handler's.
pub trace_id_reaches_log :
    {A : Type 0} (detail : Exception → Text) (random_uuid handler : Text) (duration_tenths : ℕ)
    (trace_id : Text) (request : IdentifiableRequest) (handled : Result Exception A)
    → let (result, line) =
        intercept detail random_uuid handler duration_tenths
          (safe_trace_id trace_id)
          request
          handled in
      (result ≡ handled)
      × (((sent : Text) × (safe_trace_id trace_id ≡ some sent) × (line.trace_id ≡ sent))
          ⊎ (safe_trace_id trace_id ≡ none) × (line.trace_id ≡ random_uuid))
unfolding intercept read_trace_id
trace_id_reaches_log detail random_uuid handler duration_tenths trace_id request handled =
    let id_of = λ (metadata : Option Text).
      tapped-trace_id detail handler duration_tenths (read_trace_id random_uuid metadata)
        (describe_request request) handled in
    (
      refl,
      elim (Option-cases (safe_trace_id trace_id)) [
        | inl unsafe ↦ inr (unsafe, id_of (safe_trace_id trace_id) ∙ rw unsafe refl)
        | inr (sent, safe) ↦ inl (
          sent,
          safe,
          id_of (safe_trace_id trace_id)
              ∙ ap (read_trace_id random_uuid) safe
              ∙ read_trace_id-sent random_uuid sent (safe_trace_id-some trace_id sent safe),
        )
      ],
    )
