-- ===== src/System/Tests/Traces.antt =====
-- A trace id with a space before it, through both services.
use tarea_integracion_sistem.Prelude.{◌≡◌, ◌⊎◌, some, none}
use tarea_integracion_sistem.Prelude.Result.{Result, err}
use tarea_integracion_sistem.Text.{Text, text}
use tarea_integracion_sistem.Inventory.Errors.{Exception, unexpected}
use tarea_integracion_sistem.Inventory.Logging.{IdentifiableRequest, intercept}
use tarea_integracion_sistem.Sales.Gateway.{safe_trace_id}
use tarea_integracion_sistem.Sales.Tests.{order_a}
use tarea_integracion_sistem.System.Tracing.{trace_id_reaches_log}

abbrev stack : Exception → Text
stack e = text "Error: postgresql://app:secret@db/app"

abbrev random_id : Text
random_id = text "0e7f64d5-58b7-4b3f-9d6a-0f3a1c2b4e09"

abbrev request : IdentifiableRequest
request = record { order_id = some order_a; part_id = none; item_count = some 2 }

abbrev thrown : Result Exception Text
thrown = err (unexpected (text "boom"))

trace_example :
    let (result, line) =
      intercept stack random_id
        (text "reserveStock")
        35
        (safe_trace_id (text " trace-1"))
        request
        thrown in
    (result ≡ thrown)
    × (((sent : Text) × (safe_trace_id (text " trace-1") ≡ some sent) × (line.trace_id ≡ sent))
        ⊎ (safe_trace_id (text " trace-1") ≡ none) × (line.trace_id ≡ random_id))
trace_example =
    trace_id_reaches_log stack random_id (text "reserveStock") 35 (text " trace-1") request thrown
