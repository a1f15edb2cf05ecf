-- ===== src/Sales/Filter.antt =====
-- apps/sales-api/src/common/api-exception.filter.ts: the one envelope of every error of the sales service.
use tarea_integracion_sistem.Prelude.{ℕ, Option, none, some, List, ◌==◌, if◌then◌else◌}
use tarea_integracion_sistem.Text.{Text, text}
use tarea_integracion_sistem.Sales.Errors.{FieldError, Exception, api, http, database, other}

pub record Envelope : Type 0 where
  pub code : Text
  pub message : Text
  pub trace_id : Text
  pub details : Option (List FieldError)

pub record HttpReply : Type 0 where
  pub status : ℕ
  pub body : Envelope

abbrev pub generic : Text × Text
generic = (text "INTERNAL_ERROR", text "An unexpected internal error occurred")

-- `GENERIC_MESSAGES[status] ?? …`
abbrev pub generic_messages : ℕ → Text × Text
generic_messages status =
    if status == 400
    then (text "VALIDATION_ERROR", text "Request validation failed")
    else if status == 401
    then (text "UNAUTHORIZED", text "Missing or invalid API key")
    else if status == 403
    then (text "FORBIDDEN", text "The API key does not have permission for this operation")
    else if status == 404
    then (text "NOT_FOUND", text "Resource not found")
    else if status == 409
    then (text "CONFLICT", text "The request conflicts with the current resource state")
    else generic

abbrev envelope : Text × Text → Text → Envelope
envelope (code, message) trace_id = record {
  code = code;
  message = message;
  trace_id = trace_id;
  details = none;
}

abbrev pub trace_or_unknown : Option Text → Text
trace_or_unknown none = text "unknown"
trace_or_unknown (some trace_id) = trace_id

unfoldable pub catch_exception : Exception → Option Text → HttpReply
catch_exception (api e) trace = record {
  status = e.status;
  body = record {
    code = e.code;
    message = e.message;
    trace_id = trace_or_unknown trace;
    details = e.details;
  };
}
catch_exception (http status) trace = record {
  status = status;
  body = envelope (generic_messages status) (trace_or_unknown trace);
}
catch_exception (database code) trace = record {
  status = 500;
  body = envelope generic (trace_or_unknown trace);
}
catch_exception (other message) trace = record {
  status = 500;
  body = envelope generic (trace_or_unknown trace);
}
