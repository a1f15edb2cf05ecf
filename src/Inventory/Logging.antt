-- ===== src/Inventory/Logging.antt =====
-- apps/inventory-grpc/src/logging/grpc-logging.interceptor.ts: the line that each call writes to the log. The
-- tenths of a millisecond that the call took and the random trace id are parameters, and so is the
-- text that the platform gives of an error, its stack.
pub mod Redaction
use tarea_integracion_sistem.Prelude.{
  ℕ, ◌-◌, Bool, true, false, ◌&&◌, ◌||◌, [], ◌∷◌, Option, none, some, leb, ◌==◌, length, take,
  if◌then◌else◌,
}
use tarea_integracion_sistem.Prelude.Result.{Result, ok, err}
use tarea_integracion_sistem.Text.{Text, text, trim, all_units}
use tarea_integracion_sistem.Grpc.{GrpcStatus}
use tarea_integracion_sistem.Inventory.Errors.{Exception}
use tarea_integracion_sistem.Inventory.Status.{to_grpc_error}
use tarea_integracion_sistem.Inventory.Logging.Redaction.{redact_secrets}

abbrev word_unit : ℕ → Bool
word_unit c =
    (leb b'a' c && leb c b'z')
    || (leb b'A' c && leb c b'Z')
    || (leb b'0' c && leb c b'9')
    || c == b'_'

-- `[\w.:-]`
abbrev pub trace_unit : ℕ → Bool
trace_unit c = word_unit c || c == b'.' || c == b':' || c == b'-'

abbrev pub is_trace_id : Text → Bool
is_trace_id t = leb 1 (length t) && leb (length t) 128 && all_units trace_unit t

-- A value of the metadata is `none` where there is none or it is no string.
abbrev text_or_empty : Option Text → Text
text_or_empty none = []
text_or_empty (some value) = trim value

unfoldable pub read_trace_id : Text → Option Text → Text
read_trace_id random_uuid value =
    if is_trace_id (text_or_empty value) then text_or_empty value else random_uuid

-- What the interceptor reads of a request: `none` where a field is no string or the items no array.
pub record IdentifiableRequest : Type 0 where
  pub order_id : Option Text
  pub part_id : Option Text
  pub item_count : Option ℕ

pub record RequestFields : Type 0 where
  pub order_id : Option Text
  pub part_id : Option Text
  pub item_count : Option ℕ

abbrev identifier : Option Text → Option Text
identifier none = none
identifier (some []) = none
identifier (some (c ∷ cs)) = some (take 64 (c ∷ cs))

abbrev pub describe_request : IdentifiableRequest → RequestFields
describe_request request = record {
  order_id = identifier request.order_id;
  part_id = identifier request.part_id;
  item_count = request.item_count;
}

pub data Level : Type 0 where
  log_level error_level : Level

pub record LogLine : Type 0 where
  pub level : Level
  pub message : Text
  pub method : Text
  pub code : GrpcStatus
  pub duration_tenths : ℕ
  pub trace_id : Text
  pub request : RequestFields
  pub error : Option Text

-- `charAt(0).toUpperCase()` and the rest: the names of the handlers are ASCII.
abbrev capitalized : Text → Text
capitalized [] = []
capitalized (c ∷ cs) = (if leb b'a' c && leb c b'z' then c - 32 else c) ∷ cs

abbrev pub is_internal : GrpcStatus → Bool
is_internal GrpcStatus.internal = true
is_internal _ = false

module _ (detail : Exception → Text) (handler : Text) (duration_tenths : ℕ) (trace_id : Text)
    (fields : RequestFields) where
  abbrev line : Level → Text → GrpcStatus → Option Text → LogLine
  line level message code error = record {
    level = level;
    message = message;
    method = capitalized handler;
    code = code;
    duration_tenths = duration_tenths;
    trace_id = trace_id;
    request = fields;
    error = error;
  }

  abbrev failed_line : Exception → GrpcStatus → LogLine
  failed_line e code =
      if is_internal code
      then line error_level (text "grpc call failed unexpectedly") code
          (some (redact_secrets (detail e)))
      else line log_level (text "grpc call rejected") code none

  -- The two ends of the call.
  unfoldable pub tapped : {A : Type 0} → Result Exception A → LogLine
  tapped (ok answer) = line log_level (text "grpc call completed") GrpcStatus.ok_status none
  tapped (err e) = failed_line e (to_grpc_error e).code

-- `GrpcLoggingInterceptor.intercept`: what the handler did, and the line of its call.
unfoldable pub intercept :
    {A : Type 0}
    → (Exception → Text)
    → (random_uuid : Text) → (handler : Text) → (duration_tenths : ℕ) → (metadata : Option Text)
    → IdentifiableRequest
    → Result Exception A
    → Result Exception A × LogLine
unfolding read_trace_id tapped
intercept detail random_uuid handler duration_tenths metadata request handled = (
  handled,
  tapped detail handler duration_tenths (read_trace_id random_uuid metadata)
      (describe_request request) handled,
)
