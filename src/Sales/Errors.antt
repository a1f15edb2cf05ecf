-- ===== src/Sales/Errors.antt =====
-- apps/sales-api/src/common/api-error.ts, and what the code of the sales service may throw besides.
use tarea_integracion_sistem.Prelude.{ℕ, List, Option, none}
use tarea_integracion_sistem.Text.{Text, text}

pub record FieldError : Type 0 where
  pub field : Text
  pub reason : Text

-- The `details` are the `fieldErrors` of a rejected request.
pub record ApiError : Type 0 where
  pub status : ℕ
  pub code : Text
  pub message : Text
  pub details : Option (List FieldError)

abbrev pub api_error : ℕ → Text → Text → ApiError
api_error status code message = record {
  status = status;
  code = code;
  message = message;
  details = none;
}

abbrev pub internal_failure : ApiError
internal_failure =
    api_error 500 (text "INTERNAL_ERROR") (text "An unexpected internal error occurred")

-- An `ApiError`, another `HttpException` of the framework, an error of the database client with its
-- code, or any other error with its message.
pub data Exception : Type 0 where
  api : ApiError → Exception
  http : (status : ℕ) → Exception
  database : (code : Text) → Exception
  other : (message : Text) → Exception
