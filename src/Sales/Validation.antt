-- ===== src/Sales/Validation.antt =====
-- `validationDetails` of apps/sales-api/src/main.ts: the errors that the validation of a request reports, a
-- tree, become the `fieldErrors` of the answer, with the path of each field.
pub mod Reasons
use tarea_integracion_sistem.Prelude.{List, [], ◌∷◌, ◌++◌, some}
use tarea_integracion_sistem.Text.{Text, text}
use tarea_integracion_sistem.Sales.Errors.{FieldError, ApiError, api_error}

-- The texts of its constraints, and the errors of what it holds.
mutual
  pub data ValidationError : Type 0 where
    invalid :
        (property : Text) (constraints : List Text) (children : ValidationErrors) → ValidationError

  pub data ValidationErrors : Type 0 where
    no_errors : ValidationErrors
    more : ValidationError → ValidationErrors → ValidationErrors

abbrev pub field_path : Text → Text → Text
field_path [] property = property
field_path (c ∷ cs) property = (c ∷ cs) ++ (text "." ++ property)

abbrev field_errors : Text → List Text → List FieldError
field_errors field [] = []
field_errors field (reason ∷ reasons) =
    record { field = field; reason = reason } ∷ field_errors field reasons

-- `visit`
mutual
  visit_one : Text → ValidationError → List FieldError
  visit_one parent (invalid property constraints children) =
      field_errors (field_path parent property) constraints
      ++ visit (field_path parent property) children

  visit : Text → ValidationErrors → List FieldError
  visit parent no_errors = []
  visit parent (more error errors) = visit_one parent error ++ visit parent errors

unfoldable pub validation_details : ValidationErrors → List FieldError
unfolding visit
validation_details errors = visit [] errors

-- What the `exceptionFactory` of the validation throws.
abbrev pub validation_failure : ValidationErrors → ApiError
validation_failure errors =
    record (api_error 400 (text "VALIDATION_ERROR") (text "Request validation failed")) {
      details = some (validation_details errors);
    }
