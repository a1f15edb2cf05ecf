-- ===== src/Sales/Validation/Reasons.antt =====
-- No reported error is lost on its way to the answer.
use mathlib.Core.List.{map-append}
use tarea_integracion_sistem.Prelude.{◌≡◌, refl, ap, ap₂, ◌∙◌, List, [], ◌∷◌, ◌++◌, map}
use tarea_integracion_sistem.Text.{Text}
use tarea_integracion_sistem.Sales.Errors.{FieldError}
use tarea_integracion_sistem.Sales.Validation.{
  ValidationError, ValidationErrors, invalid, no_errors, more, field_path, field_errors, visit_one,
  visit, validation_details,
}

-- The texts of a tree of errors: those of an error before those of what it holds.
mutual
  pub reasons_of : ValidationError → List Text
  reasons_of (invalid property constraints children) = constraints ++ all_reasons children

  pub all_reasons : ValidationErrors → List Text
  all_reasons no_errors = []
  all_reasons (more error errors) = reasons_of error ++ all_reasons errors

abbrev reason_of : FieldError → Text
reason_of detail = detail.reason

field_errors_reasons :
    (field : Text) (reasons : List Text) → map reason_of (field_errors field reasons) ≡ reasons
field_errors_reasons field [] = refl
field_errors_reasons field (r ∷ rs) = ap (λ rest. r ∷ rest) (field_errors_reasons field rs)

mutual
  unfolding visit reasons_of

  visit_one_reasons :
      (parent : Text) (error : ValidationError)
      → map reason_of (visit_one parent error) ≡ reasons_of error
  visit_one_reasons parent (invalid property constraints children) =
      map-append reason_of (field_errors (field_path parent property) constraints)
        (visit (field_path parent property) children)
      ∙ ap₂ ◌++◌ (field_errors_reasons (field_path parent property) constraints)
          (visit_reasons (field_path parent property) children)

  visit_reasons :
      (parent : Text) (errors : ValidationErrors)
      → map reason_of (visit parent errors) ≡ all_reasons errors
  visit_reasons parent no_errors = refl
  visit_reasons parent (more error errors) =
      map-append reason_of (visit_one parent error) (visit parent errors)
      ∙ ap₂ ◌++◌ (visit_one_reasons parent error) (visit_reasons parent errors)

-- The details of the answer give every text of the reported errors once, in their order.
pub validation_details_reasons :
    (errors : ValidationErrors)
    → map (λ (detail : FieldError). detail.reason) (validation_details errors) ≡ all_reasons errors
unfolding validation_details
validation_details_reasons = visit_reasons []
