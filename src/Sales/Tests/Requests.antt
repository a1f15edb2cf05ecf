-- ===== src/Sales/Tests/Requests.antt =====
-- A request with a bad field inside a bad list.
use tarea_integracion_sistem.Prelude.{◌≡◌, [], ◌∷◌, map}
use tarea_integracion_sistem.Text.{text}
use tarea_integracion_sistem.Sales.Errors.{FieldError}
use tarea_integracion_sistem.Sales.Validation.{
  ValidationErrors, invalid, no_errors, more, validation_details,
}
use tarea_integracion_sistem.Sales.Validation.Reasons.{all_reasons, validation_details_reasons}

abbrev bad_items : ValidationErrors
bad_items =
    more
      (invalid (text "items") (text "too many" ∷ []) (
        more
          (invalid (text "0") []
            (more (invalid (text "partId") (text "no UUID" ∷ []) no_errors) no_errors))
          no_errors))
      no_errors

reasons_example :
    map (λ (detail : FieldError). detail.reason) (validation_details bad_items)
    ≡ all_reasons bad_items
reasons_example = validation_details_reasons bad_items
