-- ===== src/Sales/Orders/Views/Restoring.antt =====
-- A stored response is read back as it was given.
use tarea_integracion_sistem.Prelude.{◌≡◌, refl, sym, ap₂, ◌∙◌, Option, none, some}
use tarea_integracion_sistem.Text.{Text, text_eq}
use tarea_integracion_sistem.Js.{Date, at}
use tarea_integracion_sistem.Prelude.Int.{ℤ}
use tarea_integracion_sistem.Sales.Errors.{ApiError, api_error}
use tarea_integracion_sistem.Sales.Orders.Views.{
  OrderView, get_field, stored_failure, failure_body, create_response_body, restore_create_response,
  OrderStatus, confirmed,
}

-- A failure stored with its status and its body is the same failure when it is read back; the
-- details of the request, which no stored failure has, are not kept.
pub stored_failure-failure_body :
    (error : ApiError)
    → stored_failure (some error.status) (some (failure_body error))
      ≡ api_error error.status error.code error.message
unfolding stored_failure get_field text_eq
stored_failure-failure_body error = refl

-- What is taken of the stored response, and what of the order as it is now.
pub restore-create_response :
    (to_iso_string : Date → Text) (new_date : Text → Date)
    (reads_back : (millis : ℤ) → new_date (to_iso_string (at millis)) ≡ at millis)
    (given current : OrderView) (created updated : ℤ) (at_creation : given.created_at ≡ at created)
    (at_update : given.updated_at ≡ at updated)
    → restore_create_response new_date (some (create_response_body to_iso_string given)) current
      ≡ record current {
        status = confirmed;
        created_at = given.created_at;
        updated_at = given.updated_at;
        cancelled_at = none;
      }
unfolding restore_create_response create_response_body get_field text_eq
restore-create_response to_iso_string new_date reads_back given current created updated at_creation
      at_update =
    rw (at_creation, at_update, reads_back created, reads_back updated) refl

-- The response to the creation of an order, stored as a body and read back over the order when only
-- its status, its time of update and its cancellation changed since, is the response as it was given:
-- confirmed, not cancelled, with the dates of then. The dates are in range, and a date that was
-- written as text is read back.
pub restored_response :
    (to_iso_string : Date → Text) (new_date : Text → Date)
    (reads_back : (millis : ℤ) → new_date (to_iso_string (at millis)) ≡ at millis)
    (given : OrderView) (created updated : ℤ) (status : OrderStatus) (updated_at : Date)
    (cancelled_at : Option Date)
    → given.created_at ≡ at created
    → given.updated_at ≡ at updated
    → given.status ≡ confirmed
    → given.cancelled_at ≡ none
    → restore_create_response new_date
        (some (create_response_body to_iso_string given))
        (record given { status = status; updated_at = updated_at; cancelled_at = cancelled_at })
      ≡ given
restored_response to_iso_string new_date reads_back given created updated status updated_at
      cancelled_at at_creation at_update is_confirmed not_cancelled =
    restore-create_response to_iso_string new_date reads_back given
      (record given { status = status; updated_at = updated_at; cancelled_at = cancelled_at })
      created updated at_creation at_update
    ∙ ap₂ (λ s c. record given { status = s; cancelled_at = c }) (sym is_confirmed)
        (sym not_cancelled)
