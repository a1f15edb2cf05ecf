-- ===== src/Sales/Guard/Access.antt =====
-- What a key may do.
use tarea_integracion_sistem.Prelude.{◌≡◌, ◌⊎◌, false, Option, some, arith, []}
use tarea_integracion_sistem.Prelude.Result.{ok}
use tarea_integracion_sistem.Text.{Text, text, text_eq}
use tarea_integracion_sistem.Text.Laws.{text_eq_iff}
use tarea_integracion_sistem.Sales.Guard.{
  ApiKeyRole, operator, reader, AuthenticatedRequest, ApiKeys, can_activate, key_of,
  constant_time_equal,
}

-- A protected endpoint is entered only with a key that is not empty and whose digest is that of a
-- configured key, and one that is no GET only with the operator's.
pub can_activate_sound :
    (sha256 : Text → Text) (keys : ApiKeys) (request : AuthenticatedRequest)
    (role : Option ApiKeyRole)
    → can_activate sha256 keys false request ≡ ok role
    → let key = key_of request.api_key in
      (text_eq key [] ≡ false)
      × ((role ≡ some operator) × (sha256 key ≡ sha256 keys.api_key_operator)
          ⊎ (role ≡ some reader)
            × (sha256 key ≡ sha256 keys.api_key_reader)
            × (request.method ≡ text "GET"))
unfolding can_activate constant_time_equal
can_activate_sound sha256 keys request role h =
    let key = key_of request.api_key in
    ground (
      arith,
      text_eq_iff (sha256 key) (sha256 keys.api_key_operator),
      text_eq_iff (sha256 key) (sha256 keys.api_key_reader),
      text_eq_iff request.method (text "GET"),
    )
