-- ===== src/Sales/Guard.antt =====
-- apps/sales-api/src/auth/api-key.guard.ts: who may call which endpoint. The hash function is a parameter,
-- with its digests as texts.
pub mod Access
use tarea_integracion_sistem.Prelude.{
  Bool, true, false, not, ◌&&◌, List, [], ◌∷◌, Option, none, some, if◌then◌else◌,
}
use tarea_integracion_sistem.Prelude.Result.{Result, ok, err}
use tarea_integracion_sistem.Text.{Text, text, text_eq}
use tarea_integracion_sistem.Sales.Errors.{ApiError, api_error}

pub data ApiKeyRole : Type 0 where
  operator reader : ApiKeyRole

-- The header is `none` where it is absent or no single string.
pub record AuthenticatedRequest : Type 0 where
  pub method : Text
  pub api_key : Option Text

pub record ApiKeys : Type 0 where
  pub api_key_operator : Text
  pub api_key_reader : Text

abbrev pub same_role : ApiKeyRole → ApiKeyRole → Bool
same_role operator operator = true
same_role reader reader = true
same_role _ _ = false

abbrev pub includes : ApiKeyRole → List ApiKeyRole → Bool
includes role [] = false
includes role (r ∷ rs) = if same_role r role then true else includes role rs

abbrev pub unauthorized : ApiError
unauthorized = api_error 401 (text "UNAUTHORIZED") (text "Missing or invalid API key")

abbrev pub forbidden : ApiError
forbidden =
    api_error 403 (text "FORBIDDEN")
      (text "The API key does not have permission for this operation")

abbrev pub key_of : Option Text → Text
key_of none = []
key_of (some key) = key

abbrev pub allowed_roles : Text → List ApiKeyRole
allowed_roles method = if text_eq method (text "GET") then reader ∷ operator ∷ [] else operator ∷ []

module _ (sha256 : Text → Text) (keys : ApiKeys) where
  unfoldable pub constant_time_equal : Text → Text → Bool
  constant_time_equal candidate expected = text_eq (sha256 candidate) (sha256 expected)

  -- `none` is a public route, which sets no role; `some role` is what `authRole` becomes.
  unfoldable pub can_activate : Bool → AuthenticatedRequest → Result ApiError (Option ApiKeyRole)
  unfolding constant_time_equal
  can_activate is_public request =
      if is_public
      then ok none
      else let key = key_of request.api_key in
        let is_operator = constant_time_equal key keys.api_key_operator in
        let is_reader = constant_time_equal key keys.api_key_reader in
        let role = if is_operator then operator else reader in
        if text_eq key []
        then err unauthorized
        else if not is_operator && not is_reader
        then err unauthorized
        else if not (includes role (allowed_roles request.method))
        then err forbidden
        else ok (some role)
