-- ===== src/Inventory/Logging/Redaction.antt =====
-- `redactSecrets` of apps/inventory-grpc/src/logging/logger.ts: `replace` with the pattern
-- `/([a-z][a-z0-9+.-]*:\/\/)[^\s/@]+@/gi`. No unit of a repetition can begin what follows it, so a match
-- is found without going back.
pub mod Urls
use tarea_integracion_sistem.Prelude.{
  ℕ, zero, suc, Bool, not, ◌&&◌, ◌||◌, [], ◌∷◌, ◌++◌, Option, none, some, leb, ◌==◌, length,
  if◌then◌else◌,
}
use tarea_integracion_sistem.Text.{Text, text, is_space}

-- `[a-z]`, in either case
abbrev pub is_letter : ℕ → Bool
is_letter c = (leb b'a' c && leb c b'z') || (leb b'A' c && leb c b'Z')

-- `[a-z0-9+.-]`, in either case
abbrev pub is_scheme_unit : ℕ → Bool
is_scheme_unit c = is_letter c || (leb b'0' c && leb c b'9') || c == b'+' || c == b'.' || c == b'-'

-- `[^\s/@]`
abbrev pub is_credential_unit : ℕ → Bool
is_credential_unit c = not (is_space c || c == b'/' || c == b'@')

-- The longest beginning whose units pass the test, and the rest.
abbrev pub passing : (ℕ → Bool) → Text → Text
passing test [] = []
passing test (c ∷ cs) = if test c then c ∷ passing test cs else []

abbrev pub rest_after : (ℕ → Bool) → Text → Text
rest_after test [] = []
rest_after test (c ∷ cs) = if test c then rest_after test cs else c ∷ cs

-- What follows `://`.
abbrev after_slashes : Text → Option Text
after_slashes (a ∷ b ∷ c ∷ cs) = if a == b':' && b == b'/' && c == b'/' then some cs else none
after_slashes _ = none

abbrev after_at_sign : Text → Text → Option Text
after_at_sign [] _ = none
after_at_sign (u ∷ us) [] = none
after_at_sign (u ∷ us) (c ∷ cs) = if c == b'@' then some cs else none

-- What follows the credentials and their `@`.
abbrev pub after_credentials : Option Text → Option Text
after_credentials none = none
after_credentials (some t) =
    after_at_sign (passing is_credential_unit t) (rest_after is_credential_unit t)

-- What follows a match at the beginning of the text, `(c ∷ cs)`.
abbrev pub after_match : ℕ → Text → Option Text
after_match c cs =
    if is_letter c then after_credentials (after_slashes (rest_after is_scheme_unit cs)) else none

-- `$1***@`
abbrev pub replacement : ℕ → Text → Text
replacement c cs = (c ∷ passing is_scheme_unit cs) ++ text "://***@"

-- One turn, before the turns of the rest.
abbrev pub one_turn : (Text → Text) → Option Text → ℕ → Text → Text
one_turn go (some rest) c cs = replacement c cs ++ go rest
one_turn go none c cs = c ∷ go cs

-- On fuel: each turn goes past at least one unit.
unfoldable pub redact : ℕ → Text → Text
redact zero t = t
redact (suc fuel) [] = []
redact (suc fuel) (c ∷ cs) = one_turn (redact fuel) (after_match c cs) c cs

unfoldable pub redact_secrets : Text → Text
unfolding redact
redact_secrets t = redact (length t) t
