-- ===== src/Js/Process.antt =====
-- What a service reads of its process at its start: the variables of the environment, and what the
-- platform makes of a text. The platform's functions are parameters of the model.
use tarea_integracion_sistem.Prelude.{
  ℕ, ◌≤◌, ◌≡◌, Bool, Option, none, some, ◌||◌, ltb, if◌then◌else◌, arith, [], ◌∷◌, ◌++◌,
}
use tarea_integracion_sistem.Prelude.Int.{ℤ, pos, negsuc}
use tarea_integracion_sistem.Prelude.Result.{Result, ok, err}
use tarea_integracion_sistem.Text.{Text, text, text_eq, trim}

abbrev pub Env : Type 0
Env = Text → Option Text

-- The parts of `new URL(value)`.
pub record Url : Type 0 where
  pub protocol : Text
  pub hostname : Text
  pub port : Text
  pub pathname : Text

pub record Platform : Type 0 where
  -- `Number(raw)` where `Number.isInteger` holds of it
  pub to_integer : Text → Option ℤ
  -- `new URL(value)`; `none` where it throws
  pub parse_url : Text → Option Url
  -- `resolve` of `node:path`
  pub resolve : Text → Text
  -- `existsSync`
  pub exists_sync : Text → Bool
  -- `toLowerCase`
  pub lower : Text → Text

-- `raw || …`: an empty text counts as none.
abbrev pub not_empty : Text → Option Text
not_empty [] = none
not_empty (c ∷ cs) = some (c ∷ cs)

abbrev pub trimmed_or_none : Option Text → Option Text
trimmed_or_none none = none
trimmed_or_none (some raw) = not_empty (trim raw)

-- `env[name]?.trim()`, none where it is falsy
abbrev pub trimmed : Env → Text → Option Text
trimmed env name = trimmed_or_none (env name)

abbrev pub or_text : Option Text → Text → Text
or_text none fallback = fallback
or_text (some raw) fallback = raw

-- `Number.isInteger(value)` and the two bounds, for bounds that are not negative.
abbrev pub in_range : Text → Option ℤ → ℕ → ℕ → Result Text ℕ
in_range message (some (pos n)) min max = if ltb n min || ltb max n then err message else ok n
in_range message (some (negsuc n)) min max = err message
in_range message none min max = err message

pub in_range_bounds :
    (message : Text) (value : Option ℤ) (min max n : ℕ)
    → in_range message value min max ≡ ok n
    → (min ≤ n) × (n ≤ max)
in_range_bounds message none min max n h = cc
in_range_bounds message (some (negsuc m)) min max n h = cc
in_range_bounds message (some (pos m)) min max n h = ground arith

abbrev pub is_postgres : Text → Bool
is_postgres protocol = text_eq protocol (text "postgresql:") || text_eq protocol (text "postgres:")

-- `${hostname}:${port || '5432'}${pathname}`
abbrev pub described : Url → Text
described url =
    url.hostname ++ (text ":" ++ (or_text (not_empty url.port) (text "5432") ++ url.pathname))
