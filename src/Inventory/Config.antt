-- ===== src/Inventory/Config.antt =====
-- apps/inventory-grpc/src/config/app-config.ts, and the levels of apps/inventory-grpc/src/logging/logger.ts:
-- the configuration of the inventory, read once at the start.
pub mod Bounds
use tarea_integracion_sistem.Prelude.{
  ℕ, Bool, true, false, ◌||◌, List, [], ◌∷◌, ◌++◌, Option, none, some, if◌then◌else◌,
}
use tarea_integracion_sistem.Prelude.Result.{Result, ok, err, ◌>>=◌}
use tarea_integracion_sistem.Text.{Text, text, text_eq, contains, decimal, join_comma}
use tarea_integracion_sistem.Js.Process.{
  Env, Platform, Url, trimmed, or_text, not_empty, in_range, is_postgres, described,
}

pub record AppConfig : Type 0 where
  pub database_url : Text
  pub grpc_host : Text
  pub grpc_port : ℕ
  pub proto_path : Text
  pub log_format : Text
  pub log_level : Text
  pub reflection_enabled : Bool
  pub health_check_interval_ms : ℕ
  pub shutdown_timeout_ms : ℕ

abbrev pub log_levels : List Text
log_levels =
    text "fatal" ∷ text "error" ∷ text "warn" ∷ text "log" ∷ text "debug" ∷ text "verbose" ∷ []

abbrev pub log_formats : List Text
log_formats = text "json" ∷ text "text" ∷ []

abbrev pub default_proto_path : Text
default_proto_path = text "../../contracts/grpc/repuestossur/inventory/v1/inventory.proto"

abbrev quoted : Text → Text
quoted raw = text ": \"" ++ (raw ++ text "\"")

-- The levels that `createLogger` registers: the configured one and the graver ones.
abbrev pub levels_up_to : Text → List Text → List Text
levels_up_to level [] = []
levels_up_to level (l ∷ ls) = l ∷ (if text_eq l level then [] else levels_up_to level ls)

module _ (platform : Platform) (env : Env) where
  abbrev integer_of : Option Text → Text → ℕ → ℕ → ℕ → Result Text ℕ
  integer_of none name fallback min max = ok fallback
  integer_of (some raw) name fallback min max =
      in_range
        (name
          ++ (text " debe ser un entero entre "
              ++ (decimal min ++ (text " y " ++ (decimal max ++ quoted raw)))))
        (platform.to_integer raw) min max

  unfoldable pub read_integer : Text → ℕ → ℕ → ℕ → Result Text ℕ
  read_integer name = integer_of (trimmed env name) name

  abbrev lowered : Option Text → Option Text
  lowered none = none
  lowered (some raw) = not_empty (platform.lower raw)

  abbrev boolean_of : Option Text → Text → Bool → Result Text Bool
  boolean_of none name fallback = ok fallback
  boolean_of (some raw) name fallback =
      if text_eq raw (text "true") || text_eq raw (text "1")
      then ok true
      else if text_eq raw (text "false") || text_eq raw (text "0")
      then ok false
      else err (name ++ (text " debe ser true o false" ++ quoted raw))

  unfoldable pub read_boolean : Text → Bool → Result Text Bool
  read_boolean name = boolean_of (lowered (trimmed env name)) name

  abbrev choice_of : Option Text → Text → List Text → Text → Result Text Text
  choice_of none name choices fallback = ok fallback
  choice_of (some raw) name choices fallback =
      if contains raw choices
      then ok raw
      else err (name ++ (text " debe ser uno de " ++ (join_comma choices ++ quoted raw)))

  unfoldable pub read_choice : Text → List Text → Text → Result Text Text
  read_choice name = choice_of (lowered (trimmed env name)) name

  abbrev checked_url : Text → Option Url → Result Text Text
  checked_url raw none = err (text "DATABASE_URL no es una URL válida")
  checked_url raw (some url) =
      if is_postgres url.protocol
      then ok raw
      else err (text "DATABASE_URL debe ser postgresql://, no " ++ (url.protocol ++ text "//"))

  abbrev url_of : Option Text → Result Text Text
  url_of none = err (text "DATABASE_URL es obligatoria")
  url_of (some raw) = checked_url raw (platform.parse_url raw)

  unfoldable pub read_database_url : Result Text Text
  read_database_url = url_of (trimmed env (text "DATABASE_URL"))

  unfoldable pub read_proto_path : Result Text Text
  read_proto_path =
      let path =
        platform.resolve (or_text (trimmed env (text "INVENTORY_PROTO_PATH")) default_proto_path) in
      if platform.exists_sync path
      then ok path
      else err (text "no existe el contrato gRPC en " ++ (path ++ text " (INVENTORY_PROTO_PATH)"))

  -- `loadConfig`; a `ConfigError` is its message.
  unfoldable pub load_config : Result Text AppConfig
  load_config = do
    proto_path ← read_proto_path
    database_url ← read_database_url
    grpc_port ← read_integer (text "GRPC_PORT") 50051 1 65535
    log_format ← read_choice (text "LOG_FORMAT") log_formats (text "json")
    log_level ← read_choice (text "LOG_LEVEL") log_levels (text "log")
    reflection_enabled ← read_boolean (text "GRPC_REFLECTION") true
    health_check_interval_ms ← read_integer (text "HEALTH_CHECK_INTERVAL_MS") 5000 500 60000
    shutdown_timeout_ms ← read_integer (text "SHUTDOWN_TIMEOUT_MS") 8000 1000 60000
    ok (record {
      database_url = database_url;
      grpc_host = or_text (trimmed env (text "GRPC_HOST")) (text "0.0.0.0");
      grpc_port = grpc_port;
      proto_path = proto_path;
      log_format = log_format;
      log_level = log_level;
      reflection_enabled = reflection_enabled;
      health_check_interval_ms = health_check_interval_ms;
      shutdown_timeout_ms = shutdown_timeout_ms;
    })

-- `describeDatabase`; `none` where `new URL` throws.
abbrev pub describe_database : Platform → Text → Option Text
describe_database platform database_url = elim (platform.parse_url database_url) [
  | none ↦ none
  | some url ↦ some (described url)
]
