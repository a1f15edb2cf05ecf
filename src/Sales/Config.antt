-- ===== src/Sales/Config.antt =====
-- apps/sales-api/src/config/app-config.ts: the configuration of the sales service, read once at the start.
pub mod Keys
use tarea_integracion_sistem.Prelude.{ℕ, ◌++◌, Option, none, some, if◌then◌else◌}
use tarea_integracion_sistem.Prelude.Result.{Result, ok, err, ◌>>=◌, ◌>>◌, throw_if, or_throw}
use tarea_integracion_sistem.Text.{Text, text, text_eq, decimal}
use tarea_integracion_sistem.Js.Process.{
  Env, Platform, Url, trimmed, or_text, in_range, is_postgres, described,
}

pub record SalesConfig : Type 0 where
  pub host : Text
  pub port : ℕ
  pub database_url : Text
  pub api_key_reader : Text
  pub api_key_operator : Text
  pub inventory_grpc_url : Text
  pub inventory_rpc_deadline_ms : ℕ
  pub inventory_proto_path : Text

abbrev pub default_proto_path : Text
default_proto_path = text "../../contracts/grpc/repuestossur/inventory/v1/inventory.proto"

module _ (platform : Platform) (env : Env) where
  abbrev integer_of : Option Text → Text → ℕ → ℕ → ℕ → Result Text ℕ
  integer_of none name fallback min max = ok fallback
  integer_of (some raw) name fallback min max =
      in_range
        (name
          ++ (text " must be an integer between "
              ++ (decimal min ++ (text " and " ++ decimal max))))
        (platform.to_integer raw) min max

  unfoldable pub read_integer : Text → ℕ → ℕ → ℕ → Result Text ℕ
  read_integer name = integer_of (trimmed env name) name

  unfoldable pub required : Text → Result Text Text
  required name = or_throw (name ++ text " is required") (trimmed env name)

  abbrev checked_url : Text → Option Url → Result Text Text
  checked_url value none = err (text "DATABASE_URL must be a valid PostgreSQL URL")
  checked_url value (some url) =
      if is_postgres url.protocol
      then ok value
      else err (text "DATABASE_URL must use postgresql://")

  unfoldable pub read_database_url : Result Text Text
  read_database_url =
      required (text "DATABASE_URL") >>= λ value. checked_url value (platform.parse_url value)

  unfoldable pub read_proto_path : Result Text Text
  read_proto_path =
      let path =
        platform.resolve (or_text (trimmed env (text "INVENTORY_PROTO_PATH")) default_proto_path) in
      if platform.exists_sync path
      then ok path
      else err (text "Inventory protobuf contract not found at " ++ path)

  -- `loadSalesConfig`; a `ConfigError` is its message.
  unfoldable pub load_sales_config : Result Text SalesConfig
  load_sales_config = do
    api_key_reader ← required (text "API_KEY_READER")
    api_key_operator ← required (text "API_KEY_OPERATOR")
    throw_if (text_eq api_key_reader api_key_operator)
        (text "API_KEY_READER and API_KEY_OPERATOR must be different")
    inventory_proto_path ← read_proto_path
    port ← read_integer (text "PORT") 3000 1 65535
    database_url ← read_database_url
    inventory_rpc_deadline_ms ← read_integer (text "INVENTORY_RPC_DEADLINE_MS") 800 1 120000
    ok (record {
      host = or_text (trimmed env (text "HOST")) (text "0.0.0.0");
      port = port;
      database_url = database_url;
      api_key_reader = api_key_reader;
      api_key_operator = api_key_operator;
      inventory_grpc_url =
          or_text (trimmed env (text "INVENTORY_GRPC_URL")) (text "inventory-grpc:50051");
      inventory_rpc_deadline_ms = inventory_rpc_deadline_ms;
      inventory_proto_path = inventory_proto_path;
    })

-- `describeDatabase`; `none` where `new URL` throws.
abbrev pub describe_database : Platform → Text → Option Text
describe_database platform database_url = elim (platform.parse_url database_url) [
  | none ↦ none
  | some url ↦ some (described url)
]
