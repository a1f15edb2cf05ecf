-- ===== src/Inventory/Tests/Startup.antt =====
-- A start of the inventory with a few variables set.
use tarea_integracion_sistem.Prelude.{
  ℕ, ◌+◌, ◌-◌, ◌*◌, ◌≡◌, refl, true, [], ◌∷◌, none, some, if◌then◌else◌,
}
use tarea_integracion_sistem.Prelude.Int.{pos}
use tarea_integracion_sistem.Prelude.Result.{ok}
use tarea_integracion_sistem.Text.{Text, text, text_eq, trim, to_lower_case, contains}
use tarea_integracion_sistem.Js.Process.{Env, Platform}
use tarea_integracion_sistem.Inventory.Config.{
  AppConfig, load_config, read_integer, read_choice, read_boolean, read_database_url,
  read_proto_path, default_proto_path,
}
use tarea_integracion_sistem.Inventory.Config.Bounds.{IsUsable, load_config-IsUsable}

abbrev digits : ℕ → Text → ℕ
digits n [] = n
digits n (c ∷ cs) = digits (n * 10 + (c - 48)) cs

-- It reads digits, and takes every text for a PostgreSQL URL and every path for a file.
abbrev pub platform : Platform
platform = record {
  to_integer = λ raw. some (pos (digits 0 raw));
  parse_url = λ raw. some (record {
    protocol = text "postgresql:";
    hostname = text "db";
    port = [];
    pathname = text "/app";
  });
  resolve = λ path. path;
  exists_sync = λ path. true;
  lower = to_lower_case;
}

abbrev env : Env
env name =
    if text_eq name (text "DATABASE_URL")
    then some (text " postgresql://db/app ")
    else if text_eq name (text "GRPC_PORT")
    then some (text "6000")
    else if text_eq name (text "LOG_LEVEL")
    then some (text "WARN")
    else none

abbrev loaded : AppConfig
loaded = record {
  database_url = text "postgresql://db/app";
  grpc_host = text "0.0.0.0";
  grpc_port = 6000;
  proto_path = default_proto_path;
  log_format = text "json";
  log_level = text "warn";
  reflection_enabled = true;
  health_check_interval_ms = 5000;
  shutdown_timeout_ms = 8000;
}

loads : load_config platform env ≡ ok loaded
unfolding load_config read_integer read_choice read_boolean read_database_url read_proto_path
    text_eq trim to_lower_case contains
loads = refl

loaded-IsUsable : IsUsable platform env loaded
loaded-IsUsable = load_config-IsUsable platform env loaded loads
