-- ===== src/Sales/Tests/Startup.antt =====
-- A start of the sales service, and its guard.
use tarea_integracion_sistem.Prelude.{◌≡◌, refl, false, none, some, if◌then◌else◌}
use tarea_integracion_sistem.Prelude.Result.{ok, err}
use tarea_integracion_sistem.Text.{Text, text, text_eq, trim}
use tarea_integracion_sistem.Js.Process.{Env}
use tarea_integracion_sistem.Inventory.Tests.Startup.{platform}
use tarea_integracion_sistem.Sales.Guard.{operator, reader, can_activate, forbidden}
use tarea_integracion_sistem.Sales.Config.{
  SalesConfig, load_sales_config, required, read_integer, read_database_url, read_proto_path,
  default_proto_path,
}
use tarea_integracion_sistem.Sales.Config.Keys.{keys_of, loaded_keys_separate}
use tarea_integracion_sistem.Sales.Tests.{no_hash}

abbrev env : Env
env name =
    if text_eq name (text "DATABASE_URL")
    then some (text "postgresql://db/app")
    else if text_eq name (text "API_KEY_READER")
    then some (text " rd-key ")
    else if text_eq name (text "API_KEY_OPERATOR")
    then some (text "op-key")
    else none

abbrev loaded : SalesConfig
loaded = record {
  host = text "0.0.0.0";
  port = 3000;
  database_url = text "postgresql://db/app";
  api_key_reader = text "rd-key";
  api_key_operator = text "op-key";
  inventory_grpc_url = text "inventory-grpc:50051";
  inventory_rpc_deadline_ms = 800;
  inventory_proto_path = default_proto_path;
}

loads : load_sales_config platform env ≡ ok loaded
unfolding load_sales_config required read_integer read_database_url read_proto_path text_eq trim
loads = refl

post_is_no_get : text_eq (text "POST") (text "GET") ≡ false
unfolding text_eq
post_is_no_get = refl

keys_example :
    let enter = λ (m key : Text).
      can_activate no_hash (keys_of loaded) false (record { method = m; api_key = some key }) in
    (enter (text "GET") loaded.api_key_reader ≡ ok (some reader))
    × (enter (text "POST") loaded.api_key_reader ≡ err forbidden)
    × (enter (text "GET") loaded.api_key_operator ≡ ok (some operator))
    × (enter (text "POST") loaded.api_key_operator ≡ ok (some operator))
keys_example =
    loaded_keys_separate platform env no_hash loaded (text "POST") (λ e. e) loads post_is_no_get
