-- ===== src/Inventory/Config/Bounds.antt =====
-- A configuration that was loaded is usable.
use tarea_integracion_sistem.Prelude.{
  ℕ, ◌≤◌, ◌≡◌, refl, ap, ◌∙◌, subst, true, List, Option, none, some, arith, Bool-cases, inl, inr,
}
use tarea_integracion_sistem.Prelude.Result.{ok, >>=-eq-ok, ok_injective}
use tarea_integracion_sistem.Text.{Text, text, contains, text_eq}
use tarea_integracion_sistem.Js.Process.{Env, Platform, Url, trimmed, in_range_bounds, is_postgres}
use tarea_integracion_sistem.Inventory.Config.{
  AppConfig, load_config, read_integer, integer_of, read_choice, read_boolean, lowered, choice_of,
  read_database_url, url_of, checked_url, read_proto_path, log_levels, log_formats,
}

module _ (platform : Platform) (env : Env) where
  integer_of_bounds :
      (raw : Option Text) (name : Text) (fallback min max n : ℕ)
      → min ≤ fallback
      → fallback ≤ max
      → integer_of platform env raw name fallback min max ≡ ok n
      → (min ≤ n) × (n ≤ max)
  integer_of_bounds none name fallback min max n low high h = ground arith
  integer_of_bounds (some raw) name fallback min max n low high h =
      in_range_bounds _ (platform.to_integer raw) min max n h

  read_integer_bounds :
      (name : Text) (fallback min max n : ℕ)
      → min ≤ fallback
      → fallback ≤ max
      → read_integer platform env name fallback min max ≡ ok n
      → (min ≤ n) × (n ≤ max)
  unfolding read_integer
  read_integer_bounds name = integer_of_bounds (trimmed env name) name

  choice_of_among :
      (raw : Option Text) (name : Text) (choices : List Text) (fallback choice : Text)
      → contains fallback choices ≡ true
      → choice_of platform env raw name choices fallback ≡ ok choice
      → contains choice choices ≡ true
  choice_of_among none name choices fallback choice among h =
      let e : fallback ≡ choice = ground arith in subst (λ c. contains c choices ≡ true) e among
  choice_of_among (some raw) name choices fallback choice among h =
      elim (Bool-cases (contains raw choices)) [
        | inl listed ↦
            let e : raw ≡ choice = ground arith in subst (λ c. contains c choices ≡ true) e listed
        | inr unlisted ↦ absurd (ground arith)
      ]

  checked_url-ok :
      (raw value : Text) (url : Option Url)
      → checked_url platform env raw url ≡ ok value
      → (value ≡ raw) × ((u : Url) × (url ≡ some u) × (is_postgres u.protocol ≡ true))
  checked_url-ok raw value none h = cc
  checked_url-ok raw value (some u) h = elim (Bool-cases (is_postgres u.protocol)) [
    | inl good ↦ (ground arith, (u, refl, good))
    | inr bad ↦ absurd (ground arith)
  ]

  url_of-ok :
      (raw : Option Text) (value : Text)
      → url_of platform env raw ≡ ok value
      → (u : Url) × (platform.parse_url value ≡ some u) × (is_postgres u.protocol ≡ true)
  url_of-ok none value h = cc
  url_of-ok (some raw) value h =
      let (same, (u, parsed, good)) = checked_url-ok raw value (platform.parse_url raw) h in
      (u, ap platform.parse_url same ∙ parsed, good)

  read_database_url-ok :
      (value : Text)
      → read_database_url platform env ≡ ok value
      → (u : Url) × (platform.parse_url value ≡ some u) × (is_postgres u.protocol ≡ true)
  unfolding read_database_url
  read_database_url-ok = url_of-ok (trimmed env (text "DATABASE_URL"))

  read_choice_among :
      (name : Text) (choices : List Text) (fallback choice : Text)
      → contains fallback choices ≡ true
      → read_choice platform env name choices fallback ≡ ok choice
      → contains choice choices ≡ true
  unfolding read_choice
  read_choice_among name = choice_of_among (lowered platform env (trimmed env name)) name

  proto_path-ok :
      (path : Text) → read_proto_path platform env ≡ ok path → platform.exists_sync path ≡ true
  unfolding read_proto_path
  proto_path-ok path h = ground arith

  -- What the rest of the service relies on.
  pub record IsUsable (config : AppConfig) : Type 0 where
    pub url : Url
    pub url_parses : platform.parse_url config.database_url ≡ some url
    pub database : is_postgres url.protocol ≡ true
    pub contract : platform.exists_sync config.proto_path ≡ true
    pub port : (1 ≤ config.grpc_port) × (config.grpc_port ≤ 65535)
    pub format : contains config.log_format log_formats ≡ true
    pub level : contains config.log_level log_levels ≡ true
    pub interval :
        (500 ≤ config.health_check_interval_ms) × (config.health_check_interval_ms ≤ 60000)
    pub timeout : (1000 ≤ config.shutdown_timeout_ms) × (config.shutdown_timeout_ms ≤ 60000)

  -- A configuration that was loaded names a PostgreSQL database by a URL that parses and a contract
  -- that exists; its port, its interval and its timeout are in their ranges, and the format and the
  -- level of its log are among those that the logger knows.
  pub load_config-IsUsable :
      (config : AppConfig) → load_config platform env ≡ ok config → IsUsable config
  unfolding load_config contains text_eq
  load_config-IsUsable config h =
      let (path, found, h1) = >>=-eq-ok (read_proto_path platform env) _ h in
      let (database, valid, h2) = >>=-eq-ok (read_database_url platform env) _ h1 in
      let (port, port_read, h3) =
        >>=-eq-ok (read_integer platform env (text "GRPC_PORT") 50051 1 65535) _ h2 in
      let (format, format_read, h4) =
        >>=-eq-ok (read_choice platform env (text "LOG_FORMAT") log_formats (text "json")) _ h3 in
      let (level, level_read, h5) =
        >>=-eq-ok (read_choice platform env (text "LOG_LEVEL") log_levels (text "log")) _ h4 in
      let (reflection, reflection_read, h6) =
        >>=-eq-ok (read_boolean platform env (text "GRPC_REFLECTION") true) _ h5 in
      let (interval, interval_read, h7) =
        >>=-eq-ok (read_integer platform env (text "HEALTH_CHECK_INTERVAL_MS") 5000 500 60000) _
          h6 in
      let (timeout, timeout_read, h8) =
        >>=-eq-ok (read_integer platform env (text "SHUTDOWN_TIMEOUT_MS") 8000 1000 60000) _ h7 in
      let (u, parsed, good) = read_database_url-ok database valid in
      subst IsUsable (ok_injective h8) (record {
        url = u;
        url_parses = parsed;
        database = good;
        contract = proto_path-ok path found;
        port =
            read_integer_bounds (text "GRPC_PORT") 50051 1 65535 port (omega arith) (omega arith)
              port_read;
        format =
            read_choice_among (text "LOG_FORMAT") log_formats (text "json") format refl format_read;
        level = read_choice_among (text "LOG_LEVEL") log_levels (text "log") level refl level_read;
        interval =
            read_integer_bounds (text "HEALTH_CHECK_INTERVAL_MS") 5000 500 60000 interval
              (omega arith) (omega arith) interval_read;
        timeout =
            read_integer_bounds (text "SHUTDOWN_TIMEOUT_MS") 8000 1000 60000 timeout (omega arith)
              (omega arith) timeout_read;
      })
