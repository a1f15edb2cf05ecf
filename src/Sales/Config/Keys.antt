-- ===== src/Sales/Config/Keys.antt =====
-- The keys of a configuration that was loaded, at the guard.
use tarea_integracion_sistem.Prelude.{
  ◌≡◌, refl, ap, subst, Bool, true, false, [], ◌∷◌, Option, none, some, arith,
}
use tarea_integracion_sistem.Prelude.Result.{
  Result, ok, err, ◌>>◌, throw_if, or_throw, >>=-eq-ok, ok_injective,
}
use tarea_integracion_sistem.Text.{Text, text, text_eq, trim}
use tarea_integracion_sistem.Text.Laws.{text_eq_iff, text_eq_refl}
use tarea_integracion_sistem.Js.Process.{Env, Platform, trimmed, trimmed_or_none, not_empty}
use tarea_integracion_sistem.Sales.Guard.{ApiKeys, operator, reader, can_activate, forbidden}
use tarea_integracion_sistem.Sales.Config.{
  SalesConfig, load_sales_config, required, read_integer, read_database_url, read_proto_path,
}

-- The keys that the guard reads of the configuration.
abbrev pub keys_of : SalesConfig → ApiKeys
keys_of config = record {
  api_key_operator = config.api_key_operator;
  api_key_reader = config.api_key_reader;
}

not_empty-some : (s t : Text) → not_empty s ≡ some t → text_eq t [] ≡ false
unfolding text_eq
not_empty-some [] t h = cc
not_empty-some (c ∷ cs) t h =
    let e : c ∷ cs ≡ t = ground arith in subst (λ u. text_eq u [] ≡ false) e refl

trimmed-some : (raw : Option Text) (t : Text) → trimmed_or_none raw ≡ some t → text_eq t [] ≡ false
trimmed-some none t h = cc
trimmed-some (some raw) t h = not_empty-some (trim raw) t h

or_throw-ok : {A : Type 0} (e : Text) (o : Option A) {a : A} → or_throw e o ≡ ok a → o ≡ some a
or_throw-ok e none h = cc
or_throw-ok e (some b) h = ap some (ok_injective h)

throw_if-ok :
    (b : Bool) (e : Text) {A : Type 0} (k : Result Text A) {a : A}
    → (throw_if b e >> k) ≡ ok a
    → (b ≡ false) × (k ≡ ok a)
throw_if-ok true e k h = cc
throw_if-ok false e k h = (refl, h)

module _ (platform : Platform) (env : Env) where
  required-ok :
      (name value : Text) → required platform env name ≡ ok value → text_eq value [] ≡ false
  unfolding required
  required-ok name value h = trimmed-some (env name) value (or_throw-ok _ (trimmed env name) h)

  keys_differ :
      (config : SalesConfig)
      → load_sales_config platform env ≡ ok config
      → (text_eq config.api_key_reader [] ≡ false)
        × (text_eq config.api_key_operator [] ≡ false)
        × (text_eq config.api_key_reader config.api_key_operator ≡ false)
  unfolding load_sales_config
  keys_differ config h =
      let (reader_key, reader_read, h1) =
        >>=-eq-ok (required platform env (text "API_KEY_READER")) _ h in
      let (operator_key, operator_read, h2) =
        >>=-eq-ok (required platform env (text "API_KEY_OPERATOR")) _ h1 in
      let (differ, h3) = throw_if-ok (text_eq reader_key operator_key) _ _ h2 in
      let (path, found, h4) = >>=-eq-ok (read_proto_path platform env) _ h3 in
      let (port, port_read, h5) =
        >>=-eq-ok (read_integer platform env (text "PORT") 3000 1 65535) _ h4 in
      let (database, database_read, h6) = >>=-eq-ok (read_database_url platform env) _ h5 in
      let (deadline, deadline_read, h7) =
        >>=-eq-ok (read_integer platform env (text "INVENTORY_RPC_DEADLINE_MS") 800 1 120000) _
          h6 in
      subst
        (λ (c : SalesConfig).
          (text_eq c.api_key_reader [] ≡ false)
          × (text_eq c.api_key_operator [] ≡ false)
          × (text_eq c.api_key_reader c.api_key_operator ≡ false))
        (ok_injective h7)
        (
          required-ok (text "API_KEY_READER") reader_key reader_read,
          required-ok (text "API_KEY_OPERATOR") operator_key operator_read,
          differ,
        )

  -- With the keys of a configuration that was loaded, when a digest that the two share would make them
  -- the same key (the digest does not collide on these two), the reader's key reads and the operator's does everything, while any other method with the reader's key is 403.
  pub loaded_keys_separate :
      (sha256 : Text → Text) (config : SalesConfig) (method : Text)
      → (sha256 config.api_key_reader ≡ sha256 config.api_key_operator
          → config.api_key_reader ≡ config.api_key_operator)
      → load_sales_config platform env ≡ ok config
      → text_eq method (text "GET") ≡ false
      → let enter = λ (m key : Text).
        can_activate sha256 (keys_of config) false (record { method = m; api_key = some key }) in
        (enter (text "GET") config.api_key_reader ≡ ok (some reader))
        × (enter method config.api_key_reader ≡ err forbidden)
        × (enter (text "GET") config.api_key_operator ≡ ok (some operator))
        × (enter method config.api_key_operator ≡ ok (some operator))
  unfolding can_activate text_eq
  loaded_keys_separate sha256 config method apart_digests loaded other =
      let (has_reader, has_operator, differ) = keys_differ config loaded in
      let apart : text_eq (sha256 config.api_key_reader) (sha256 config.api_key_operator) ≡ false =
        ground (
          arith,
          text_eq_iff (sha256 config.api_key_reader) (sha256 config.api_key_operator),
          apart_digests,
          text_eq_iff config.api_key_reader config.api_key_operator,
        ) in
      let own = text_eq_refl (sha256 config.api_key_reader) in
      let own' = text_eq_refl (sha256 config.api_key_operator) in
      (
        rw (has_reader, apart, own) refl,
        rw (has_reader, apart, own, other) refl,
        rw (has_operator, own') refl,
        rw (has_operator, own', other) refl,
      )
