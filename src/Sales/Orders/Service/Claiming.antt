-- ===== src/Sales/Orders/Service/Claiming.antt =====
-- The claim of a key: a request under a key that no one used writes its row, and goes on as one under
-- a key in progress does.
use tarea_integracion_sistem.Prelude.{
  ◌≡◌, ◌≤◌, refl, sym, ap, ◌∙◌, true, false, none, some, length, ◌⊎◌, inl, inr, arith,
}
use tarea_integracion_sistem.Prelude.Act.{◌>>=◌}
use tarea_integracion_sistem.Text.{Text, text_eq}
use tarea_integracion_sistem.Text.Laws.{text_eq_refl}
use tarea_integracion_sistem.Sales.Gateway.{InventoryGateway}
use tarea_integracion_sistem.Sales.Orders.Tables.{
  Tables, TablesLaws, IdempotencyRequest, in_progress,
}
use tarea_integracion_sistem.Sales.Orders.Service.{
  OrderCreate, Environment, World, is_valid_key, create, create_valid, create_claim, claim,
}
use tarea_integracion_sistem.Sales.Orders.Service.Replay.{fingerprint, claim_taken}

module _ (tables : Tables) (env : Environment) (key : Text) (body : OrderCreate) where
  -- No one used the key, no other key has the order id that was drawn, and the hash has the width of
  -- its column.
  pub record IsUnused (db : tables.Db) (entry : IdempotencyRequest) : Type 0 where
    pub unused : tables.find_request key db ≡ none
    pub own_order :
        (k : Text) (old : IdempotencyRequest)
        → tables.find_request k db ≡ some old
        → text_eq old.order_id env.random_uuid ≡ false
    pub hash_fits : length (fingerprint env body) ≡ 64
    pub drawn : entry ≡ record {
      key = key;
      request_hash = fingerprint env body;
      order_id = env.random_uuid;
      state = in_progress;
      response_status = none;
      response_body = none;
    }

  -- The key is in progress, for this request.
  pub record IsHeld (db : tables.Db) (entry : IdempotencyRequest) : Type 0 where
    pub found : tables.find_request key db ≡ some entry
    pub same : entry.request_hash ≡ fingerprint env body
    pub held : entry.state ≡ in_progress

  -- The request may go on, under this row of its key: the row that it writes, or the one of before.
  abbrev pub IsOpen : tables.Db → IdempotencyRequest → Type 0
  IsOpen db entry = IsUnused db entry ⊎ IsHeld db entry

module _ (tables : Tables) {Remote : Type 0} (gateway : InventoryGateway Remote) (env : Environment)
    (key : Text) (body : OrderCreate) where
  -- What a request does is what it does when the row of its key was there from the start.
  pub record IsClaimed (w : World tables.Db Remote) (entry : IdempotencyRequest) (db : tables.Db)
      : Type 0 where
    pub runs :
        create tables gateway env body (some key) w
        ≡ create tables gateway env body (some key) (record w { db = db })
    pub holds : IsHeld tables env key body db entry
    pub orders : (j : Text) → tables.find_order j db ≡ tables.find_order j w.db
    pub customers : (c : Text) → tables.has_customer c db ≡ tables.has_customer c w.db

key_fits : (key : Text) → is_valid_key key ≡ true → length key ≤ 128
unfolding is_valid_key
key_fits key valid = ground arith

module _ (tables : Tables) (laws : TablesLaws tables) {Remote : Type 0}
    (gateway : InventoryGateway Remote) (env : Environment) (key : Text) (body : OrderCreate)
    (w : World tables.Db Remote) (valid : is_valid_key key ≡ true) where
  claims_unused :
      (entry : IdempotencyRequest)
      → IsUnused tables env key body w.db entry
      → (db : tables.Db) × IsClaimed tables gateway env key body w entry db
  unfolding create create_valid create_claim ◌>>=◌
  claims_unused entry start =
      let new = claim tables gateway env key (fingerprint env body) in
      let (db, wrote, requests, orders, customers) =
        laws.create_request_law new w.db start.unused start.own_order (key_fits key valid)
          start.hash_fits in
      let there : tables.find_request key db ≡ some new =
        requests key ∙ rw (text_eq_refl key) refl in
      (
        db,
        record {
          runs =
              rw
                (
                  valid,
                  wrote,
                  claim_taken tables laws gateway env key new (record w { db = db }) there
                      (fingerprint env body),
                )
                refl;
          holds = record {
            found = there ∙ ap some (sym start.drawn);
            same = ap (λ e. e.request_hash) start.drawn;
            held = ap (λ e. e.state) start.drawn;
          };
          orders = orders;
          customers = customers;
        },
      )

  pub claims_open :
      (entry : IdempotencyRequest)
      → IsOpen tables env key body w.db entry
      → (db : tables.Db) × IsClaimed tables gateway env key body w entry db
  claims_open entry start = elim start [
    | inl unused ↦ claims_unused entry unused
    | inr held ↦
        (w.db, record { runs = refl; holds = held; orders = λ j. refl; customers = λ c. refl })
  ]
