-- ===== src/Sales/Orders/Service/Replay.antt =====
-- A key that has a row already: a conflict, a replay, or a stored failure, with nothing changed.
use tarea_integracion_sistem.Prelude.{◌≡◌, refl, true, false, some}
use tarea_integracion_sistem.Prelude.Result.{ok, err}
use tarea_integracion_sistem.Prelude.Tx.{Fate, commits}
use tarea_integracion_sistem.Prelude.Act.{◌>>=◌, attempt}
use tarea_integracion_sistem.Text.{Text, text_eq, to_lower_case}
use tarea_integracion_sistem.Text.Laws.{text_eq_refl}
use tarea_integracion_sistem.Sales.Errors.{Exception, api}
use tarea_integracion_sistem.Sales.Gateway.{InventoryGateway}
use tarea_integracion_sistem.Sales.Orders.Views.{
  OrderRow, to_order_view, stored_failure, restore_create_response,
}
use tarea_integracion_sistem.Sales.Orders.Tables.{
  Tables, TablesLaws, IdempotencyRequest, confirmed_key, failed_key, in_progress,
}
use tarea_integracion_sistem.Sales.Orders.Service.{
  OrderCreate, Environment, World, normalize_items, hash_request, is_valid_key, key_conflict,
  create, create_valid, create_body, create_claim, in_transaction, finish, no_reservation, success,
  failure, CreateOrderOutcome, claim, find_claim, replay_confirmed, claim_result, Service,
  reserve_for,
}

-- The fingerprint under which a request is claimed.
abbrev pub fingerprint : Environment → OrderCreate → Text
fingerprint env body =
    hash_request env.sha256_hex (to_lower_case body.customer_id) (normalize_items body.items)

module _ (tables : Tables) {Remote : Type 0} (gateway : InventoryGateway Remote)
    (env : Environment) where
  pub in_transaction-commits :
      {A : Type 0} {fate : Fate Exception} (run : Service tables gateway env A)
      (w : World tables.Db Remote) {a : A} {w' : World tables.Db Remote}
      → fate ≡ commits
      → run w ≡ (ok a, w')
      → in_transaction tables gateway env fate run w ≡ (ok a, w')
  unfolding in_transaction
  in_transaction-commits run w ends done = rw (ends, done) refl

-- The claim of a key that has a row is refused by its primary key, which is no error.
pub claim_taken :
    (tables : Tables) (laws : TablesLaws tables) {Remote : Type 0}
    (gateway : InventoryGateway Remote) (env : Environment) (key : Text)
    (entry : IdempotencyRequest) (w : World tables.Db Remote)
    → tables.find_request key w.db ≡ some entry
    → (hash : Text)
    → (attempt (create_claim tables gateway env key hash) >>= claim_result tables gateway env) w
      ≡ (ok tt, w)
unfolding create_claim ◌>>=◌ text_eq
claim_taken tables laws gateway env key entry w found hash =
    rw (laws.create_request_taken (claim tables gateway env key hash) entry w.db found) refl

-- A request in progress, of a customer who exists, goes to the inventory.
pub body_reserves_lem :
    (tables : Tables) {Remote : Type 0} (gateway : InventoryGateway Remote) (env : Environment)
    (key : Text) (body : OrderCreate) (entry : IdempotencyRequest) (w : World tables.Db Remote)
    → tables.find_request key w.db ≡ some entry
    → entry.request_hash ≡ fingerprint env body
    → entry.state ≡ in_progress
    → tables.has_customer (to_lower_case body.customer_id) w.db ≡ true
    → create_body tables gateway env key
        (fingerprint env body)
        (to_lower_case body.customer_id)
        (normalize_items body.items)
        w
      ≡ reserve_for tables gateway env key entry
          (to_lower_case body.customer_id)
          (normalize_items body.items)
          true
          w
unfolding create_body find_claim ◌>>=◌
body_reserves_lem tables gateway env key body entry w found same open_key customer =
    rw (found, same, text_eq_refl (fingerprint env body), open_key, customer) refl

module _ (tables : Tables) (laws : TablesLaws tables) {Remote : Type 0}
    (gateway : InventoryGateway Remote) (env : Environment) (key : Text) (body : OrderCreate)
    (entry : IdempotencyRequest) (w : World tables.Db Remote) (valid : is_valid_key key ≡ true)
    (found : tables.find_request key w.db ≡ some entry) (ends : env.create_fate ≡ commits) where
  -- The claim is refused, and the transaction's outcome is the answer.
  pub create_of_outcome :
      (outcome : CreateOrderOutcome) (w' : World tables.Db Remote)
      → create_body tables gateway env key
          (fingerprint env body)
          (to_lower_case body.customer_id)
          (normalize_items body.items)
          (no_reservation tables gateway env w)
        ≡ (ok outcome, w')
      → create tables gateway env body (some key) w ≡ finish tables gateway env outcome w'
  unfolding create create_valid ◌>>=◌
  create_of_outcome outcome w' run =
      rw
        (
          valid,
          claim_taken tables laws gateway env key entry w found (fingerprint env body),
          in_transaction-commits tables gateway env _ _ ends run,
        )
        refl

  -- A key that was used for another request: 409, and nothing is done.
  pub reused_key_conflicts :
      text_eq entry.request_hash (fingerprint env body) ≡ false
      → create tables gateway env body (some key) w
        ≡ (err (api key_conflict), no_reservation tables gateway env w)
  unfolding create_body find_claim ◌>>=◌
  reused_key_conflicts differs =
      create_of_outcome (failure key_conflict) _ (rw (found, differs) refl)

  module _ (same : entry.request_hash ≡ fingerprint env body) where
    -- A repeated request whose order was made answers with the response stored at its creation, over
    -- the order as it is, marked as a replay; it calls no one and changes nothing.
    pub confirmed_replays :
        (order : OrderRow)
        → entry.state ≡ confirmed_key
        → tables.find_order entry.order_id w.db ≡ some order
        → create tables gateway env body (some key) w ≡ (
          ok (record {
            order = restore_create_response env.new_date entry.response_body (to_order_view order);
            replayed = true;
          }),
          no_reservation tables gateway env w,
        )
    unfolding create_body find_claim replay_confirmed ◌>>=◌
    confirmed_replays order state there =
        create_of_outcome
          (success (record {
            order = restore_create_response env.new_date entry.response_body (to_order_view order);
            replayed = true;
          }))
          _ (rw (found, same, text_eq_refl (fingerprint env body), state, there) refl)

    -- A repeated request that was rejected is rejected as it was then, whatever the inventory would
    -- say now; it calls no one and changes nothing.
    pub failed_replays :
        entry.state ≡ failed_key
        → create tables gateway env body (some key) w ≡ (
          err (api (stored_failure entry.response_status entry.response_body)),
          no_reservation tables gateway env w,
        )
    unfolding create_body find_claim ◌>>=◌
    failed_replays state =
        create_of_outcome (failure (stored_failure entry.response_status entry.response_body)) _
          (rw (found, same, text_eq_refl (fingerprint env body), state) refl)
