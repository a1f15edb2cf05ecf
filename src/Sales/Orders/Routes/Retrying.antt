-- ===== src/Sales/Orders/Routes/Retrying.antt =====
-- A client that sends a creation again under its key, though the first one was answered.
use tarea_integracion_sistem.Prelude.{
  ◌≡◌, refl, sym, ◌∙◌, ap, subst, true, false, List, [], none, some, map,
}
use tarea_integracion_sistem.Prelude.Int.{ℤ}
use tarea_integracion_sistem.Prelude.Result.{ok}
use tarea_integracion_sistem.Prelude.Tx.{commits}
use tarea_integracion_sistem.Text.{Text, text, text_eq, to_lower_case}
use tarea_integracion_sistem.Js.{at}
use tarea_integracion_sistem.Sales.Gateway.{InventoryGateway, ReservedStockItem}
use tarea_integracion_sistem.Sales.Orders.Views.{to_order_view, restore_create_response}
use tarea_integracion_sistem.Sales.Orders.Views.Restoring.{restore-create_response}
use tarea_integracion_sistem.Sales.Orders.Tables.{
  Tables, TablesLaws, IdempotencyRequest, in_progress, IsFresh, AreStorable,
}
use tarea_integracion_sistem.Sales.Orders.Service.{
  OrderCreate, CreateOrderSuccess, Environment, World, hash_request, is_valid_key, normalize_items,
  no_reservation, new_order, snapshot_row, assert_reservation_matches,
}
use tarea_integracion_sistem.Sales.Orders.Service.Replay.{fingerprint, confirmed_replays}
use tarea_integracion_sistem.Sales.Orders.Service.Claiming.{IsOpen, claims_open}
use tarea_integracion_sistem.Sales.Orders.Service.Confirmation.{
  confirms_held, made_order, confirmed_claim,
}
use tarea_integracion_sistem.Sales.Orders.Routes.{
  post_order, responded, response_of, CreatedResponse,
}

module _ (tables : Tables) (laws : TablesLaws tables) {Remote : Type 0}
    (gateway : InventoryGateway Remote) (env : Environment) (key : Text) (body : OrderCreate)
    (entry : IdempotencyRequest) (w : World tables.Db Remote) (valid : is_valid_key key ≡ true)
    (found : tables.find_request key w.db ≡ some entry)
    (same : entry.request_hash ≡ fingerprint env body) (open_key : entry.state ≡ in_progress)
    (customer : tables.has_customer (to_lower_case body.customer_id) w.db ≡ true)
    (identified : text_eq entry.order_id [] ≡ false) (snapshots : List ReservedStockItem)
    (after : Remote)
    (reserved : gateway.reserve entry.order_id (normalize_items body.items) env.trace_id w.remote
      ≡ (ok snapshots, after))
    (answered : assert_reservation_matches (normalize_items body.items) snapshots ≡ ok tt)
    (absent : tables.find_order entry.order_id w.db ≡ none)
    (fresh : IsFresh [] (
      map
        (λ i. i.part_id)
        (new_order tables gateway env entry.order_id
          (to_lower_case body.customer_id)
          snapshots).items))
    (fits : AreStorable (map (snapshot_row tables gateway env) snapshots))
    (ends : env.create_fate ≡ commits) where
  -- The key is in progress for the request.
  retry_held :
      (gateway' : InventoryGateway Remote) (later : Environment) (millis : ℤ)
      → later.sha256_hex ≡ env.sha256_hex
      → later.create_fate ≡ commits
      → env.now ≡ at millis
      → ((m : ℤ) → later.new_date (env.to_iso_string (at m)) ≡ at m)
      → let (answer, w') = post_order tables gateway env body (some key) w in
        (r : CreatedResponse) × (answer ≡ ok r)
        × (r.idempotency_replayed ≡ text "false")
        × (post_order tables gateway' later body (some key) w' ≡ (
          ok (record r { idempotency_replayed = text "true" }),
          no_reservation tables gateway' later w',
        ))
  unfolding post_order
  retry_held gateway' later millis hash commits_later clock reads_back =
      let (db', run, stored, there) =
        confirms_held tables laws gateway env key body entry w valid found same open_key customer
          identified snapshots after reserved answered absent fresh fits ends in
      let order = made_order tables gateway env body entry snapshots in
      let view = to_order_view order in
      let claim = confirmed_claim tables gateway env body entry snapshots in
      let first : CreateOrderSuccess = record { order = view; replayed = false } in
      let again : CreateOrderSuccess = record { order = view; replayed = true } in
      let second : World tables.Db Remote → Type 0 = λ v.
        post_order tables gateway' later body (some key) v
        ≡ (ok (response_of again), no_reservation tables gateway' later v) in
      let w₁ : World tables.Db Remote = record w {
        db = db';
        remote = after;
        reservation_order_id = some entry.order_id;
        reservation_succeeded = true;
      } in
      let posted : post_order tables gateway env body (some key) w ≡ (ok (response_of first), w₁) =
        ap (responded tables gateway env) run in
      let kept : claim.request_hash ≡ fingerprint later body =
        same
        ∙ ap (λ f. hash_request f (to_lower_case body.customer_id) (normalize_items body.items))
            (sym hash) in
      let restored : restore_create_response later.new_date claim.response_body view ≡ view =
        restore-create_response env.to_iso_string later.new_date reads_back view view millis millis
          clock clock in
      let repeated : second w₁ =
        ap (responded tables gateway' later) (
          confirmed_replays tables laws gateway' later key body claim w₁ valid stored commits_later
            kept order refl there)
        ∙ ap
            (λ o. (
              ok (response_of (record { order = o; replayed = true })),
              no_reservation tables gateway' later w₁,
            ))
            restored in
      (
        response_of first,
        ap (λ p. p.0) posted,
        refl,
        subst second (sym (ap (λ p. p.1) posted)) repeated,
      )

module _ (tables : Tables) (laws : TablesLaws tables) {Remote : Type 0}
    (gateway : InventoryGateway Remote) (env : Environment) (key : Text) (body : OrderCreate)
    (entry : IdempotencyRequest) (w : World tables.Db Remote) (valid : is_valid_key key ≡ true)
    (start : IsOpen tables env key body w.db entry)
    (customer : tables.has_customer (to_lower_case body.customer_id) w.db ≡ true)
    (identified : text_eq entry.order_id [] ≡ false) (snapshots : List ReservedStockItem)
    (after : Remote)
    (reserved : gateway.reserve entry.order_id (normalize_items body.items) env.trace_id w.remote
      ≡ (ok snapshots, after))
    (answered : assert_reservation_matches (normalize_items body.items) snapshots ≡ ok tt)
    (absent : tables.find_order entry.order_id w.db ≡ none)
    (fresh : IsFresh [] (
      map
        (λ i. i.part_id)
        (new_order tables gateway env entry.order_id
          (to_lower_case body.customer_id)
          snapshots).items))
    (fits : AreStorable (map (snapshot_row tables gateway env) snapshots))
    (ends : env.create_fate ≡ commits) where
  -- A known customer's request, under a valid key that is in progress for it, or new (with an
  -- order id that no other key has, and a hash of 64 units), whose order id is not empty and no
  -- order's, and whose reservation is answered with the lines that were asked for, no part twice,
  -- of 1 to 999 pieces and with names that fit the columns: the transaction commits, and the same
  -- request is sent again under the key at any later time, with any inventory behind the gateway,
  -- and its transaction commits too. Then both are answered with the same location and the same
  -- order, the first as new and the second as a replay, and the second calls no one and changes
  -- no table. The hash function is the same for both, the clock of the first is in range, and a
  -- date that was written as text is read back.
  pub retry_repeats_answer :
      (gateway' : InventoryGateway Remote) (later : Environment) (millis : ℤ)
      → later.sha256_hex ≡ env.sha256_hex
      → later.create_fate ≡ commits
      → env.now ≡ at millis
      → ((m : ℤ) → later.new_date (env.to_iso_string (at m)) ≡ at m)
      → let (answer, w') = post_order tables gateway env body (some key) w in
        (r : CreatedResponse) × (answer ≡ ok r)
        × (r.idempotency_replayed ≡ text "false")
        × (post_order tables gateway' later body (some key) w' ≡ (
          ok (record r { idempotency_replayed = text "true" }),
          no_reservation tables gateway' later w',
        ))
  unfolding post_order
  retry_repeats_answer gateway' later millis hash commits_later clock reads_back =
      let (db, claimed) = claims_open tables laws gateway env key body w valid entry start in
      subst
        (λ p.
          (r : CreatedResponse) × (p.0 ≡ ok r)
          × (r.idempotency_replayed ≡ text "false")
          × (post_order tables gateway' later body (some key) p.1 ≡ (
            ok (record r { idempotency_replayed = text "true" }),
            no_reservation tables gateway' later p.1,
          )))
        (sym (ap (responded tables gateway env) claimed.runs))
        (retry_held tables laws gateway env key body entry (record w { db = db }) valid
          claimed.holds.found claimed.holds.same claimed.holds.held
          (claimed.customers (to_lower_case body.customer_id) ∙ customer) identified snapshots after
          reserved answered (claimed.orders entry.order_id ∙ absent) fresh fits ends gateway' later
          millis hash commits_later clock reads_back)
