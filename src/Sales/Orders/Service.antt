-- ===== src/Sales/Orders/Service.antt =====
-- apps/sales-api/src/orders/orders.service.ts: the creation of an order, its recovery and its
-- cancellation. The state is the database, the state of the inventory behind the gateway, and the
-- two variables that the body of the transaction sets for the code around it. A transaction that
-- throws takes back what it did to the database, not what it did to the others.
pub mod Requests
pub mod Claiming
pub mod Matching
pub mod Outcomes
pub mod Replay
pub mod Rejection
pub mod Recovery
pub mod Confirmation
unfoldable pub use Requests.*
use tarea_integracion_sistem.Prelude.{
  ℕ, ◌+◌, ◌-◌, ◌*◌, Bool, true, false, not, ◌&&◌, ◌||◌, List, [], ◌∷◌, map, Option, none, some,
  ◌==◌, if◌then◌else◌,
}
use tarea_integracion_sistem.Prelude.Result
use tarea_integracion_sistem.Prelude.Result.{Result, ok, err, or_throw}
use tarea_integracion_sistem.Prelude.Tx.{Fate, commits, rolled_back, ack_lost}
use tarea_integracion_sistem.Prelude.Act.{
  Act, pure, throw, gets, modify, lift, attempt, ◌>>=◌, ◌>>◌,
}
use tarea_integracion_sistem.Text.{Text, text, text_eq, to_lower_case}
use tarea_integracion_sistem.Js.{Date}
use tarea_integracion_sistem.Sales.Errors.{
  ApiError, internal_failure, Exception, api, database, other,
}
use tarea_integracion_sistem.Sales.Gateway.{InventoryGateway, ReserveStockItem, ReservedStockItem}
use tarea_integracion_sistem.Sales.Orders.Views.{
  OrderRow, OrderItemRow, OrderView, confirmed, to_order_view, stored_failure, failure_body,
  create_response_body, restore_create_response,
}
use tarea_integracion_sistem.Sales.Orders.Tables.{
  Tables, IdempotencyRequest, IdempotencyState, in_progress, confirmed_key, failed_key,
  compensating, NewOrder,
}

-- What the service takes from the platform, and how its transactions end.
pub record Environment : Type 0 where
  pub sha256_hex : Text → Text
  pub to_iso_string : Date → Text
  pub new_date : Text → Date
  pub random_uuid : Text
  pub now : Date
  -- Prisma's reading of the clock for an `@updatedAt` column
  pub updated_at : Date
  pub trace_id : Text
  pub create_fate : Fate Exception
  pub prepare_fate : Fate Exception
  pub compensate_fate : Fate Exception

abbrev pub failed_with : ApiError → IdempotencyRequest → IdempotencyRequest
failed_with error entry = record entry {
  state = failed_key;
  response_status = some error.status;
  response_body = some (failure_body error);
}

pub record World (Db Remote : Type 0) : Type 0 where
  pub db : Db
  pub remote : Remote
  pub reservation_order_id : Option Text
  pub reservation_succeeded : Bool

module _ (tables : Tables) {Remote : Type 0} (gateway : InventoryGateway Remote)
    (env : Environment) where
  open tables use {Db}

  abbrev pub Service : Type 0 → Type 0
  Service A = Act Exception (World Db Remote) A

  abbrev wrote :
      World Db Remote → Result Exception Db → Result Exception (Unit {0}) × World Db Remote
  wrote w (ok db) = (ok tt, record w { db = db })
  wrote w (err e) = (err e, w)

  abbrev wrote_order :
      World Db Remote
      → Result Exception (OrderRow × Db)
      → Result Exception OrderRow × World Db Remote
  wrote_order w (ok (order, db)) = (ok order, record w { db = db })
  wrote_order w (err e) = (err e, w)

  abbrev called :
      {A : Type 0}
      → World Db Remote
      → Result Exception A × Remote
      → Result Exception A × World Db Remote
  called w (result, remote) = (result, record w { remote = remote })

  abbrev ending :
      {A : Type 0}
      → Fate Exception
      → Db
      → Result Exception A × World Db Remote
      → Result Exception A × World Db Remote
  ending commits before (ok a, w) = (ok a, w)
  ending (rolled_back e) before (ok a, w) = (err e, record w { db = before })
  ending (ack_lost e) before (ok a, w) = (err e, w)
  ending fate before (err e, w) = (err e, record w { db = before })

  -- `prisma.$transaction`
  unfoldable pub in_transaction : {A : Type 0} → Fate Exception → Service A → Service A
  in_transaction fate body w = ending fate w.db (body w)

  unfoldable pub find_claim : Text → Text → Service IdempotencyRequest
  find_claim message key w = (or_throw (other message) (tables.find_request key w.db), w)

  unfoldable pub update_claim : Text → IdempotencyRequest → Service (Unit {0})
  update_claim key entry w = wrote w (tables.update_request key entry w.db)

  unfoldable pub call_release : Text → Service (Unit {0})
  call_release order_id w = called w (gateway.release order_id env.trace_id w.remote)

  unfoldable pub call_reserve : Text → List ReserveStockItem → Service (List ReservedStockItem)
  call_reserve order_id items w = called w (gateway.reserve order_id items env.trace_id w.remote)

  -- The answer for a confirmed key: the response of then, over the order of now.
  unfoldable pub replay_confirmed : IdempotencyRequest → Service CreateOrderOutcome
  replay_confirmed entry w = (
    Result.◌>>=◌
        (or_throw (other (text "Confirmed idempotency record has no order"))
          (tables.find_order entry.order_id w.db))
        λ order. ok (
          success (record {
            order = restore_create_response env.new_date entry.response_body (to_order_view order);
            replayed = true;
          })),
    w,
  )

  abbrev pub stored_outcome : IdempotencyRequest → CreateOrderOutcome
  stored_outcome entry = failure (stored_failure entry.response_status entry.response_body)

  -- The end of a compensation: the reservation is released, then the key is failed.
  unfoldable pub compensate : Text → IdempotencyRequest → Service CreateOrderOutcome
  compensate key entry =
      call_release entry.order_id
      >> update_claim key (record entry { state = failed_key })
      >> pure (stored_outcome entry)

  -- `recoverFailedCreate`, its first transaction; `none` is "compensating".
  prepare_state : Text → IdempotencyState → IdempotencyRequest → Service (Option CreateOrderOutcome)
  prepare_state key confirmed_key entry = replay_confirmed entry >>= λ outcome. pure (some outcome)
  prepare_state key failed_key entry = pure (some (stored_outcome entry))
  prepare_state key in_progress entry =
      update_claim key (record (failed_with internal_failure entry) { state = compensating })
      >> pure none
  prepare_state key compensating entry = pure none

  unfoldable pub prepare_body : Text → Service (Option CreateOrderOutcome)
  unfolding prepare_state
  prepare_body key =
      find_claim (text "Idempotency claim disappeared during compensation") key >>= λ entry.
      prepare_state key entry.state entry

  -- and its second.
  compensate_state : Text → IdempotencyState → IdempotencyRequest → Service CreateOrderOutcome
  compensate_state key confirmed_key entry = replay_confirmed entry
  compensate_state key failed_key entry = pure (stored_outcome entry)
  compensate_state key in_progress entry =
      throw (other (text "Idempotency compensation state changed unexpectedly"))
  compensate_state key compensating entry = compensate key entry

  unfoldable pub compensate_body : Text → Service CreateOrderOutcome
  unfolding compensate_state
  compensate_body key =
      find_claim (text "Idempotency claim disappeared during compensation") key >>= λ entry.
      compensate_state key entry.state entry

  abbrev after_prepare : Text → Option CreateOrderOutcome → Service CreateOrderOutcome
  after_prepare key (some outcome) = pure outcome
  after_prepare key none = in_transaction env.compensate_fate (compensate_body key)

  unfoldable pub recover_failed_create : Text → Service CreateOrderOutcome
  recover_failed_create key =
      in_transaction env.prepare_fate (prepare_body key) >>= after_prepare key

  -- The rows of the order's items, as the inventory answered.
  abbrev pub snapshot_row : ReservedStockItem → OrderItemRow
  snapshot_row item = record {
    part_id = to_lower_case item.part_id;
    part_sku_snapshot = item.sku;
    part_name_snapshot = item.name;
    quantity = item.quantity;
  }

  abbrev pub new_order : Text → Text → List ReservedStockItem → NewOrder
  new_order id customer_id snapshots = record {
    id = id;
    customer_id = customer_id;
    items = map snapshot_row snapshots;
  }

  unfoldable pub create_order_row : NewOrder → Service OrderRow
  create_order_row new w = wrote_order w (tables.create_order env.now new w.db)

  abbrev pub confirmed_with : OrderView → IdempotencyRequest → IdempotencyRequest
  confirmed_with view entry = record entry {
    state = confirmed_key;
    response_status = some 201;
    response_body = some (create_response_body env.to_iso_string view);
  }

  abbrev pub mark_succeeded : World Db Remote → World Db Remote
  mark_succeeded w = record w { reservation_succeeded = true }

  unfoldable pub reserve_failed : Text → IdempotencyRequest → Exception → Service CreateOrderOutcome
  reserve_failed key entry e =
      if ambiguous_failure e
      then pure (failure (public_inventory_error e))
      else (update_claim key (failed_with (public_inventory_error e) entry)
          >> pure (failure (public_inventory_error e)))

  unfoldable pub after_reserve :
      Text
      → IdempotencyRequest
      → Text
      → List ReserveStockItem
      → Result Exception (List ReservedStockItem)
      → Service CreateOrderOutcome
  unfolding reserve_failed
  after_reserve key entry customer_id items (err e) = reserve_failed key entry e
  after_reserve key entry customer_id items (ok snapshots) =
      modify mark_succeeded
      >> lift (assert_reservation_matches items snapshots)
      >> (create_order_row (new_order entry.order_id customer_id snapshots) >>= λ order.
          update_claim key (confirmed_with (to_order_view order) entry)
          >> pure (success (record { order = to_order_view order; replayed = false })))

  abbrev pub mark_order : Text → World Db Remote → World Db Remote
  mark_order order_id w = record w { reservation_order_id = some order_id }

  unfoldable pub reserve_for :
      Text → IdempotencyRequest → Text → List ReserveStockItem → Bool → Service CreateOrderOutcome
  unfolding after_reserve
  reserve_for key entry customer_id items false =
      update_claim key (failed_with customer_not_found entry) >> pure (failure customer_not_found)
  reserve_for key entry customer_id items true =
      modify (mark_order entry.order_id)
      >> (attempt (call_reserve entry.order_id items) >>= after_reserve key entry customer_id items)

  claimed_state :
      Text
      → Text
      → List ReserveStockItem
      → IdempotencyState
      → IdempotencyRequest
      → Service CreateOrderOutcome
  unfolding reserve_for
  claimed_state key customer_id items confirmed_key entry = replay_confirmed entry
  claimed_state key customer_id items failed_key entry = pure (stored_outcome entry)
  claimed_state key customer_id items compensating entry = compensate key entry
  claimed_state key customer_id items in_progress entry =
      gets (λ w. tables.has_customer customer_id w.db) >>= reserve_for key entry customer_id items

  -- The transaction of `create`.
  unfoldable pub create_body :
      Text → Text → Text → List ReserveStockItem → Service CreateOrderOutcome
  unfolding claimed_state
  create_body key request_hash customer_id items =
      find_claim (text "Idempotency claim disappeared") key >>= λ entry.
      if not (text_eq entry.request_hash request_hash)
      then pure (failure key_conflict)
      else claimed_state key customer_id items entry.state entry

  abbrev pub claim_result : Result Exception (Unit {0}) → Service (Unit {0})
  claim_result (ok done) = pure tt
  claim_result (err e) = if is_unique_violation e then pure tt else throw e

  abbrev pub claim : Text → Text → IdempotencyRequest
  claim key request_hash = record {
    key = key;
    request_hash = request_hash;
    order_id = env.random_uuid;
    state = in_progress;
    response_status = none;
    response_body = none;
  }

  unfoldable pub create_claim : Text → Text → Service (Unit {0})
  create_claim key request_hash w = wrote w (tables.create_request (claim key request_hash) w.db)

  abbrev pub finish : CreateOrderOutcome → Service CreateOrderSuccess
  finish (success s) = pure s
  finish (failure e) = throw (api e)

  -- What the outcome of the recovery becomes; a recovery that threw, or none, is an internal error.
  abbrev pub finish_recovery :
      Option (Result Exception CreateOrderOutcome) → Service CreateOrderSuccess
  finish_recovery (some (ok outcome)) = finish outcome
  finish_recovery (some (err e)) = throw (api internal_failure)
  finish_recovery none = throw (api internal_failure)

  abbrev attempt_recovery : Text → Service (Option (Result Exception CreateOrderOutcome))
  attempt_recovery key = attempt (recover_failed_create key) >>= λ result. pure (some result)

  abbrev pub needs_recovery : World Db Remote → Bool
  needs_recovery w =
      w.reservation_succeeded
      && elim w.reservation_order_id [ none ↦ false | some id ↦ not (text_eq id []) ]

  unfoldable pub create_failed : Text → Service CreateOrderSuccess
  create_failed key = gets needs_recovery >>= λ needed.
      (if needed then attempt_recovery key else pure none) >>= finish_recovery

  abbrev after_transaction : Text → Result Exception CreateOrderOutcome → Service CreateOrderSuccess
  after_transaction key (ok outcome) = finish outcome
  after_transaction key (err e) = create_failed key

  abbrev pub no_reservation : World Db Remote → World Db Remote
  no_reservation w = record w { reservation_order_id = none; reservation_succeeded = false }

  unfoldable pub create_valid : Text → OrderCreate → Service CreateOrderSuccess
  create_valid key body =
      let customer_id = to_lower_case body.customer_id in
      let items = normalize_items body.items in
      let request_hash = hash_request env.sha256_hex customer_id items in
      (attempt (create_claim key request_hash) >>= claim_result)
      >> modify no_reservation
      >> (attempt (in_transaction env.create_fate (create_body key request_hash customer_id items))
          >>= after_transaction key)

  unfoldable pub create : OrderCreate → Option Text → Service CreateOrderSuccess
  create body none = throw (api invalid_key)
  create body (some key) =
      if is_valid_key key then create_valid key body else throw (api invalid_key)
