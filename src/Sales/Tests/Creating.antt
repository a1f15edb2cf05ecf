-- ===== src/Sales/Tests/Creating.antt =====
-- Runs of `create` at concrete inputs: each end that a request for an order can have.
use tarea_integracion_sistem.Prelude.{ℕ, ◌≡◌, refl, true, false, [], ◌∷◌, some, arith, map}
use tarea_integracion_sistem.Prelude.Result.{ok, err}
use tarea_integracion_sistem.Prelude.Tx.{commits, rolled_back, ack_lost}
use tarea_integracion_sistem.Text.{Text, text, text_eq, to_lower_case, contains}
use tarea_integracion_sistem.Js.{at, map_get}
use tarea_integracion_sistem.Sort.{sort_by, insert_by}
use tarea_integracion_sistem.Sales.Errors.{api_error, api, internal_failure}
use tarea_integracion_sistem.Sales.Gateway.{InventoryGateway}
use tarea_integracion_sistem.Sales.Orders.Views.{to_order_view, restore_create_response}
use tarea_integracion_sistem.Sales.Orders.Tables.{IsFresh}
use tarea_integracion_sistem.Sales.Orders.Routes.{post_order, CreatedResponse}
use tarea_integracion_sistem.Sales.Orders.Routes.Retrying.{retry_repeats_answer}
use tarea_integracion_sistem.Prelude.Int.{pos}
use tarea_integracion_sistem.Sales.Orders.Sample.{SampleDb, sample, sample_laws}
use tarea_integracion_sistem.Sales.Orders.Service.{
  Environment, create, no_reservation, normalize_items, failed_with, assert_reservation_matches,
  new_order,
}
use tarea_integracion_sistem.Sales.Orders.Service.Matching.{IsAnswer}
use tarea_integracion_sistem.Sales.Orders.Service.Outcomes.{
  rejection_replays, mismatch_is_released, lost_answer_is_recovered, rollback_is_released,
}
use tarea_integracion_sistem.Sales.Orders.Service.Confirmation.{made_order, confirmed_claim}
use tarea_integracion_sistem.Sales.Tests.{
  fresh_world, starts, snapshot_fits, read_back, key, key_valid, body, env, platform, open_entry,
  snapshot, working, refusing, gateway_of, reset, order_a, short,
}

-- It answers with too few items.
abbrev confused : InventoryGateway ℕ
confused = gateway_of (ok [])

customer_there : sample.has_customer (to_lower_case body.customer_id) fresh_world.db ≡ true
unfolding text_eq to_lower_case contains
customer_there = refl

rejection_replays_example :
    let w' = (create sample refusing env body (some key) fresh_world).1 in
    ((create sample refusing env body (some key) fresh_world).0 ≡ err (api short))
    × (create sample refusing env body (some key) w' ≡ (
      err (api (api_error short.status short.code short.message)),
      no_reservation sample refusing env w',
    ))
rejection_replays_example =
    rejection_replays sample sample_laws refusing env key body open_entry fresh_world key_valid
      (starts commits) customer_there short 1 env refl (omega arith) refl refl refl

identified : text_eq open_entry.order_id [] ≡ false
unfolding text_eq
identified = refl

answers_match : assert_reservation_matches (normalize_items body.items) (snapshot ∷ []) ≡ ok tt
unfolding assert_reservation_matches normalize_items sort_by insert_by map_get text_eq to_lower_case
answers_match = refl

none_answered : ¬ IsAnswer (normalize_items body.items) []
unfolding normalize_items sort_by insert_by
none_answered answer = absurd (omega (arith, answer.0))

items-IsFresh : IsFresh [] (
    map
      (λ i. i.part_id)
      (new_order sample working env open_entry.order_id
        (to_lower_case body.customer_id)
        (snapshot ∷ [])).items)
unfolding contains
items-IsFresh = (refl, tt)

mismatch_example :
    (db' : SampleDb) × (create sample confused env body (some key) fresh_world ≡ (
      err (api internal_failure),
      record fresh_world {
        db = db';
        remote = 2;
        reservation_order_id = some order_a;
        reservation_succeeded = true;
      },
    ))
    × (sample.find_request key db' ≡ some (failed_with internal_failure open_entry))
mismatch_example =
    mismatch_is_released sample sample_laws confused env key body open_entry fresh_world key_valid
      (starts commits) customer_there identified [] 1 refl 2 none_answered refl refl refl

-- A day later, with an inventory that refuses everything.
abbrev next_day : Environment
next_day = record env { now = at (pos 129600000) }

repeat_example :
    let (answer, w') = post_order sample working env body (some key) fresh_world in
    (r : CreatedResponse) × (answer ≡ ok r)
    × (r.idempotency_replayed ≡ text "false")
    × (post_order sample refusing next_day body (some key) w' ≡ (
      ok (record r { idempotency_replayed = text "true" }),
      no_reservation sample refusing next_day w',
    ))
repeat_example =
    retry_repeats_answer sample sample_laws working env key body open_entry fresh_world key_valid
      (starts commits) customer_there identified (snapshot ∷ []) 1 refl answers_match refl
      items-IsFresh snapshot_fits refl refusing next_day (pos 43200000) refl refl refl read_back

abbrev lossy : Environment
lossy = platform (ack_lost reset)

lost_answer_example :
    (db' : SampleDb) × (create sample working lossy body (some key) fresh_world ≡ (
      ok (record {
        order =
            restore_create_response lossy.new_date
              (confirmed_claim sample working lossy body open_entry (snapshot ∷ [])).response_body
              (to_order_view (made_order sample working lossy body open_entry (snapshot ∷ [])));
        replayed = true;
      }),
      record fresh_world {
        db = db';
        remote = 1;
        reservation_order_id = some order_a;
        reservation_succeeded = true;
      },
    ))
    × (sample.find_order order_a db'
        ≡ some (made_order sample working lossy body open_entry (snapshot ∷ [])))
lost_answer_example =
    lost_answer_is_recovered sample sample_laws working lossy key body open_entry fresh_world
      key_valid (starts (ack_lost reset)) customer_there identified (snapshot ∷ []) 1 refl
      answers_match refl items-IsFresh snapshot_fits reset refl refl

abbrev failing : Environment
failing = platform (rolled_back reset)

rollback_example :
    (db' : SampleDb) × (create sample working failing body (some key) fresh_world ≡ (
      err (api internal_failure),
      record fresh_world {
        db = db';
        remote = 2;
        reservation_order_id = some order_a;
        reservation_succeeded = true;
      },
    ))
    × (sample.find_request key db' ≡ some (failed_with internal_failure open_entry))
    × ((j : Text) → sample.find_order j db' ≡ sample.find_order j fresh_world.db)
rollback_example =
    rollback_is_released sample sample_laws working failing key body open_entry fresh_world
      key_valid (starts (rolled_back reset)) customer_there identified (snapshot ∷ []) 1 refl
      answers_match refl items-IsFresh snapshot_fits reset 2 refl refl refl refl
