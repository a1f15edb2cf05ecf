-- ===== src/Sales/Orders/Queries/Cancelling.antt =====
-- A cancellation releases the stock first, and may be repeated.
use tarea_integracion_sistem.Prelude.{◌≡◌, refl, ap, ◌∙◌, some}
use tarea_integracion_sistem.Prelude.Result.{ok, err}
use tarea_integracion_sistem.Prelude.Tx.{Fate, commits, rolled_back}
use tarea_integracion_sistem.Prelude.Act.{◌>>=◌}
use tarea_integracion_sistem.Text.{Text, to_lower_case}
use tarea_integracion_sistem.Text.Laws.{text_eq_refl}
use tarea_integracion_sistem.Sales.Errors.{Exception, api, internal_failure}
use tarea_integracion_sistem.Sales.Gateway.{InventoryGateway}
use tarea_integracion_sistem.Sales.Orders.Views.{OrderRow, to_order_view, confirmed, cancelled}
use tarea_integracion_sistem.Sales.Orders.Tables.{Tables, TablesLaws, cancelled_order}
use tarea_integracion_sistem.Sales.Orders.Service.{Environment, World, call_release}
use tarea_integracion_sistem.Sales.Orders.Service.Replay.{in_transaction-commits}
use tarea_integracion_sistem.Sales.Orders.Service.Recovery.{in_transaction-rolled_back}
use tarea_integracion_sistem.Sales.Orders.Queries.{find_or_404, cancel_row, cancel_body, cancel}

module _ (tables : Tables) (laws : TablesLaws tables) {Remote : Type 0}
    (gateway : InventoryGateway Remote) (env : Environment) (order_id : Text) (order : OrderRow)
    (w : World tables.Db Remote)
    (found : tables.find_order (to_lower_case order_id) w.db ≡ some order) where
  -- The cancellation of a cancelled order answers with it, and neither calls the inventory nor
  -- changes anything.
  pub cancelled_stays :
      (fate : Fate Exception)
      → order.status ≡ cancelled
      → cancel tables gateway env fate order_id w ≡ (ok (to_order_view order), w)
  unfolding cancel find_or_404 ◌>>=◌
  cancelled_stays fate status = rw (found, status) refl

  -- An order stays as it was when the inventory refuses to release it: the error is passed on.
  pub refused_release_keeps_order :
      (fate : Fate Exception) (e : Exception) (after : Remote)
      → order.status ≡ confirmed
      → gateway.release (to_lower_case order_id) env.trace_id w.remote ≡ (err e, after)
      → cancel tables gateway env fate order_id w ≡ (err e, record w { remote = after })
  unfolding cancel find_or_404 call_release ◌>>=◌
  refused_release_keeps_order fate e after status refused = rw (found, status, refused) refl

  module _ (after : Remote) (status : order.status ≡ confirmed)
      (released : gateway.release (to_lower_case order_id) env.trace_id w.remote
        ≡ (ok tt, after)) where
    cancel_runs :
        (db' : tables.Db) × (cancel_body tables gateway env
            (to_lower_case order_id)
            (record w { remote = after })
          ≡ (
            ok (to_order_view (cancelled_order env.now env.updated_at order)),
            record w { db = db'; remote = after },
          ))
        × (tables.find_order (to_lower_case order_id) db'
            ≡ some (cancelled_order env.now env.updated_at order))
    unfolding cancel_body find_or_404 cancel_row ◌>>=◌
    cancel_runs =
        let (db', wrote, orders) =
          laws.cancel_order_law (to_lower_case order_id) env.now env.updated_at order w.db found in
        (
          db',
          rw (found, status, wrote) refl,
          orders (to_lower_case order_id) ∙ rw (text_eq_refl (to_lower_case order_id)) refl,
        )

    -- The cancellation of a confirmed order, when the inventory accepts the release and the
    -- transaction commits, releases its stock first, and then leaves it cancelled at the time of
    -- the cancellation and updated at Prisma's, otherwise as it was.
    pub cancel_releases :
        (db' : tables.Db) × (cancel tables gateway env commits order_id w ≡ (
          ok (to_order_view (cancelled_order env.now env.updated_at order)),
          record w { db = db'; remote = after },
        ))
        × (tables.find_order (to_lower_case order_id) db'
            ≡ some (cancelled_order env.now env.updated_at order))
    unfolding cancel find_or_404 call_release ◌>>=◌
    cancel_releases =
        let (db', run, there) = cancel_runs in
        (
          db',
          rw
              (
                found,
                status,
                released,
                in_transaction-commits tables gateway env
                    (cancel_body tables gateway env (to_lower_case order_id)) _ refl run,
              )
              refl,
          there,
        )

    cancel_fails :
        (x : Exception)
        → cancel tables gateway env (rolled_back x) order_id w
          ≡ (err (api internal_failure), record w { remote = after })
    unfolding cancel find_or_404 call_release ◌>>=◌
    cancel_fails x =
        let (db', run, there) = cancel_runs in
        rw
          (
            found,
            status,
            released,
            in_transaction-rolled_back tables gateway env {fate = rolled_back x}
                (cancel_body tables gateway env (to_lower_case order_id)) _ refl run,
          )
          refl

-- If the database takes a cancellation back, the caller is told of an internal error and the order
-- is still confirmed while its stock is released; the same cancellation sent again ends what was
-- begun, when the inventory accepts the second release.
pub cancel_resumes :
    (tables : Tables) (laws : TablesLaws tables) {Remote : Type 0}
    (gateway : InventoryGateway Remote) (env : Environment) (order_id : Text) (order : OrderRow)
    (w : World tables.Db Remote) (x : Exception) (after again : Remote)
    → tables.find_order (to_lower_case order_id) w.db ≡ some order
    → order.status ≡ confirmed
    → gateway.release (to_lower_case order_id) env.trace_id w.remote ≡ (ok tt, after)
    → gateway.release (to_lower_case order_id) env.trace_id after ≡ (ok tt, again)
    → let w' = (cancel tables gateway env (rolled_back x) order_id w).1 in
      (db' : tables.Db) × (cancel tables gateway env (rolled_back x) order_id w
        ≡ (err (api internal_failure), record w { remote = after }))
      × (cancel tables gateway env commits order_id w' ≡ (
        ok (to_order_view (cancelled_order env.now env.updated_at order)),
        record w { db = db'; remote = again },
      ))
cancel_resumes tables laws gateway env order_id order w x after again found status released
      accepted =
    let fails =
      cancel_fails tables laws gateway env order_id order w found after status released x in
    let (db', run, _) =
      cancel_releases tables laws gateway env order_id order (record w { remote = after }) found
        again status accepted in
    (db', fails, ap (λ r. cancel tables gateway env commits order_id r.1) fails ∙ run)
