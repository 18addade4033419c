-- ===== src/Operator/Bulk.antt =====
-- `requeue_event_unreconciled` and `requeue_unreconciled` of env/app/main.py.
pub mod Laws
pub mod Steps
use ccj.Prelude.{
  ℕ, Bool, true, false, Option, none, some, List, ◌&&◌, ◌||◌, not, coalesce, ltb, leb, ◌==◌,
  if◌then◌else◌,
}
use ccj.Models.{Delivery, is_superseded, is_relay_skipped, is_acknowledged}
use ccj.Models.Tables.{Db, Destination, Event}
use ccj.Sql.{update, count_where, first, exists}
use ccj.Standing.{min_count}
use ccj.Operator.{Reply, requeueable, requeue_row}

-- the join of the quorum, without the shadows
abbrev pub is_counted : ℕ → Delivery → Bool
is_counted event_id d =
    d.event_id == event_id
    && (not (is_superseded d.status || is_relay_skipped d.status) && not d.observe_only)

-- `quorum_reached`
unfoldable pub quorum_reached : Event → List Delivery → Bool
quorum_reached e rows =
    let live = count_where (is_counted e.id) rows in
    let acknowledged =
      count_where (λ d. is_counted e.id d && is_acknowledged d.reconcile_state) rows in
    let required = min_count (coalesce e.required_ack_count live) live in
    ltb 0 required && leb required acknowledged

-- EVENT_REQUEUEABLE_WHERE, of the event
unfoldable pub event_requeueable : List Destination → ℕ → Delivery → Bool
event_requeueable destinations event_id d =
    d.event_id == event_id && (requeueable destinations d && not d.observe_only)

unfoldable pub requeue_found : ℕ → Option Event → Db → Reply
requeue_found now none db = Reply.not_found
requeue_found now (some e) db =
    if quorum_reached e db.deliveries
    then Reply.unchanged
    else Reply.done (record db {
      deliveries = update (event_requeueable db.destinations e.id) (requeue_row now) db.deliveries;
    })

unfoldable pub requeue_event_unreconciled : ℕ → ℕ → Db → Reply
unfolding requeue_found
requeue_event_unreconciled now event_id db =
    requeue_found now (first (λ (e : Event). e.id == event_id) db.events) db

unfoldable pub requeue_unreconciled : ℕ → ℕ → Db → Reply
requeue_unreconciled now destination_id db =
    if exists (λ (x : Destination). x.id == destination_id) db.destinations
    then Reply.done (record db {
      deliveries =
          update (λ d. d.destination_id == destination_id && requeueable db.destinations d)
            (requeue_row now) db.deliveries;
    })
    else Reply.not_found
