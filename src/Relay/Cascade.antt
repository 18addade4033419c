-- ===== src/Relay/Cascade.antt =====
-- `cascade_after_stop` and `cascade_superseded_destination` of env/app/relay.py.
pub mod Laws
pub mod Closed
use ccj.Prelude.{
  ℕ, ◌+◌, ◌≡◌, Bool, true, false, Option, none, some, List, [], ◌∷◌, ◌&&◌, ◌||◌, is_some, arith,
  ◌==◌, ltb, leb, coalesce, map, if◌then◌else◌,
}
use mathlib.Core.Option
use ccj.Models.{Delivery, Status, ReconcileState, SkipReason, is_pending, is_superseded}
use ccj.Models.Tables.{Db}
use ccj.Models.Checks.{checks}
use ccj.Models.Progress.{Step, Step-refl, Step-trans}
use ccj.Sql.{update, count_where, first, where_rows, order_by}
use ccj.Sql.Evolve.{Evolves, Evolves-update, Evolves-refl, Evolves-trans}
use ccj.Relay.Gate.{equal, exceeds}

-- the last two WHENs
abbrev receipt_stop : ReconcileState → Option SkipReason
receipt_stop ReconcileState.receipt_failed = some SkipReason.receipt_failed
receipt_stop ReconcileState.timed_out = some SkipReason.receipt_timeout
receipt_stop _ = none

abbrev stop_of : Status → Delivery → Option SkipReason
stop_of Status.dead_lettered d = Option.map SkipReason.dead_letter d.dead_letter_reason
stop_of Status.superseded d = some SkipReason.superseded
stop_of Status.deadline_expired d = some SkipReason.deliver_by_expired
stop_of _ d = receipt_stop d.reconcile_state

-- the CTE `reason`
unfoldable pub stop_reason : Delivery → Option SkipReason
stop_reason d = stop_of d.status d

-- the WHERE of `skipped`, for the trigger `t`
unfoldable pub is_later : Delivery → Delivery → Bool
is_later t later =
    later.event_id == t.event_id
    && (equal later.relay_chain_id t.relay_chain_id
        && (exceeds later.relay_station_no t.relay_station_no && is_pending later.status))

unfoldable pub skip : ℕ → ℕ → SkipReason → Delivery → Delivery
skip now by reason later = record later {
  status = Status.relay_skipped;
  relay_skipped_at = some now;
  relay_skip_reason = some reason;
  relay_stopped_by_delivery_id = some by;
  claim_token = none;
  claimed_at = none;
  lease_until = none;
  next_attempt_at = now;
  updated_at = now;
}

abbrev pub is_trigger : ℕ → Delivery → Bool
is_trigger delivery_id d = d.id == delivery_id && is_some d.relay_chain_id

-- the CTE `skipped`, once the trigger and its reason are read
unfoldable pub skip_later :
    ℕ → ℕ → Option Delivery → Option SkipReason → List Delivery → ℕ × List Delivery
skip_later now by none r rows = (0, rows)
skip_later now by (some t) none rows = (0, rows)
skip_later now by (some t) (some r) rows =
    (count_where (is_later t) rows, update (is_later t) (skip now by r) rows)

-- the reason read from the row of the trigger
abbrev pub reason_in : Option Delivery → Option SkipReason
reason_in none = none
reason_in (some d) = stop_reason d

unfoldable pub cascade_after_stop : ℕ → ℕ → List Delivery → ℕ × List Delivery
cascade_after_stop now delivery_id rows =
    skip_later now delivery_id (first (is_trigger delivery_id) rows)
      (reason_in (first (λ d. d.id == delivery_id) rows)) rows

-- the loop of a caller over several triggers, with the total
unfoldable pub cascade_all : ℕ → List ℕ → List Delivery → ℕ × List Delivery
cascade_all now [] rows = (0, rows)
cascade_all now (i ∷ is) rows =
    let (n, rows') = cascade_after_stop now i rows in
    let (m, rows'') = cascade_all now is rows' in (n + m, rows'')

-- the SELECT of `cascade_superseded_destination`
unfoldable pub is_moved_station : ℕ → Delivery → Bool
is_moved_station destination_id d =
    d.destination_id == destination_id && (is_some d.relay_chain_id && is_superseded d.status)

-- ORDER BY event_id, relay_station_no
abbrev by_station : Delivery → Delivery → Bool
by_station d e =
    ltb d.event_id e.event_id
    || (d.event_id == e.event_id
        && leb (coalesce d.relay_station_no 0) (coalesce e.relay_station_no 0))

unfoldable pub cascade_superseded_destination : ℕ → ℕ → List Delivery → ℕ × List Delivery
cascade_superseded_destination now destination_id rows =
    cascade_all now
      (map (λ (d : Delivery). d.id)
        (order_by by_station (where_rows (is_moved_station destination_id) rows)))
      rows
