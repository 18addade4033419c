-- ===== src/Standing.antt =====
-- The standing of an event in env/app/main.py: the counts of EVENT_WITH_COUNTS_SQL, `event_status`,
-- `event_reconcile_status`, `event_response`, `_mark_relay_halt`.
pub mod Laws
pub mod Acknowledged
pub mod Delivered
use ccj.Prelude.{
  ℕ, ◌+◌, ◌-◌, Bool, true, false, Option, none, some, List, ◌&&◌, ◌||◌, not, is_some, ◌==◌, ltb,
  leb, coalesce, if◌then◌else◌,
}
use ccj.Models.{
  Delivery, Status, ReleaseState, ReconcileState, is_delivered, is_dead_lettered, is_superseded,
  is_deadline_expired, is_relay_skipped, is_body, is_preview, is_held, is_acknowledged,
}
use ccj.Models.Tables.{Event}
use ccj.Sql.{count_where}

-- status IN ('pending', 'in_flight')
abbrev pub is_queued : Status → Bool
is_queued Status.pending = true
is_queued Status.in_flight = true
is_queued _ = false

abbrev pub is_failed : Status → Bool
is_failed Status.failed = true
is_failed _ = false

abbrev pub is_denied : Status → Bool
is_denied Status.release_denied = true
is_denied _ = false

abbrev pub is_release_expired : Status → Bool
is_release_expired Status.release_expired = true
is_release_expired _ = false

abbrev pub is_voided : Status → Bool
is_voided Status.release_voided = true
is_voided _ = false

-- release_state = 'released'
abbrev pub is_released : Option ReleaseState → Bool
is_released (some ReleaseState.released) = true
is_released _ = false

-- status IN ('release_denied', 'release_expired', 'release_voided')
abbrev pub is_release_closed : Status → Bool
is_release_closed Status.release_denied = true
is_release_closed Status.release_expired = true
is_release_closed Status.release_voided = true
is_release_closed _ = false

-- d.event_id = e.id AND NOT d.observe_only AND d.phase = 'body'
abbrev pub is_real : ℕ → Delivery → Bool
is_real event_id d = d.event_id == event_id && (not d.observe_only && is_body d.phase)

-- d.event_id = e.id AND d.observe_only AND d.phase = 'body'
abbrev pub is_shadow : ℕ → Delivery → Bool
is_shadow event_id d = d.event_id == event_id && (d.observe_only && is_body d.phase)

-- the stop states of a station
abbrev pub is_failed_receipt : ReconcileState → Bool
is_failed_receipt ReconcileState.receipt_failed = true
is_failed_receipt ReconcileState.timed_out = true
is_failed_receipt _ = false

abbrev pub is_stopped : Delivery → Bool
is_stopped d =
    is_dead_lettered d.status
    || (is_superseded d.status
        || (is_deadline_expired d.status || is_failed_receipt d.reconcile_state))

-- The row of EVENT_WITH_COUNTS_SQL, with the counts of `attach_filter_counts`.
pub record Counts : Type 0 where
  pub delivery_count : ℕ
  pub delivered_count : ℕ
  pub pending_count : ℕ
  pub acknowledged_count : ℕ
  pub superseded_count : ℕ
  pub dead_lettered_count : ℕ
  pub deadline_expired_count : ℕ
  pub failed_count : ℕ
  pub relay_skipped_count : ℕ
  pub relay_stopped_count : ℕ
  pub shadow_delivery_count : ℕ
  pub shadow_delivered_count : ℕ
  pub shadow_pending_count : ℕ
  pub shadow_acknowledged_count : ℕ
  pub shadow_superseded_count : ℕ
  pub shadow_dead_lettered_count : ℕ
  pub shadow_deadline_expired_count : ℕ
  pub shadow_failed_count : ℕ
  pub bodies_waiting_count : ℕ
  pub bodies_released_count : ℕ
  pub bodies_denied_count : ℕ
  pub bodies_expired_count : ℕ
  pub bodies_voided_count : ℕ
  pub shadow_bodies_waiting_count : ℕ
  pub shadow_bodies_released_count : ℕ
  pub shadow_bodies_closed_count : ℕ
  pub previews_delivered_count : ℕ
  pub shadow_previews_delivered_count : ℕ
  pub filtered_out_count : ℕ
  pub shadow_filtered_out_count : ℕ

-- A row of subscription_filter_evaluations.
pub record Evaluation : Type 0 where
  pub event_id : ℕ
  pub observe_only : Bool
  pub matched : Bool

-- `attach_filter_counts`: the withheld copies, or 0 where the query fails
unfoldable pub withheld : Bool → ℕ → Option (List Evaluation) → ℕ
withheld shadow event_id none = 0
withheld shadow event_id (some es) =
    count_where
      (λ (v : Evaluation).
        not v.matched
        && (v.event_id == event_id && (if shadow then v.observe_only else not v.observe_only)))
      es

unfoldable pub event_counts : ℕ → Option (List Evaluation) → List Delivery → Counts
event_counts e es rows = record {
  delivery_count = count_where (is_real e) rows;
  delivered_count = count_where (λ d. is_real e d && is_delivered d.status) rows;
  pending_count = count_where (λ d. is_real e d && is_queued d.status) rows;
  acknowledged_count = count_where (λ d. is_real e d && is_acknowledged d.reconcile_state) rows;
  superseded_count = count_where (λ d. is_real e d && is_superseded d.status) rows;
  dead_lettered_count = count_where (λ d. is_real e d && is_dead_lettered d.status) rows;
  deadline_expired_count = count_where (λ d. is_real e d && is_deadline_expired d.status) rows;
  failed_count = count_where (λ d. is_real e d && is_failed d.status) rows;
  relay_skipped_count = count_where (λ d. is_real e d && is_relay_skipped d.status) rows;
  relay_stopped_count =
      count_where (λ d. d.event_id == e && (is_some d.relay_chain_id && is_stopped d)) rows;
  shadow_delivery_count = count_where (is_shadow e) rows;
  shadow_delivered_count = count_where (λ d. is_shadow e d && is_delivered d.status) rows;
  shadow_pending_count = count_where (λ d. is_shadow e d && is_queued d.status) rows;
  shadow_acknowledged_count =
      count_where (λ d. is_shadow e d && is_acknowledged d.reconcile_state) rows;
  shadow_superseded_count = count_where (λ d. is_shadow e d && is_superseded d.status) rows;
  shadow_dead_lettered_count = count_where (λ d. is_shadow e d && is_dead_lettered d.status) rows;
  shadow_deadline_expired_count =
      count_where (λ d. is_shadow e d && is_deadline_expired d.status) rows;
  shadow_failed_count = count_where (λ d. is_shadow e d && is_failed d.status) rows;
  bodies_waiting_count = count_where (λ d. is_real e d && is_held d.release_state) rows;
  bodies_released_count = count_where (λ d. is_real e d && is_released d.release_state) rows;
  bodies_denied_count = count_where (λ d. is_real e d && is_denied d.status) rows;
  bodies_expired_count = count_where (λ d. is_real e d && is_release_expired d.status) rows;
  bodies_voided_count = count_where (λ d. is_real e d && is_voided d.status) rows;
  shadow_bodies_waiting_count = count_where (λ d. is_shadow e d && is_held d.release_state) rows;
  shadow_bodies_released_count =
      count_where (λ d. is_shadow e d && is_released d.release_state) rows;
  shadow_bodies_closed_count = count_where (λ d. is_shadow e d && is_release_closed d.status) rows;
  previews_delivered_count =
      count_where
        (λ (d : Delivery).
          d.event_id == e && (not d.observe_only && (is_preview d.phase && is_delivered d.status)))
        rows;
  shadow_previews_delivered_count =
      count_where
        (λ (d : Delivery).
          d.event_id == e && (d.observe_only && (is_preview d.phase && is_delivered d.status)))
        rows;
  filtered_out_count = withheld false e es;
  shadow_filtered_out_count = withheld true e es;
}

pub data EventStatus : Type 0 where
  cancelled relay_halted superseded release_closed deadline_expired filtered : EventStatus
  unrouted pending dead_lettered failed delivered : EventStatus

pub data ReconcileStatus : Type 0 where
  acknowledged partially_acknowledged pending : ReconcileStatus

-- `_mark_relay_halt`
unfoldable pub mark_relay_halt : Counts → Bool
mark_relay_halt c =
    if c.relay_stopped_count == 0 then false else ltb c.acknowledged_count c.delivery_count

abbrev pub release_closed_count : Counts → ℕ
release_closed_count c = c.bodies_denied_count + c.bodies_expired_count + c.bodies_voided_count

-- `delivery_count` of the response
unfoldable pub live_count : Counts → ℕ
live_count c =
    c.delivery_count
    - c.superseded_count
    - release_closed_count c
    - c.relay_skipped_count
    - c.deadline_expired_count

-- `shadow_delivery_count` of the response
unfoldable pub shadow_live_count : Counts → ℕ
shadow_live_count c =
    c.shadow_delivery_count - c.shadow_superseded_count - c.shadow_bodies_closed_count
    - c.shadow_deadline_expired_count

-- `event_status` where no copy is live and no shadow is
unfoldable pub no_copy_status : Counts → EventStatus
no_copy_status c =
    if ltb 0 c.superseded_count || ltb 0 c.shadow_superseded_count
    then EventStatus.superseded
    else if ltb 0 (release_closed_count c)
    then EventStatus.release_closed
    else if ltb 0 c.deadline_expired_count
    then EventStatus.deadline_expired
    else if ltb 0 c.filtered_out_count
    then EventStatus.filtered
    else EventStatus.unrouted

-- `event_status` where only shadows are live
unfoldable pub shadow_status : Counts → EventStatus
shadow_status c =
    if ltb 0 c.shadow_pending_count
    then EventStatus.pending
    else if ltb 0 c.shadow_deadline_expired_count && c.shadow_delivered_count == 0
    then EventStatus.deadline_expired
    else if ltb 0 c.shadow_dead_lettered_count && c.shadow_delivered_count == 0
    then EventStatus.dead_lettered
    else if ltb 0 c.shadow_failed_count && c.shadow_delivered_count == 0
    then EventStatus.failed
    else if leb (shadow_live_count c) c.shadow_delivered_count
    then EventStatus.delivered
    else EventStatus.pending

-- `event_status` where some copy is live
unfoldable pub live_status : Bool → Counts → EventStatus
live_status halted c =
    if halted
    then EventStatus.relay_halted
    else if ltb 0 c.pending_count
    then EventStatus.pending
    else if ltb 0 c.deadline_expired_count
    then EventStatus.deadline_expired
    else if ltb 0 c.dead_lettered_count
    then EventStatus.dead_lettered
    else if ltb 0 c.failed_count
    then EventStatus.failed
    else if leb (live_count c) c.delivered_count
    then EventStatus.delivered
    else EventStatus.pending

unfoldable pub event_status : Option ℕ → Bool → Counts → EventStatus
event_status cancelled_at halted c =
    if is_some cancelled_at
    then EventStatus.cancelled
    else if halted && live_count c == 0
    then EventStatus.relay_halted
    else if live_count c == 0
    then (if shadow_live_count c == 0 then no_copy_status c else shadow_status c)
    else live_status halted c

-- `event_reconcile_status`, for a required count that the caller has settled
unfoldable pub event_reconcile_status : ℕ → ℕ → ReconcileStatus
event_reconcile_status acknowledged_count required_ack_count =
    if ltb 0 required_ack_count && leb required_ack_count acknowledged_count
    then ReconcileStatus.acknowledged
    else if ltb 0 acknowledged_count
    then ReconcileStatus.partially_acknowledged
    else ReconcileStatus.pending

abbrev pub min_count : ℕ → ℕ → ℕ
min_count a b = if leb a b then a else b

-- the fields of the response that `event_response` derives
pub record EventReport : Type 0 where
  pub delivery_count : ℕ
  pub shadow_delivery_count : ℕ
  pub status : EventStatus
  pub required_ack_count : ℕ
  pub reconcile_status : ReconcileStatus
  pub acknowledged_quorum : Bool
  pub unacknowledged_count : ℕ
  pub shadow_unacknowledged_count : ℕ

unfoldable pub required_acks : Event → Counts → ℕ
required_acks e c = min_count (coalesce e.required_ack_count (live_count c)) (live_count c)

unfoldable pub event_response : Event → Bool → Counts → EventReport
event_response e halted c =
    let required = required_acks e c in
    record {
      delivery_count = live_count c;
      shadow_delivery_count = shadow_live_count c;
      status = event_status e.cancelled_at halted c;
      required_ack_count = required;
      reconcile_status = event_reconcile_status c.acknowledged_count required;
      acknowledged_quorum = ltb 0 required && leb required c.acknowledged_count;
      unacknowledged_count = live_count c - c.acknowledged_count;
      shadow_unacknowledged_count = shadow_live_count c - c.shadow_acknowledged_count;
    }

-- `event_response_with_relay` of `fetch_event_counts`
unfoldable pub event_report : Event → Option (List Evaluation) → List Delivery → EventReport
event_report e es rows = let c = event_counts e.id es rows in event_response e (mark_relay_halt c) c
