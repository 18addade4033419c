-- ===== src/Operator.antt =====
-- The calls of env/app/main.py by which an operator changes copies that are there: cancel, reschedule,
-- requeue, revive and recover.
pub mod Laws
pub mod Cancel
pub mod Bulk
pub mod Pause
use ccj.Prelude.{
  ℕ, ◌+◌, Bool, true, false, Option, none, some, List, ◌&&◌, ◌||◌, not, is_some, ◌==◌,
  if◌then◌else◌,
}
use ccj.Models.{
  Delivery, Status, ReleaseState, ReconcileState, VoidReason, is_pending, is_delivered,
  is_dead_lettered, is_held,
}
use ccj.Models.Tables.{Db, Destination, DestinationStatus, Event}
use ccj.Sql.{update, count_where, first, exists}
use ccj.Worker.Claim.{is_confirmed, is_active}

-- What a call gives: the database after the commit, its answer where nothing has to be done, or the
-- HTTP error, after which it is rolled back.
pub data Reply : Type 0 where
  done : Db → Reply
  unchanged : Reply
  not_found : Reply
  conflict : Reply

-- the terminal outcomes of `event_has_irreversible_delivery`
unfoldable pub is_irreversible : Status → Bool
is_irreversible Status.pending = false
is_irreversible Status.cancelled = false
is_irreversible _ = true

-- `event_has_irreversible_delivery` of the rows of `lock_event_deliveries`
unfoldable pub event_has_irreversible_delivery : ℕ → List Delivery → Bool
event_has_irreversible_delivery event_id rows =
    exists (λ d. d.event_id == event_id && is_irreversible d.status) rows

unfoldable pub queued_of : ℕ → Delivery → Bool
queued_of event_id d = d.event_id == event_id && is_pending d.status

unfoldable pub cancel_row : ℕ → Delivery → Delivery
cancel_row now d =
    let closes = is_held d.release_state in
    record d {
      status = Status.cancelled;
      release_state = if closes then some ReleaseState.release_voided else d.release_state;
      voided_at = if closes then some now else d.voided_at;
      void_reason = if closes then some VoidReason.manual else d.void_reason;
      updated_at = now;
    }

unfoldable pub cancel_found : ℕ → ℕ → Option Event → Db → Reply
cancel_found now event_id none db = Reply.not_found
cancel_found now event_id (some e) db =
    if is_some e.cancelled_at
    then Reply.unchanged
    else if event_has_irreversible_delivery event_id db.deliveries
    then Reply.conflict
    else Reply.done (record db {
      deliveries = update (queued_of event_id) (cancel_row now) db.deliveries;
      events =
          update (λ (x : Event). x.id == event_id)
            (λ (x : Event). record x { cancelled_at = some now }) db.events;
    })

unfoldable pub cancel_event : ℕ → ℕ → Db → Reply
cancel_event now event_id db =
    cancel_found now event_id (first (λ (e : Event). e.id == event_id) db.events) db

unfoldable pub reschedule_row : ℕ → Option ℕ → Delivery → Delivery
reschedule_row now not_before d = record d { not_before = not_before; updated_at = now }

unfoldable pub reschedule_found : ℕ → ℕ → Option ℕ → Option Event → Db → Reply
reschedule_found now event_id not_before none db = Reply.not_found
reschedule_found now event_id not_before (some e) db =
    if is_some e.cancelled_at || event_has_irreversible_delivery event_id db.deliveries
    then Reply.conflict
    else Reply.done (record db {
      deliveries = update (queued_of event_id) (reschedule_row now not_before) db.deliveries;
      events =
          update (λ (x : Event). x.id == event_id)
            (λ (x : Event). record x { not_before = not_before }) db.events;
    })

unfoldable pub reschedule_event : ℕ → ℕ → Option ℕ → Db → Reply
reschedule_event now event_id not_before db =
    reschedule_found now event_id not_before (first (λ (e : Event). e.id == event_id) db.events) db

abbrev pub may_repeat : ReconcileState → Bool
may_repeat ReconcileState.timed_out = true
may_repeat ReconcileState.receipt_failed = true
may_repeat _ = false

-- the address of the copy is confirmed, and at the location that the copy was made for
unfoldable pub is_at_home : List Destination → Delivery → Bool
is_at_home destinations d =
    exists
      (λ (x : Destination).
        x.id == d.destination_id
        && (is_confirmed x.confirmation_state
            && (x.confirmation_generation == d.confirmation_generation)))
      destinations

-- REQUEUEABLE_WHERE
unfoldable pub requeueable : List Destination → Delivery → Bool
requeueable destinations d =
    is_delivered d.status && (may_repeat d.reconcile_state && is_at_home destinations d)

-- REQUEUE_SET_SQL
unfoldable pub requeue_row : ℕ → Delivery → Delivery
requeue_row now d = record d {
  status = Status.pending;
  reconcile_state = ReconcileState.unset;
  reconcile_deadline = none;
  reconciled_at = none;
  receipt_result = none;
  receipt_id = none;
  claim_token = none;
  claimed_at = none;
  lease_until = none;
  next_attempt_at = now;
  requeue_count = d.requeue_count + 1;
  updated_at = now;
}

unfoldable pub requeue_delivery : ℕ → ℕ → Db → Reply
requeue_delivery now delivery_id db =
    let chosen = λ (d : Delivery). d.id == delivery_id && requeueable db.destinations d in
    if exists chosen db.deliveries
    then Reply.done (record db { deliveries = update chosen (requeue_row now) db.deliveries })
    else if exists (λ (d : Delivery). d.id == delivery_id) db.deliveries
    then Reply.conflict
    else Reply.not_found

-- DEAD_LETTER_REVIVE_SQL
unfoldable pub revive_row : ℕ → Delivery → Delivery
revive_row now d = record d {
  status = Status.pending;
  reconcile_state = ReconcileState.unset;
  reconcile_deadline = none;
  reconciled_at = none;
  receipt_result = none;
  receipt_id = none;
  claim_token = none;
  claimed_at = none;
  lease_until = none;
  next_attempt_at = now;
  consecutive_failures = 0;
  requeue_count = 0;
  dead_letter_reason = none;
  dead_lettered_at = none;
  updated_at = now;
}

unfoldable pub revive_found : ℕ → Option Delivery → Db → Reply
revive_found now none db = Reply.not_found
revive_found now (some d) db =
    if not (is_dead_lettered d.status) || not (is_at_home db.destinations d)
    then Reply.conflict
    else Reply.done (record db {
      deliveries =
          update (λ x. x.id == d.id && is_dead_lettered x.status) (revive_row now) db.deliveries;
    })

unfoldable pub revive_dead_letter : ℕ → ℕ → Db → Reply
revive_dead_letter now delivery_id db =
    revive_found now (first (λ (d : Delivery). d.id == delivery_id) db.deliveries) db

unfoldable pub wake_row : ℕ → Delivery → Delivery
wake_row now d = record d { next_attempt_at = now; updated_at = now }

unfoldable pub recover_destination_row : Destination → Destination
recover_destination_row x = record x {
  status = DestinationStatus.active;
  failure_count = 0;
  recoverable_at = none;
}

unfoldable pub recover_found : ℕ → Option Destination → Db → Reply
recover_found now none db = Reply.not_found
recover_found now (some x) db =
    if is_active x.status
    then Reply.unchanged
    else Reply.done (record db {
      deliveries =
          update (λ d. d.destination_id == x.id && is_pending d.status) (wake_row now)
            db.deliveries;
      destinations =
          update (λ (y : Destination). y.id == x.id) recover_destination_row db.destinations;
    })

unfoldable pub recover_destination : ℕ → ℕ → Db → Reply
recover_destination now destination_id db =
    recover_found now (first (λ (x : Destination). x.id == destination_id) db.destinations) db
