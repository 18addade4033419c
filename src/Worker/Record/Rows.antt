-- ===== src/Worker/Record/Rows.antt =====
-- The statements on one copy and its address in env/app/worker.py.
use ccj.Prelude.{
  ℕ, ◌+◌, ◌*◌, ◌-◌, String, Bool, false, Option, none, some, ◌&&◌, leb, ◌==◌, if◌then◌else◌,
}
use Prim.Native.Nat.{◌^◌, min}
use mathlib.Core.Option
use ccj.Config.{Settings}
use ccj.Models.{Delivery, Status, ReconcileState, DeadLetterReason, LastError, is_in_flight}
use ccj.Models.Tables.{Destination, DestinationStatus}
use ccj.Release.Gate.{in_time}
use ccj.Worker.Claim.{Claim}

-- What `deliver` gives back, as far as it is written.
pub record Result : Type 0 where
  pub success : Bool
  pub finished_at : ℕ
  pub error : Option String

-- `backoff_delay`: `jitter` is what random.uniform gives
unfoldable pub backoff_delay : Settings → ℕ → ℕ → ℕ
backoff_delay cfg attempt jitter =
    min cfg.retry_backoff_max_seconds (cfg.retry_backoff_base_seconds * 2 ^ (attempt - 1)) + jitter

abbrev same_token : Option ℕ → Option ℕ → Bool
same_token (some a) (some b) = a == b
same_token _ _ = false

-- id, status = 'in_flight' and claim_token: the WHERE of each result, and of `still_owns_lease`
unfoldable pub owns : Claim → Delivery → Bool
owns c d =
    d.id == c.copy.id && (is_in_flight d.status && same_token d.claim_token c.copy.claim_token)

-- the WHERE of EVENT_SUCCESS_SQL
unfoldable pub succeeds : Claim → Result → Delivery → Bool
unfolding owns
succeeds c r d = owns c d && in_time d.deliver_by r.finished_at

unfoldable pub event_success : Settings → ℕ → Delivery → Delivery
event_success cfg now d = record d {
  status = Status.delivered;
  claim_token = none;
  claimed_at = none;
  lease_until = none;
  last_error = none;
  updated_at = now;
  delivered_at = some now;
  consecutive_failures = 0;
  reconcile_state = ReconcileState.awaiting;
  reconcile_deadline = some (now + cfg.receipt_timeout_seconds);
  reconciled_at = none;
  receipt_result = none;
  receipt_id = none;
}

-- DESTINATION_SUCCESS_SQL
unfoldable pub destination_success : Destination → Destination
destination_success x = record x { failure_count = 0 }

-- the CTE `failed_event` of FAILURE_SQL
unfoldable pub failure_row : ℕ → ℕ → Bool → Option String → Delivery → Delivery
failure_row now next dead error d = record d {
  status = if dead then Status.dead_lettered else Status.pending;
  consecutive_failures = d.consecutive_failures + 1;
  claim_token = none;
  claimed_at = none;
  lease_until = none;
  last_error =
      if dead
      then some (LastError.dead_lettered_after (d.consecutive_failures + 1) error)
      else Option.map LastError.plain error;
  next_attempt_at = next;
  dead_letter_reason =
      if dead then some DeadLetterReason.delivery_attempts_exhausted else d.dead_letter_reason;
  dead_lettered_at = if dead then some now else d.dead_lettered_at;
  updated_at = now;
}

-- the UPDATE of the address in FAILURE_SQL
unfoldable pub fail_destination : Settings → Bool → Option ℕ → Destination → Destination
fail_destination cfg dead recoverable_at x =
    let isolates = leb cfg.failure_threshold (x.failure_count + 1) in
    record x {
      failure_count = if dead then 0 else x.failure_count + 1;
      status =
          if dead
          then DestinationStatus.active
          else if isolates
          then DestinationStatus.isolated
          else x.status;
      recoverable_at = if dead then none else if isolates then recoverable_at else x.recoverable_at;
    }

-- SUPERSEDE_FAILED_SQL
unfoldable pub supersede_failed : ℕ → Option String → Delivery → Delivery
supersede_failed now error d = record d {
  status = Status.superseded;
  claim_token = none;
  claimed_at = none;
  lease_until = none;
  last_error = some (LastError.superseded_after_move error);
  updated_at = now;
}

-- CORRECTION_FAILURE_SQL
unfoldable pub correction_failure : ℕ → Option String → Delivery → Delivery
correction_failure now error d = record d {
  status = Status.failed;
  claim_token = none;
  claimed_at = none;
  lease_until = none;
  last_error = Option.map LastError.plain error;
  updated_at = now;
}
