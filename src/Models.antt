-- ===== src/Models.antt =====
-- The schema of env/app/models.py: the enumerated columns, and the rows of `deliveries`.
pub mod Tables
pub mod Checks
pub mod Progress
pub mod Keys
use ccj.Prelude.{ℕ, String, Bool, true, false, Option}

pub data Status : Type 0 where
  pending in_flight delivered cancelled superseded dead_lettered failed : Status
  release_denied release_expired release_voided relay_skipped deadline_expired : Status

pub data Phase : Type 0 where
  preview body : Phase

pub data ReleaseState : Type 0 where
  held released release_denied release_expired release_voided deadline_expired : ReleaseState

-- `unset` is the text 'none'.
pub data ReconcileState : Type 0 where
  unset awaiting acknowledged receipt_failed timed_out : ReconcileState

pub data DeadLetterReason : Type 0 where
  delivery_attempts_exhausted receipt_timeout_exhausted receipt_failure_exhausted : DeadLetterReason

pub data SkipReason : Type 0 where
  dead_letter : DeadLetterReason → SkipReason
  receipt_failed receipt_timeout superseded deliver_by_expired : SkipReason

pub data VoidReason : Type 0 where
  manual preview_dead_lettered preview_superseded preview_deadline_expired : VoidReason
  deliver_by_expired : VoidReason

pub data ReceiptResult : Type 0 where
  success failure : ReceiptResult

-- The texts written to `last_error`: the error of the call, and the two that CONCAT builds on it.
pub data LastError : Type 0 where
  plain : String → LastError
  dead_lettered_after : ℕ → Option String → LastError
  superseded_after_move : Option String → LastError

-- A row of `deliveries`. Identifiers are numbers, and so are times; a nullable column is an `Option`.
pub record Delivery : Type 0 where
  pub id : ℕ
  pub event_id : ℕ
  pub destination_id : ℕ
  pub event_type : String
  pub dedupe_key : String
  pub payload : String
  pub destination_seq : ℕ
  pub status : Status
  pub attempts : ℕ
  pub claim_token : Option ℕ
  pub claimed_at : Option ℕ
  pub lease_until : Option ℕ
  pub next_attempt_at : ℕ
  pub not_before : Option ℕ
  pub deliver_by : Option ℕ
  pub last_error : Option LastError
  pub created_at : ℕ
  pub updated_at : ℕ
  pub delivered_at : Option ℕ
  pub deliver_by_expired_at : Option ℕ
  pub reconcile_state : ReconcileState
  pub reconcile_deadline : Option ℕ
  pub reconciled_at : Option ℕ
  pub receipt_result : Option ReceiptResult
  pub receipt_id : Option ℕ
  pub requeue_count : ℕ
  pub consecutive_failures : ℕ
  pub dead_letter_reason : Option DeadLetterReason
  pub dead_lettered_at : Option ℕ
  pub confirmation_generation : ℕ
  pub observe_only : Bool
  pub filter_spec : Option String
  pub phase : Phase
  pub release_state : Option ReleaseState
  pub preview_delivery_id : Option ℕ
  pub body_delivery_id : Option ℕ
  pub consent_deadline : Option ℕ
  pub consent_timeout_seconds : Option ℕ
  pub released_at : Option ℕ
  pub voided_at : Option ℕ
  pub void_reason : Option VoidReason
  pub relay_chain_id : Option ℕ
  pub relay_station_no : Option ℕ
  pub relay_skipped_at : Option ℕ
  pub relay_skip_reason : Option SkipReason
  pub relay_stopped_by_delivery_id : Option ℕ

-- Tests on the enumerated columns, as the statements write them.
abbrev pub is_pending : Status → Bool
is_pending Status.pending = true
is_pending _ = false

abbrev pub is_in_flight : Status → Bool
is_in_flight Status.in_flight = true
is_in_flight _ = false

abbrev pub is_delivered : Status → Bool
is_delivered Status.delivered = true
is_delivered _ = false

abbrev pub is_dead_lettered : Status → Bool
is_dead_lettered Status.dead_lettered = true
is_dead_lettered _ = false

abbrev pub is_superseded : Status → Bool
is_superseded Status.superseded = true
is_superseded _ = false

abbrev pub is_relay_skipped : Status → Bool
is_relay_skipped Status.relay_skipped = true
is_relay_skipped _ = false

abbrev pub is_deadline_expired : Status → Bool
is_deadline_expired Status.deadline_expired = true
is_deadline_expired _ = false

abbrev pub is_body : Phase → Bool
is_body Phase.body = true
is_body Phase.preview = false

abbrev pub is_preview : Phase → Bool
is_preview Phase.preview = true
is_preview Phase.body = false

-- release_state = 'held'
abbrev pub is_held : Option ReleaseState → Bool
is_held (Option.some ReleaseState.held) = true
is_held _ = false

-- release_state IN ('held', 'released')
abbrev pub is_open : Option ReleaseState → Bool
is_open (Option.some ReleaseState.held) = true
is_open (Option.some ReleaseState.released) = true
is_open _ = false

-- release_state IS NULL OR release_state = 'released'
abbrev pub is_deliverable : Option ReleaseState → Bool
is_deliverable Option.none = true
is_deliverable (Option.some ReleaseState.released) = true
is_deliverable _ = false

abbrev pub is_awaiting : ReconcileState → Bool
is_awaiting ReconcileState.awaiting = true
is_awaiting _ = false

abbrev pub is_acknowledged : ReconcileState → Bool
is_acknowledged ReconcileState.acknowledged = true
is_acknowledged _ = false
