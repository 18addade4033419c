-- ===== src/Models/Tables.antt =====
-- The other rows of env/app/models.py, and the database.
use ccj.Prelude.{ℕ, String, Bool, Option, List}
use ccj.Models.{Delivery, ReceiptResult, ReleaseState, Status}

pub data DestinationStatus : Type 0 where
  active isolated : DestinationStatus

pub data ConfirmationState : Type 0 where
  pending confirmed : ConfirmationState

pub record Destination : Type 0 where
  pub id : ℕ
  pub url : String
  pub status : DestinationStatus
  pub failure_count : ℕ
  pub recoverable_at : Option ℕ
  pub next_event_seq : ℕ
  pub confirmation_state : ConfirmationState
  pub challenge_token : Option String
  pub challenge_expires_at : Option ℕ
  pub confirmed_at : Option ℕ
  pub confirmation_generation : ℕ
  pub confirmation_round : ℕ
  pub confirmation_attempt_count : ℕ
  pub next_probe_at : ℕ
  pub observe_only : Bool
  pub paused_from : Option ℕ
  pub paused_until : Option ℕ

pub record Event : Type 0 where
  pub id : ℕ
  pub event_type : String
  pub dedupe_key : String
  pub not_before : Option ℕ
  pub deliver_by : Option ℕ
  pub cancelled_at : Option ℕ
  pub corrects_event_id : Option ℕ
  pub required_ack_count : Option ℕ

pub data Decision : Type 0 where
  approve deny : Decision

-- release_gate_decisions.disposition; nothing modelled writes `not_gated`.
pub data Disposition : Type 0 where
  released denied duplicate late_ignored conflict preview_not_delivered not_gated orphan :
      Disposition

-- The texts written to `release_gate_decisions.reason`, with what the program puts into them.
pub data AnswerReason : Type 0 where
  no_gated_body deadline_passed : AnswerReason
  body_already_closed : ReleaseState → AnswerReason
  body_already_in : Status → AnswerReason
  preview_status : Status → AnswerReason

pub record GateDecision : Type 0 where
  pub destination_id : ℕ
  pub event_id : ℕ
  pub delivery_id : Option ℕ
  pub decision : Decision
  pub disposition : Disposition
  pub reason : Option AnswerReason

-- receipts.disposition
pub data ReceiptDisposition : Type 0 where
  applied duplicate late orphan premature : ReceiptDisposition

pub record Receipt : Type 0 where
  pub id : ℕ
  pub destination_id : ℕ
  pub dedupe_key : String
  pub result : ReceiptResult
  pub delivery_id : Option ℕ
  pub disposition : ReceiptDisposition

pub record DeliveryAttempt : Type 0 where
  pub delivery_id : ℕ
  pub attempt_no : ℕ
  pub finished_at : ℕ
  pub success : Bool
  pub error : Option String
  pub lost_lease : Bool

-- confirmation_attempts.kind and .result
pub data AttemptKind : Type 0 where
  challenge echo expired : AttemptKind

pub data AttemptResult : Type 0 where
  sent confirmed failed invalid expired : AttemptResult

pub record ConfirmationAttempt : Type 0 where
  pub destination_id : ℕ
  pub confirmation_round : ℕ
  pub kind : AttemptKind
  pub result : AttemptResult
  pub error : Option String

-- The tables that the modelled operations read and write.
pub record Db : Type 0 where
  pub deliveries : List Delivery
  pub destinations : List Destination
  pub events : List Event
  pub gate_decisions : List GateDecision
  pub receipts : List Receipt
  pub attempts : List DeliveryAttempt
  pub confirmation_attempts : List ConfirmationAttempt
