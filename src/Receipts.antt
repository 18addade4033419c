-- ===== src/Receipts.antt =====
-- env/app/receipts.py: a receipt is matched against its copy, once.
pub mod Laws
pub mod Matching
pub mod Once
pub mod Late
use ccj.Prelude.{
  ℕ, ◌+◌, String, Bool, true, false, Option, none, some, List, [], ◌∷◌, ◌++◌, ◌&&◌, ◌||◌, before,
  is_some, leb, ltb, ◌==◌, if◌then◌else◌,
}
use text.Mathlib.Text.{◌==◌ as str_eq}
use ccj.Config.{Settings}
use ccj.Models.{
  Delivery, Status, ReconcileState, ReceiptResult, DeadLetterReason, is_delivered, is_in_flight,
  is_deadline_expired,
}
use ccj.Models.Tables.{Db, Receipt, ReceiptDisposition}
use ccj.Sql.{update, first}
use ccj.Relay.Cascade.{cascade_after_stop}

-- the WHERE of LOCK_DELIVERY_SQL
unfoldable pub is_copy : ℕ → String → Delivery → Bool
is_copy destination_id dedupe_key d =
    d.destination_id == destination_id && str_eq d.dedupe_key dedupe_key

unfoldable pub lock_delivery : ℕ → String → List Delivery → Option Delivery
lock_delivery destination_id dedupe_key = first (is_copy destination_id dedupe_key)

abbrev pub outcome_state : ReceiptResult → ReconcileState
outcome_state ReceiptResult.success = ReconcileState.acknowledged
outcome_state ReceiptResult.failure = ReconcileState.receipt_failed

abbrev pub is_failure : ReceiptResult → Bool
is_failure ReceiptResult.failure = true
is_failure ReceiptResult.success = false

-- APPLY_RECEIPT_SQL
unfoldable pub apply_receipt : ℕ → ℕ → ReceiptResult → Delivery → Delivery
apply_receipt now receipt_id result d = record d {
  reconcile_state = outcome_state result;
  reconciled_at = some now;
  receipt_result = some result;
  receipt_id = some receipt_id;
  updated_at = now;
}

-- MARK_TIMED_OUT_SQL
unfoldable pub mark_timed_out : ℕ → Delivery → Delivery
mark_timed_out now d = record d { reconcile_state = ReconcileState.timed_out; updated_at = now }

-- PARK_FAILED_RECEIPT_SQL
unfoldable pub park_failed : ℕ → Delivery → Delivery
park_failed now d = record d {
  status = Status.dead_lettered;
  dead_letter_reason = some DeadLetterReason.receipt_failure_exhausted;
  dead_lettered_at = some now;
  updated_at = now;
}

unfoldable pub may_park : Settings → Delivery → Bool
may_park cfg d = is_delivered d.status && leb cfg.max_requeue_cycles d.requeue_count

abbrev pub is_unset : ReconcileState → Bool
is_unset ReconcileState.unset = true
is_unset _ = false

-- The waiting loop: `reads` is the table as each further read finds it while the grace lasts, after
-- what other transactions have committed in between.
abbrev pub keeps_waiting : Option Delivery → Bool
keeps_waiting none = false
keeps_waiting (some d) = is_unset d.reconcile_state && is_in_flight d.status

unfoldable pub wait_for_worker : ℕ → String → List (List Delivery) → List Delivery → List Delivery
wait_for_worker destination_id dedupe_key [] rows = rows
wait_for_worker destination_id dedupe_key (read ∷ reads) rows =
    let again = wait_for_worker destination_id dedupe_key reads read in
    if keeps_waiting (lock_delivery destination_id dedupe_key rows) then again else rows

-- What is decided of a copy: the disposition, the rows, and whether a relay stops at the copy.
pub record Judgement : Type 0 where
  pub disposition : ReceiptDisposition
  pub rows : List Delivery
  pub relay_stopped : Bool

-- The arguments of a call, with the clock and the fresh id.
pub record Call : Type 0 where
  pub now : ℕ
  pub receipt_id : ℕ
  pub destination_id : ℕ
  pub dedupe_key : String
  pub result : ReceiptResult

unfoldable pub apply_in_time : Settings → Call → Delivery → List Delivery → Judgement
apply_in_time cfg c d rows =
    let applied = update (λ x. x.id == d.id) (apply_receipt c.now c.receipt_id c.result) rows in
    record {
      disposition = ReceiptDisposition.applied;
      rows =
          if is_failure c.result && may_park cfg d
          then update (λ x. x.id == d.id && may_park cfg x) (park_failed c.now) applied
          else applied;
      relay_stopped = is_failure c.result && is_some d.relay_chain_id;
    }

unfoldable pub judge_awaiting : Settings → Call → Delivery → List Delivery → Judgement
judge_awaiting cfg c d rows =
    if before d.reconcile_deadline c.now
    then record {
      disposition = ReceiptDisposition.late;
      rows = update (λ x. x.id == d.id) (mark_timed_out c.now) rows;
      relay_stopped = is_some d.relay_chain_id;
    }
    else apply_in_time cfg c d rows

-- a judgement that writes nothing
abbrev pub noted : ReceiptDisposition → List Delivery → Judgement
noted disposition rows = record { disposition = disposition; rows = rows; relay_stopped = false }

unfoldable pub judge : Settings → Call → ReconcileState → Delivery → List Delivery → Judgement
unfolding judge_awaiting apply_in_time
judge cfg c ReconcileState.awaiting d rows = judge_awaiting cfg c d rows
judge cfg c ReconcileState.unset d rows =
    if is_delivered d.status
    then record {
      disposition = ReceiptDisposition.applied;
      rows = update (λ x. x.id == d.id) (apply_receipt c.now c.receipt_id c.result) rows;
      relay_stopped = false;
    }
    else noted
        (if is_deadline_expired d.status
          then ReceiptDisposition.late
          else ReceiptDisposition.premature)
        rows
judge cfg c ReconcileState.timed_out d rows = noted ReceiptDisposition.late rows
judge cfg c _ d rows = noted ReceiptDisposition.duplicate rows

-- the cascade at the end, of a copy that stops a relay
unfoldable pub stopped_rows : ℕ → Bool → Option ℕ → List Delivery → List Delivery
stopped_rows now true (some i) rows = (cascade_after_stop now i rows).1
stopped_rows now _ _ rows = rows

-- INSERT_RECEIPT_SQL, then the cascade
unfoldable pub record_receipt : Call → Option ℕ → Judgement → Db → Receipt × Db
record_receipt c delivery_id j db =
    let receipt : Receipt = record {
      id = c.receipt_id;
      destination_id = c.destination_id;
      dedupe_key = c.dedupe_key;
      result = c.result;
      delivery_id = delivery_id;
      disposition = j.disposition;
    } in
    (
      receipt,
      record db {
        deliveries = stopped_rows c.now j.relay_stopped delivery_id j.rows;
        receipts = db.receipts ++ (receipt ∷ []);
      },
    )

unfoldable pub ingest_found : Settings → Call → Option Delivery → Db → Receipt × Db
unfolding judge record_receipt
ingest_found cfg c none db =
    record_receipt c none (noted ReceiptDisposition.orphan db.deliveries) db
ingest_found cfg c (some d) db =
    record_receipt c (some d.id) (judge cfg c d.reconcile_state d db.deliveries) db

-- `reads` are the tables that the loop finds; the other tables stay as they are while it waits.
unfoldable pub ingest_receipt : Settings → Call → List (List Delivery) → Db → Receipt × Db
unfolding ingest_found
ingest_receipt cfg c reads db =
    let rows = wait_for_worker c.destination_id c.dedupe_key reads db.deliveries in
    ingest_found cfg c (lock_delivery c.destination_id c.dedupe_key rows)
      (record db { deliveries = rows })
