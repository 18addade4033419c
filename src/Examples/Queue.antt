-- ===== src/Examples/Queue.antt =====
-- A claim, its receipt, a round of the sweep, and a relay that stops.
use ccj.Prelude.{◌≡◌, ◌≢◌, arith, refl, true, false, none, some, List, [], ◌∷◌}
use ccj.Models.{Delivery, Status, ReconcileState, ReceiptResult, SkipReason, DeadLetterReason}
use ccj.Models.Tables.{Db, ReceiptDisposition}
use ccj.Models.Checks.{IsSound, checks}
use ccj.Models.Keys.{IsKeyed}
use ccj.Models.Progress.{Progress}
use ccj.Sql.{first, where_rows, order_by, exists, update}
use ccj.Sql.Evolve.{All, Evolves}
use ccj.Relay.Gate.{relay_open}
use ccj.Relay.Cascade.{cascade_after_stop, is_trigger}
use ccj.Relay.Cascade.Closed.{Stopped, cascade_after_stop-Stopped, cascade_after_stop-again}
use ccj.Reconciler as Reconciler
use ccj.Reconciler.Laws.{IsCurrent, sweep_once-IsCurrent}
use ccj.Receipts as Receipts
use ccj.Receipts.Matching.{AckEarned, ingest_receipt-AckEarned}
use ccj.Receipts.Once.{ingest_receipt-once}
use ccj.Worker.Claim as Claiming
use ccj.Worker.Claim.{Claim, Locks, run_claim, picked, is_candidate, claim_row}
use ccj.Worker.Claim.Sends.{Sends, run_claim-Sends}
use ccj.Worker.Claim.Queue.{IsHead, picked-IsHead}
use ccj.Operator.Pause as Pause
use ccj.Operator.Pause.{DestinationPauseIn, Paused, pause_destination}
use ccj.Operator.Pause.Quiet.{pause_destination-IsQuiet}
use ccj.System.{State, Op, run}
use ccj.System.Laws.{IsValid, run-IsValid, run-Progress}
use ccj.Examples.{settings, copy, address, database}

abbrev unlocked : Locks
unlocked = record {
  destinations = λ i. false;
  copies = λ i. false;
  deliveries = λ i. false;
  by_body = λ i. false;
}

abbrev sweep_locks : Reconciler.Locks
sweep_locks = record { deliveries = λ i. false; by_body = λ i. false; gates = λ i. false }

abbrev queue : Db
queue = database (copy ∷ [])

abbrev claim : Claim
claim = record {
  copy = record copy {
    status = Status.in_flight;
    attempts = 1;
    claim_token = some 77;
    claimed_at = some 20;
    lease_until = some 50;
    updated_at = 20;
  };
  destination_url = "https://example.org/hook";
  recovered_destination = false;
  corrects_event_id = none;
}

claimed : (run_claim settings 20 77 unlocked queue).0 ≡ some claim
unfolding run_claim Claiming.claim_at Claiming.candidate_destination where_rows order_by
    Claiming.is_ready Claiming.head_ready Claiming.oldest is_candidate relay_open Claiming.receives
    exists Claiming.claim_copy picked Claiming.may_claim claim_row first
claimed = refl

run_claim-Sends_example : Sends settings 20 77 queue claim
run_claim-Sends_example = run_claim-Sends settings 20 77 unlocked queue claim claimed

abbrev second : Delivery
second = record copy { id = 2; event_id = 300; destination_seq = 2; dedupe_key = "evt:300" }

first_picked : picked 20 (λ i. false) address (second ∷ copy ∷ []) ≡ some copy
unfolding picked where_rows order_by is_candidate relay_open
first_picked = refl

picked-IsHead_example : IsHead 20 address (second ∷ copy ∷ []) copy
picked-IsHead_example = picked-IsHead 20 address (second ∷ copy ∷ []) copy first_picked

abbrev sent : Delivery
sent = record copy {
  status = Status.delivered;
  delivered_at = some 30;
  reconcile_state = ReconcileState.awaiting;
  reconcile_deadline = some 150;
}

abbrev sent_db : Db
sent_db = database (sent ∷ [])

sent-IsSound : All IsSound sent_db.deliveries
unfolding checks
sent-IsSound = (
  record {
    checked = refl;
    gate_agrees = refl;
    awaits_receipt = λ e. refl;
    acknowledged = λ e. absurd (cc);
    gated = refl;
  },
  tt,
)

abbrev acked : Receipts.Call
acked = record {
  now = 150;
  receipt_id = 900;
  destination_id = 7;
  dedupe_key = "evt:100";
  result = ReceiptResult.success;
}

abbrev refused : Receipts.Call
refused = record acked { now = 151; receipt_id = 901; result = ReceiptResult.failure }

sent-IsKeyed :
    IsKeyed (Receipts.wait_for_worker 7 "evt:100" (sent_db.deliveries ∷ []) sent_db.deliveries)
unfolding Receipts.wait_for_worker Receipts.lock_delivery first Receipts.is_copy
sent-IsKeyed = (tt, tt)

ingest_receipt-AckEarned_example :
    Evolves
      (AckEarned acked)
      (Receipts.wait_for_worker 7 "evt:100" (sent_db.deliveries ∷ []) sent_db.deliveries)
      (Receipts.ingest_receipt settings acked (sent_db.deliveries ∷ []) sent_db).1.deliveries
ingest_receipt-AckEarned_example =
    ingest_receipt-AckEarned settings acked (sent_db.deliveries ∷ []) sent_db sent-IsKeyed

receipt_applied :
    (Receipts.ingest_receipt settings acked [] sent_db).0.disposition ≡ ReceiptDisposition.applied
unfolding Receipts.ingest_receipt Receipts.lock_delivery first Receipts.wait_for_worker
    Receipts.is_copy
receipt_applied = refl

waited-IsSound : All IsSound (Receipts.wait_for_worker 7 "evt:100" [] sent_db.deliveries)
unfolding Receipts.wait_for_worker
waited-IsSound = sent-IsSound

ingest_receipt-once_example :
    let db' = (Receipts.ingest_receipt settings acked [] sent_db).1 in
    let (r, db'') = Receipts.ingest_receipt settings refused [] db' in
    (r.disposition ≡ ReceiptDisposition.duplicate) × (db''.deliveries ≡ db'.deliveries)
ingest_receipt-once_example =
    ingest_receipt-once settings acked refused [] [] sent_db waited-IsSound refl refl
      receipt_applied

sweep_once-IsCurrent_example :
    All (IsCurrent 200) (Reconciler.sweep_once settings 200 sweep_locks (sent ∷ [])).1
sweep_once-IsCurrent_example = sweep_once-IsCurrent settings 200 sweep_locks (sent ∷ [])

abbrev station : Delivery
station = record copy {
  id = 31;
  relay_chain_id = some 3;
  relay_station_no = some 1;
  status = Status.dead_lettered;
  dead_letter_reason = some DeadLetterReason.delivery_attempts_exhausted;
}

abbrev next_station : Delivery
next_station = record copy { id = 32; relay_chain_id = some 3; relay_station_no = some 2 }

station_found : first (is_trigger 31) (station ∷ next_station ∷ []) ≡ some station
unfolding first
station_found = refl

stations-IsKeyed : IsKeyed (station ∷ next_station ∷ [])
stations-IsKeyed = (((λ e. absurd (cc)), tt), (tt, tt))

-- as the first station, of another event
abbrev bystander : Delivery
bystander = record next_station { id = 33; event_id = 300 }

cascade_after_stop-again_example :
    let rows = (cascade_after_stop 60 31 (station ∷ next_station ∷ [])).1 in
    cascade_after_stop 61 31 rows ≡ (0, rows)
cascade_after_stop-again_example =
    cascade_after_stop-again 60 61 31 (station ∷ next_station ∷ []) stations-IsKeyed

abbrev initial : State
initial = record { db = queue; claims = [] }

-- claimed at 20, answered 2xx at 30, acknowledged at 40, swept at 200
abbrev day : List Op
day =
    Op.claim 20 77 unlocked
    ∷ Op.result 0 (record { now = 30; next_attempt_at = 32; recoverable_at = 90 })
        (record { success = true; finished_at = 30; error = none }) false
    ∷ Op.receipt (record acked { now = 40 })
    ∷ Op.sweep 200 sweep_locks
    ∷ []

initial-IsValid : IsValid initial
unfolding checks
initial-IsValid = record {
  keyed = (tt, tt);
  sound = (
    record {
      checked = refl;
      gate_agrees = refl;
      awaits_receipt = λ e. absurd (cc);
      acknowledged = λ e. absurd (cc);
      gated = refl;
    },
    tt,
  );
  held = tt;
}

run-IsValid_example : IsValid (run settings day initial)
run-IsValid_example = run-IsValid settings day initial initial-IsValid

run-Progress_example : Evolves Progress queue.deliveries (run settings day initial).db.deliveries
run-Progress_example = run-Progress settings day initial initial-IsValid

-- two addresses, the second of which is paused
abbrev other : Delivery
other = record copy { id = 2; destination_id = 8 }

abbrev both : Db
both = record (database (other ∷ copy ∷ [])) {
  destinations = record address { id = 8 } ∷ address ∷ [];
}

abbrev until_forty : DestinationPauseIn
until_forty = record { paused_from = none; paused_until = some (some 40) }

abbrev quiet : Db
quiet = record both {
  destinations =
      record address { id = 8; paused_from = some 15; paused_until = some 40 } ∷ address ∷ [];
}

pause_taken : pause_destination 15 8 until_forty both ≡ Paused.done quiet
unfolding pause_destination Pause.pause_found first update
pause_taken = refl

claimed_other : (run_claim settings 20 77 unlocked quiet).0 ≡ some claim
unfolding run_claim Claiming.claim_at Claiming.candidate_destination where_rows order_by
    Claiming.is_ready Claiming.head_ready Claiming.oldest is_candidate relay_open Claiming.receives
    exists Claiming.claim_copy picked Claiming.may_claim claim_row first
claimed_other = refl

pause_destination-IsQuiet_example : claim.copy.destination_id ≢ 8
pause_destination-IsQuiet_example =
    pause_destination-IsQuiet settings 15 20 77 8 until_forty unlocked both quiet claim pause_taken
      (omega arith) refl claimed_other

run-IsKeyed : IsKeyed (station ∷ next_station ∷ bystander ∷ [])
run-IsKeyed = (((λ e. absurd (cc)), ((λ e. absurd (cc)), tt)), (((λ e. absurd (cc)), tt), (tt, tt)))

first_in_run : first (is_trigger 31) (station ∷ next_station ∷ bystander ∷ []) ≡ some station
unfolding first
first_in_run = refl

cascade_after_stop-Stopped_example :
    Evolves
      (Stopped 60 31 station (SkipReason.dead_letter DeadLetterReason.delivery_attempts_exhausted))
      (station ∷ next_station ∷ bystander ∷ [])
      (cascade_after_stop 60 31 (station ∷ next_station ∷ bystander ∷ [])).1
cascade_after_stop-Stopped_example =
    cascade_after_stop-Stopped 60 31 (station ∷ next_station ∷ bystander ∷ []) station
      (SkipReason.dead_letter DeadLetterReason.delivery_attempts_exhausted) run-IsKeyed first_in_run
      (refl, refl)
