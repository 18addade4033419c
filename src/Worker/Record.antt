-- ===== src/Worker/Record.antt =====
-- `record_result` of env/app/worker.py: what the result of a call does to its copy.
pub mod Rows
pub mod Laws
pub mod Isolation
pub mod InTime
use ccj.Prelude.{
  ℕ, ◌+◌, ◌-◌, ◌*◌, String, Bool, true, false, Option, none, some, List, [], ◌∷◌, ◌++◌, ◌&&◌, ◌||◌,
  not, is_some, holds, leb, ltb, ◌==◌, if◌then◌else◌,
}
use ccj.Config.{Settings}
use ccj.Models.{
  Delivery, Phase, Status, VoidReason, is_pending, is_in_flight, is_preview, is_deadline_expired,
}
use ccj.Models.Tables.{Db, Destination, DeliveryAttempt}
use ccj.Sql.{update, first, exists}
use ccj.Relay.Cascade.{cascade_after_stop}
use ccj.Release.Gate.{mark_preview_delivered, void_body_after_preview_failure, in_time}
use ccj.Deadlines.{expire_in_flight_delivery}
use ccj.Worker.Claim.{Claim, generation_at}
use Rows.{
  Result, owns, succeeds, event_success, destination_success, failure_row, fail_destination,
  supersede_failed, correction_failure,
}

-- The outcome of the call: committed, with the flag that it returns, or `StaleClaimError`, after which
-- `process_once` rolls back.
pub data Recorded : Type 0 where
  recorded : Bool → Db → Recorded
  stale_claim : Recorded

-- the values that the worker's own clock and the jitter of `backoff_delay` give
pub record Times : Type 0 where
  pub now : ℕ
  pub next_attempt_at : ℕ
  pub recoverable_at : ℕ

unfoldable pub with_attempt : Claim → Result → Bool → Db → Db
with_attempt c r lost db = record db {
  attempts =
      db.attempts
      ++ (record {
        delivery_id = c.copy.id;
        attempt_no = c.copy.attempts;
        finished_at = r.finished_at;
        success = r.success;
        error = r.error;
        lost_lease = lost;
      }
          ∷ []);
}

-- the cascade of a relay station that has stopped
unfoldable pub cascade_claim : ℕ → Claim → List Delivery → List Delivery
cascade_claim now c rows =
    if is_some c.copy.relay_chain_id then (cascade_after_stop now c.copy.id rows).1 else rows

abbrev closed_by_cutoff : Option Delivery → Bool
closed_by_cutoff none = false
closed_by_cutoff (some d) = is_deadline_expired d.status

-- a preview answered 2xx
unfoldable pub preview_success : ℕ → Claim → Result → Db → Recorded
preview_success now c r db =
    let (delivered, db') = mark_preview_delivered now c.copy.id (some r.finished_at) db in
    if delivered
    then recorded false db'
    else if closed_by_cutoff (first (λ (d : Delivery). d.id == c.copy.id) db'.deliveries)
    then recorded true (record db' { deliveries = cascade_claim now c db'.deliveries })
    else stale_claim

-- The cutoff closed the copy while it was in flight. `otherwise` goes on if it did not.
unfoldable pub or_expired : ℕ → Claim → Result → Db → Recorded → Recorded
or_expired now c r db otherwise =
    let (closed, rows) =
      expire_in_flight_delivery now c.copy.id (some r.finished_at) db.deliveries in
    if closed
    then recorded true (record db { deliveries = cascade_claim now c rows })
    else otherwise

-- A body answered 2xx. `id` is the primary key: the row count is 1 just if there is such a row.
unfoldable pub body_success : Settings → ℕ → Claim → Result → Db → Recorded
body_success cfg now c r db =
    if exists (succeeds c r) db.deliveries
    then recorded false (record db {
      deliveries = update (succeeds c r) (event_success cfg now) db.deliveries;
      destinations =
          update (λ (x : Destination). x.id == c.copy.destination_id) destination_success
            db.destinations;
    })
    else or_expired now c r db stale_claim

-- a failed call of a copy whose address has moved
unfoldable pub moved_failure : ℕ → Claim → Result → Db → Recorded
moved_failure now c r db =
    let rows = update (owns c) (supersede_failed now r.error) db.deliveries in
    let voided =
      if is_preview c.copy.phase
      then void_body_after_preview_failure now c.copy.id VoidReason.preview_superseded rows
      else rows in
    if exists (owns c) db.deliveries
    then recorded false (record db { deliveries = cascade_claim now c voided })
    else stale_claim

-- a failed call of a correction
unfoldable pub failed_correction : ℕ → Claim → Result → Db → Recorded
failed_correction now c r db =
    if exists (owns c) db.deliveries
    then recorded false
        (record db { deliveries = update (owns c) (correction_failure now r.error) db.deliveries })
    else stale_claim

-- `recoverable_at`: set only if `should_isolate`, which counts the attempts of the copy
abbrev pub quarantine : Settings → Times → Claim → Option ℕ
quarantine cfg t c =
    if leb cfg.failure_threshold c.copy.attempts then some t.recoverable_at else none

-- any other failed call
unfoldable pub plain_failure : Settings → Times → Claim → Result → Db → Recorded
plain_failure cfg t c r db =
    let dead = leb cfg.max_delivery_attempts (c.copy.consecutive_failures + 1) in
    let rows = update (owns c) (failure_row t.now t.next_attempt_at dead r.error) db.deliveries in
    let voided =
      if is_preview c.copy.phase && dead
      then void_body_after_preview_failure t.now c.copy.id VoidReason.preview_dead_lettered rows
      else rows in
    if exists (owns c) db.deliveries
    then recorded false (record db {
      deliveries = if dead then cascade_claim t.now c voided else voided;
      destinations =
          update (λ (x : Destination). x.id == c.copy.destination_id)
            (fail_destination cfg dead (quarantine cfg t c)) db.destinations;
    })
    else stale_claim

abbrev moved : Claim → Option ℕ → Bool
moved c none = true
moved c (some g) = not (g == c.copy.confirmation_generation)

unfoldable pub apply_result : Settings → Times → Claim → Result → Db → Recorded
apply_result cfg t c r db =
    if r.success
    then if is_preview c.copy.phase
      then preview_success t.now c r db
      else body_success cfg t.now c r db
    else if moved c (generation_at c.copy.destination_id db.destinations)
    then moved_failure t.now c r db
    else if is_some c.corrects_event_id
    then failed_correction t.now c r db
    else or_expired t.now c r db (plain_failure cfg t c r db)

unfoldable pub add_attempt : Claim → Result → Recorded → Recorded
add_attempt c r (recorded b db) = recorded b (with_attempt c r false db)
add_attempt c r stale_claim = stale_claim

-- A lost lease leaves only an audit row.
unfoldable pub record_result : Settings → Times → Claim → Result → Bool → Db → Recorded
record_result cfg t c r lease_lost db =
    if lease_lost || not (exists (owns c) db.deliveries)
    then recorded false (with_attempt c r true db)
    else add_attempt c r (apply_result cfg t c r db)
