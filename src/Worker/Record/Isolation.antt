-- ===== src/Worker/Record/Isolation.antt =====
-- The failure tally of an address (FAILURE_SQL of env/app/worker.py), and its quarantine.
use ccj.Prelude.{
  ℕ, ◌+◌, ◌≤◌, ◌<◌, ◌≡◌, refl, ap, ◌∙◌, true, false, Option, none, some, List, arith, is_some, ◌==◌,
  leb, ◌||◌,
}
use ccj.Config.{Settings}
use ccj.Models.{Delivery}
use ccj.Models.Tables.{Db, Destination, DestinationStatus}
use ccj.Sql.{first, exists, update}
use ccj.Sql.Evolve.{first-update, first_holds}
use ccj.Deadlines.{misses_cutoff, expire_in_flight_delivery, expire_found}
use ccj.Worker.Claim.{Claim, generation_at, is_ready, head_ready, is_active, at_most}
use ccj.Worker.Record.Rows.{Result, owns, fail_destination}
use ccj.Worker.Record.{
  Recorded, Times, record_result, apply_result, plain_failure, or_expired, add_attempt,
  with_attempt, moved,
}

-- A failed call that goes back on the queue.
pub record Requeued (cfg : Settings) (c : Claim) (r : Result) (db : Db) (now : ℕ) : Type 0 where
  pub owned : exists (owns c) db.deliveries ≡ true
  pub failed : r.success ≡ false
  pub at_home : moved c (generation_at c.copy.destination_id db.destinations) ≡ false
  pub ordinary : is_some c.corrects_event_id ≡ false
  pub within : first (misses_cutoff now c.copy.id (some r.finished_at)) db.deliveries ≡ none
  pub alive : c.copy.consecutive_failures + 1 < cfg.max_delivery_attempts

-- isolated, with no time at which it recovers, and passed over by every later claim
pub record IsStranded (x : Destination) : Type 0 where
  pub isolated : x.status ≡ DestinationStatus.isolated
  pub no_recovery : x.recoverable_at ≡ none
  pub never_ready : (now : ℕ) (rows : List Delivery) → is_ready now rows x ≡ false

head_blocked :
    (now : ℕ) (rows : List Delivery) (x : Destination) (o : Option Delivery)
    → (is_active x.status || at_most x.recoverable_at now) ≡ false
    → head_ready now rows x o ≡ false
unfolding head_ready
head_blocked now rows x none h = refl
head_blocked now rows x (some e) h = ground arith

fail_destination-IsStranded :
    (cfg : Settings) (x : Destination)
    → cfg.failure_threshold ≤ x.failure_count + 1
    → IsStranded (fail_destination cfg false none x)
unfolding fail_destination is_ready
fail_destination-IsStranded cfg x h = record {
  isolated = ground arith;
  no_recovery = ground arith;
  never_ready = λ now rows. head_blocked now rows _ _ (ground arith);
}

-- the addresses after the call; a stale claim is rolled back
abbrev pub destinations_after : Db → Recorded → List Destination
destinations_after db (Recorded.recorded b db') = db'.destinations
destinations_after db Recorded.stale_claim = db.destinations

attempt-destinations :
    (c : Claim) (r : Result) (db : Db) (o : Recorded)
    → destinations_after db (add_attempt c r o) ≡ destinations_after db o
unfolding add_attempt with_attempt
attempt-destinations c r db (Recorded.recorded b db') = refl
attempt-destinations c r db Recorded.stale_claim = refl

plain-destinations :
    (cfg : Settings) (t : Times) (c : Claim) (r : Result) (db : Db)
    → exists (owns c) db.deliveries ≡ true
    → c.copy.consecutive_failures + 1 < cfg.max_delivery_attempts
    → c.copy.attempts < cfg.failure_threshold
    → destinations_after db (plain_failure cfg t c r db)
      ≡ update
          (λ (x : Destination). x.id == c.copy.destination_id)
          (fail_destination cfg false none)
          db.destinations
unfolding plain_failure
plain-destinations cfg t c r db o a n =
    let dead : leb cfg.max_delivery_attempts (c.copy.consecutive_failures + 1) ≡ false =
      ground arith in
    let calm : leb cfg.failure_threshold c.copy.attempts ≡ false = ground arith in
    rw (dead, calm, o) refl

or_else :
    (now : ℕ) (c : Claim) (r : Result) (db : Db) (o : Recorded)
    → first (misses_cutoff now c.copy.id (some r.finished_at)) db.deliveries ≡ none
    → or_expired now c r db o ≡ o
unfolding or_expired expire_in_flight_delivery expire_found
or_else now c r db o e = rw e refl

Requeued-apply :
    (cfg : Settings) (t : Times) (c : Claim) (r : Result) (db : Db)
    → Requeued cfg c r db t.now
    → apply_result cfg t c r db ≡ plain_failure cfg t c r db
unfolding apply_result
Requeued-apply cfg t c r db q =
    simp
      (q.failed, q.at_home, q.ordinary, or_else t.now c r db (plain_failure cfg t c r db) q.within)

Requeued-destinations :
    (cfg : Settings) (t : Times) (c : Claim) (r : Result) (db : Db)
    → Requeued cfg c r db t.now
    → c.copy.attempts < cfg.failure_threshold
    → destinations_after db (record_result cfg t c r false db)
      ≡ update
          (λ (x : Destination). x.id == c.copy.destination_id)
          (fail_destination cfg false none)
          db.destinations
unfolding record_result
Requeued-destinations cfg t c r db q n = rw q.owned (
    attempt-destinations c r db (apply_result cfg t c r db)
    ∙ ap (destinations_after db) (Requeued-apply cfg t c r db q)
    ∙ plain-destinations cfg t c r db q.owned q.alive n)

failed_id :
    (cfg : Settings) (i : ℕ) (x : Destination)
    → (fail_destination cfg false none x).id == i ≡ x.id == i
unfolding fail_destination
failed_id cfg i x = refl

-- A failed call that goes back on the queue, and brings the tally of its address to the threshold
-- before the copy itself has been tried that often, isolates the address with no recovery time, and
-- no later claim finds the address ready.
pub record_result-strands :
    (cfg : Settings) (t : Times) (c : Claim) (r : Result) (db : Db) (x : Destination)
    → Requeued cfg c r db t.now
    → c.copy.attempts < cfg.failure_threshold
    → first (λ (y : Destination). y.id == c.copy.destination_id) db.destinations ≡ some x
    → cfg.failure_threshold ≤ x.failure_count + 1
    → (x' : Destination) × (first
          (λ (y : Destination). y.id == c.copy.destination_id)
          (destinations_after db (record_result cfg t c r false db))
        ≡ some x')
      × IsStranded x'
record_result-strands cfg t c r db x q n e h = (
  fail_destination cfg false none x,
  rw
      (
        Requeued-destinations cfg t c r db q n,
        first-update (λ (y : Destination). y.id == c.copy.destination_id)
            (λ (y : Destination). y.id == c.copy.destination_id) (fail_destination cfg false none)
            db.destinations x (failed_id cfg c.copy.destination_id) e,
        first_holds (λ (y : Destination). y.id == c.copy.destination_id) db.destinations x e,
      )
      refl,
  fail_destination-IsStranded cfg x h,
)
