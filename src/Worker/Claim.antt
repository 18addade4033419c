-- ===== src/Worker/Claim.antt =====
-- `claim_next_event` of env/app/worker.py and its statements.
pub mod Sends
pub mod Laws
pub mod Queue
use ccj.Prelude.{
  ℕ, ◌+◌, String, Bool, true, false, Option, none, some, List, [], ◌∷◌, ◌&&◌, ◌||◌, not, map,
  before, holds, is_null, is_some, coalesce, leb, ltb, ◌==◌, if◌then◌else◌,
}
use Prim.Native.Nat.{min, max}
use ccj.Config.{Settings}
use ccj.Models.{Delivery, Status, is_pending, is_in_flight, is_deliverable}
use ccj.Models.Tables.{Db, Destination, DestinationStatus, ConfirmationState, Event}
use ccj.Sql.{update, first, exists, where_rows, order_by, limit_rows, head?}
use ccj.Relay.Gate.{relay_open}
use ccj.Relay.Cascade.{cascade_all}
use ccj.Release.Gate.{in_time, older_than, generation_of}
use ccj.Deadlines.{expire_due_deliveries}

-- REAP_SQL
unfoldable pub lease_over : ℕ → Delivery → Bool
lease_over now d = is_in_flight d.status && before d.lease_until now

unfoldable pub reap_row : ℕ → Delivery → Delivery
reap_row now d = record d {
  status = Status.pending;
  claim_token = none;
  claimed_at = none;
  lease_until = none;
  next_attempt_at = min d.next_attempt_at now;
  updated_at = now;
}

-- SUPERSEDE_STALE_SQL
abbrev pub generation_at : ℕ → List Destination → Option ℕ
generation_at i destinations = generation_of (first (λ (x : Destination). x.id == i) destinations)

unfoldable pub is_stale : List Destination → Delivery → Bool
is_stale destinations d =
    is_pending d.status && older_than (generation_at d.destination_id destinations) d

abbrev by_queue : Delivery → Delivery → Bool
by_queue d e =
    ltb d.destination_id e.destination_id
    || (d.destination_id == e.destination_id && leb d.destination_seq e.destination_seq)

unfoldable pub stale_rows : List Destination → List Delivery → List Delivery
stale_rows destinations rows =
    limit_rows 200 (order_by by_queue (where_rows (is_stale destinations) rows))

-- The row is stale itself: `id` is the primary key.
unfoldable pub superseded_by_move : List Destination → List Delivery → Delivery → Bool
superseded_by_move destinations stale d =
    is_stale destinations d && exists (λ e. e.id == d.id) stale

unfoldable pub supersede_row : ℕ → Delivery → Delivery
supersede_row now d = record d { status = Status.superseded; updated_at = now }

-- The copies among which the head of an address's queue is looked for.
unfoldable pub is_candidate : ℕ → ℕ → Delivery → Bool
is_candidate now destination_id e =
    e.destination_id == destination_id
    && ((is_pending e.status || is_in_flight e.status)
        && (is_deliverable e.release_state && in_time e.deliver_by now))

abbrev pub by_seq : Delivery → Delivery → Bool
by_seq d e = leb d.destination_seq e.destination_seq

-- the LATERAL subquery `oldest`
unfoldable pub oldest : ℕ → ℕ → List Delivery → Option Delivery
oldest now destination_id rows =
    head? (order_by by_seq (where_rows (is_candidate now destination_id) rows))

-- GREATEST(next_attempt_at, COALESCE(not_before, '-infinity'))
abbrev pub due_at : Delivery → ℕ
due_at e = max e.next_attempt_at (coalesce e.not_before 0)

abbrev pub is_active : DestinationStatus → Bool
is_active DestinationStatus.active = true
is_active DestinationStatus.isolated = false

-- recoverable_at <= now(), which NULL is not
abbrev pub at_most : Option ℕ → ℕ → Bool
at_most none now = false
at_most (some t) now = leb t now

abbrev pub is_confirmed : ConfirmationState → Bool
is_confirmed ConfirmationState.confirmed = true
is_confirmed ConfirmationState.pending = false

-- paused_from IS NULL OR paused_from > now() OR (paused_until IS NOT NULL AND paused_until <= now())
unfoldable pub receives : ℕ → Destination → Bool
receives now x = in_time x.paused_from now || at_most x.paused_until now

-- the WHERE on an address and the head of its queue
unfoldable pub head_ready : ℕ → List Delivery → Destination → Option Delivery → Bool
head_ready now rows x none = false
head_ready now rows x (some e) =
    is_pending e.status
    && (leb (due_at e) now
        && (relay_open rows e
            && ((is_active x.status || at_most x.recoverable_at now)
                && (is_confirmed x.confirmation_state
                    && (e.confirmation_generation == x.confirmation_generation
                        && (receives now x
                            && not (
                                exists (λ o. o.destination_id == x.id && is_in_flight o.status)
                                  rows)))))))

unfoldable pub is_ready : ℕ → List Delivery → Destination → Bool
is_ready now rows x = head_ready now rows x (oldest now x.id rows)

abbrev head_due : Option Delivery → ℕ
head_due none = 0
head_due (some e) = due_at e

-- The CTE `candidate_destination`. `locked` are the addresses that other transactions hold.
unfoldable pub candidate_destination :
    ℕ → (ℕ → Bool) → List Destination → List Delivery → Option Destination
candidate_destination now locked destinations rows = head? (
    where_rows (λ (x : Destination). not (locked x.id))
      (order_by
        (λ (x y : Destination).
          leb (head_due (oldest now x.id rows)) (head_due (oldest now y.id rows)))
        (where_rows (is_ready now rows) destinations)))

-- The LATERAL subquery `picked`: the first copy that no other transaction holds.
unfoldable pub picked : ℕ → (ℕ → Bool) → Destination → List Delivery → Option Delivery
picked now locked x rows = head? (
    where_rows (λ e. not (locked e.id))
      (order_by by_seq (where_rows (λ e. is_candidate now x.id e && relay_open rows e) rows)))

-- the WHERE of `claimed_event`
unfoldable pub may_claim : ℕ → List Delivery → Destination → Delivery → Bool
may_claim now rows x e =
    is_pending e.status
    && (leb e.next_attempt_at now
        && ((is_null e.not_before || at_most e.not_before now)
            && (e.confirmation_generation == x.confirmation_generation
                && (is_deliverable e.release_state
                    && (in_time e.deliver_by now && relay_open rows e)))))

unfoldable pub claim_row : Settings → ℕ → ℕ → Delivery → Delivery
claim_row cfg now token e = record e {
  status = Status.in_flight;
  attempts = e.attempts + 1;
  claim_token = some token;
  claimed_at = some now;
  lease_until = some (now + cfg.claim_lease_seconds);
  updated_at = now;
}

-- the CTE `recovered_destination`
unfoldable pub recover_row : Destination → Destination
recover_row x = record x {
  status = DestinationStatus.active;
  failure_count = 0;
  recoverable_at = none;
}

-- What the worker holds of a claimed copy.
pub record Claim : Type 0 where
  pub copy : Delivery
  pub destination_url : String
  pub recovered_destination : Bool
  pub corrects_event_id : Option ℕ

abbrev corrected : Option Event → Option ℕ
corrected none = none
corrected (some e) = e.corrects_event_id

-- What other transactions hold: the address rows and the copies that the claim passes over, the
-- copies that the cutoff sweep passes over, and the choice of `expire_due_deliveries`.
pub record Locks : Type 0 where
  pub destinations : ℕ → Bool
  pub copies : ℕ → Bool
  pub deliveries : ℕ → Bool
  pub by_body : ℕ → Bool

unfoldable pub claim_copy :
    Settings → ℕ → ℕ → Destination → Option Delivery → Db → Option Claim × Db
claim_copy cfg now token x none db = (none, db)
claim_copy cfg now token x (some e) db =
    let recovers = not (is_active x.status) && at_most x.recoverable_at now in
    if may_claim now db.deliveries x e
    then (
      some (record {
        copy = claim_row cfg now token e;
        destination_url = x.url;
        recovered_destination = recovers;
        corrects_event_id = corrected (first (λ (v : Event). v.id == e.event_id) db.events);
      }),
      record db {
        deliveries = update (λ d. d.id == e.id) (claim_row cfg now token) db.deliveries;
        destinations =
            update (λ (y : Destination). y.id == x.id && recovers) recover_row db.destinations;
      },
    )
    else (none, db)

-- CLAIM_SQL, once the address is found
unfoldable pub claim_at : Settings → ℕ → ℕ → Locks → Option Destination → Db → Option Claim × Db
claim_at cfg now token locks none db = (none, db)
claim_at cfg now token locks (some x) db =
    claim_copy cfg now token x (picked now locks.copies x db.deliveries) db

unfoldable pub run_claim : Settings → ℕ → ℕ → Locks → Db → Option Claim × Db
run_claim cfg now token locks db =
    claim_at cfg now token locks
      (candidate_destination now locks.destinations db.destinations db.deliveries) db

-- the statements before the claim
unfoldable pub clear_queue : ℕ → Locks → List Destination → List Delivery → List Delivery
clear_queue now locks destinations rows =
    let reaped = update (lease_over now) (reap_row now) rows in
    let (ids, expired) = expire_due_deliveries now 500 locks.deliveries locks.by_body reaped in
    let closed = (cascade_all now ids expired).1 in
    let stale = stale_rows destinations closed in
    let moved = update (superseded_by_move destinations stale) (supersede_row now) closed in
    (cascade_all now
      (map (λ (d : Delivery). d.id)
        (where_rows
          (λ (d : Delivery). superseded_by_move destinations stale d && is_some d.relay_chain_id)
          closed))
      moved).1

unfoldable pub claim_next_event : Settings → ℕ → ℕ → Locks → Db → Option Claim × Db
claim_next_event cfg now token locks db =
    run_claim cfg now token locks
      (record db { deliveries = clear_queue now locks db.destinations db.deliveries })
