-- ===== src/Deadlines.antt =====
-- env/app/deadlines.py: the latest time at which a copy may be handed over.
pub mod Laws
use ccj.Prelude.{
  ℕ, ◌+◌, ◌≡◌, Bool, true, false, Option, none, some, List, [], ◌∷◌, ◌&&◌, ◌||◌, not, map, is_some,
  is_null, before, holds, coalesce, leb, ltb, ◌==◌, if◌then◌else◌,
}
use ccj.Models.{
  Delivery, Phase, Status, ReleaseState, VoidReason, is_pending, is_in_flight, is_body, is_preview,
  is_open,
}
use ccj.Models.Tables.{Db, Event}
use ccj.Sql.{update, count_where, first, exists, where_rows, order_by, limit_rows}
use ccj.Relay.Gate.{relay_open}

-- the WHERE of `delivery_update`
unfoldable pub takes_deadline : ℕ → Delivery → Bool
takes_deadline event_id d =
    d.event_id == event_id
    && ((is_pending d.status || is_in_flight d.status) && is_null d.delivered_at)

unfoldable pub set_deadline : ℕ → Option ℕ → Delivery → Delivery
set_deadline now deliver_by d = record d { deliver_by = deliver_by; updated_at = now }

-- The three counts of `update_event_deadline`: all rows, for real, shadow.
pub record DeadlineCounts : Type 0 where
  pub updated_count : ℕ
  pub real_count : ℕ
  pub shadow_count : ℕ

-- With no such event, `event_lock` is empty and nothing is written.
unfoldable pub update_event_deadline : ℕ → ℕ → Option ℕ → Db → DeadlineCounts × Db
update_event_deadline now event_id deliver_by db =
    if exists (λ e. e.id == event_id) db.events
    then (
      record {
        updated_count = count_where (takes_deadline event_id) db.deliveries;
        real_count =
            count_where (λ d. takes_deadline event_id d && not d.observe_only) db.deliveries;
        shadow_count = count_where (λ d. takes_deadline event_id d && d.observe_only) db.deliveries;
      },
      record db {
        deliveries = update (takes_deadline event_id) (set_deadline now deliver_by) db.deliveries;
        events =
            update (λ e. e.id == event_id) (λ (e : Event). record e { deliver_by = deliver_by })
              db.events;
      },
    )
    else (record { updated_count = 0; real_count = 0; shadow_count = 0 }, db)

-- phase = 'body' AND release_state IN ('held', 'released')
abbrev pub gate_closes : Delivery → Bool
gate_closes d = is_body d.phase && is_open d.release_state

-- the SET of `expired`, and of `expire_in_flight_delivery`
unfoldable pub expire_row : ℕ → Delivery → Delivery
expire_row now d =
    let closes = gate_closes d in
    record d {
      status = Status.deadline_expired;
      deliver_by_expired_at = some (coalesce d.deliver_by_expired_at now);
      release_state = if closes then some ReleaseState.deadline_expired else d.release_state;
      voided_at = if closes then some now else d.voided_at;
      void_reason = if closes then some VoidReason.deliver_by_expired else d.void_reason;
      claim_token = none;
      claimed_at = none;
      lease_until = none;
      next_attempt_at = now;
      updated_at = now;
    }

-- the SET of `bodies`: the body of a preview that missed the cutoff
unfoldable pub expire_body : ℕ → Delivery → Delivery
expire_body now body = record body {
  status = Status.deadline_expired;
  release_state = some ReleaseState.deadline_expired;
  voided_at = some now;
  void_reason = some VoidReason.preview_deadline_expired;
  claim_token = none;
  claimed_at = none;
  lease_until = none;
  next_attempt_at = now;
  updated_at = now;
}

-- a pending body that is still held or released: the WHERE of each statement that closes one
abbrev pub is_open_body : Delivery → Bool
is_open_body body = is_pending body.status && is_open body.release_state

-- the WHERE of `due`
unfoldable pub is_due : ℕ → List Delivery → Delivery → Bool
is_due now rows d = is_pending d.status && (before d.deliver_by now && relay_open rows d)

-- deliver_by, then id, of two rows whose deliver_by is not NULL
abbrev earlier : Delivery → Delivery → Bool
earlier d e =
    let t = coalesce d.deliver_by 0 in
    let u = coalesce e.deliver_by 0 in ltb t u || (t == u && leb d.id e.id)

-- The CTE `due`. `locked` are the rows that other transactions hold: SKIP LOCKED passes over them,
-- and they do not count for the LIMIT.
unfoldable pub due_rows : ℕ → ℕ → (ℕ → Bool) → List Delivery → List Delivery
due_rows now limit locked rows =
    limit_rows limit
      (where_rows (λ d. not (locked d.id)) (order_by earlier (where_rows (is_due now rows) rows)))

-- The row is due itself: `id` is the primary key.
unfoldable pub expires : ℕ → List Delivery → List Delivery → Delivery → Bool
expires now rows due d = is_due now rows d && exists (λ e. e.id == d.id) due

-- the join of `bodies` with the previews that expired
unfoldable pub follows_preview : List Delivery → Delivery → Bool
follows_preview due body =
    is_open_body body && exists (λ p. is_preview p.phase && holds p.body_delivery_id body.id) due

-- Both parts of the statement see the rows as they were. A row that both write, a body that is due
-- itself, is written by one of them, and the database does not say by which: `by_body` chooses.
unfoldable pub taken_by_body : (ℕ → Bool) → ℕ → List Delivery → List Delivery → Delivery → Bool
taken_by_body by_body now rows due d =
    follows_preview due d && (not (expires now rows due d) || by_body d.id)

-- The result is the ids of the relay rows among those that `expired` wrote.
unfoldable pub expire_due_deliveries :
    ℕ → ℕ → (ℕ → Bool) → (ℕ → Bool) → List Delivery → List ℕ × List Delivery
expire_due_deliveries now limit locked by_body rows =
    let due = due_rows now limit locked rows in
    let expired =
      λ (d : Delivery). expires now rows due d && not (taken_by_body by_body now rows due d) in
    (
      map (λ (d : Delivery). d.id) (where_rows (λ d. expired d && is_some d.relay_chain_id) rows),
      update (taken_by_body by_body now rows due) (expire_body now)
          (update expired (expire_row now) rows),
    )

-- deliver_by <= COALESCE(finished_at, now())
abbrev pub missed : Option ℕ → ℕ → Bool
missed none t = false
missed (some c) t = leb c t

unfoldable pub misses_cutoff : ℕ → ℕ → Option ℕ → Delivery → Bool
misses_cutoff now delivery_id finished_at d =
    d.id == delivery_id && (is_in_flight d.status && missed d.deliver_by (coalesce finished_at now))

-- the body of a preview that expired in flight
unfoldable pub close_body_of : ℕ → Phase → Option ℕ → List Delivery → List Delivery
close_body_of now Phase.preview (some body_id) rows =
    update (λ d. d.id == body_id && is_open_body d) (expire_body now) rows
close_body_of now _ _ rows = rows

unfoldable pub expire_found :
    ℕ → ℕ → Option ℕ → Option Delivery → List Delivery → Bool × List Delivery
expire_found now delivery_id finished_at none rows = (false, rows)
expire_found now delivery_id finished_at (some d) rows = (
  true,
  close_body_of now d.phase d.body_delivery_id
      (update (misses_cutoff now delivery_id finished_at) (expire_row now) rows),
)

unfoldable pub expire_in_flight_delivery : ℕ → ℕ → Option ℕ → List Delivery → Bool × List Delivery
expire_in_flight_delivery now delivery_id finished_at rows =
    expire_found now delivery_id finished_at
      (first (misses_cutoff now delivery_id finished_at) rows) rows
