-- ===== src/Release/Gate.antt =====
-- The sends of a preview, and the statements that close held bodies (env/app/release.py).
pub mod Laws
use ccj.Prelude.{
  ℕ, ◌+◌, ◌≡◌, Bool, true, false, Option, none, some, List, [], ◌∷◌, ◌&&◌, ◌||◌, not, map, is_some,
  is_null, before, holds, coalesce, leb, ltb, ◌==◌, if◌then◌else◌,
}
use mathlib.Core.Option
use ccj.Models.{
  Delivery, Phase, Status, ReleaseState, VoidReason, is_pending, is_in_flight, is_body, is_open,
  is_held,
}
use ccj.Models.Tables.{Db, Destination}
use ccj.Sql.{update, count_where, first, exists, where_rows, order_by, limit_rows}
use ccj.Deadlines.{misses_cutoff, expire_body, is_open_body}

-- the first UPDATE of `mark_preview_delivered`
unfoldable pub expire_preview : ℕ → Delivery → Delivery
expire_preview now d = record d {
  status = Status.deadline_expired;
  deliver_by_expired_at = some (coalesce d.deliver_by_expired_at now);
  claim_token = none;
  claimed_at = none;
  lease_until = none;
  next_attempt_at = now;
  updated_at = now;
}

-- deliver_by IS NULL OR deliver_by > COALESCE(finished_at, now())
abbrev pub in_time : Option ℕ → ℕ → Bool
in_time none t = true
in_time (some c) t = ltb t c

-- the WHERE of the second UPDATE
unfoldable pub arrives : ℕ → ℕ → Option ℕ → Delivery → Bool
arrives now delivery_id finished_at d =
    d.id == delivery_id
    && (is_in_flight d.status && in_time d.deliver_by (coalesce finished_at now))

unfoldable pub deliver_preview : ℕ → Delivery → Delivery
deliver_preview now d = record d {
  status = Status.delivered;
  claim_token = none;
  claimed_at = none;
  lease_until = none;
  last_error = none;
  updated_at = now;
  delivered_at = some now;
  consecutive_failures = 0;
}

-- the WHERE of the UPDATE that opens the window
unfoldable pub waits_for_nod : Option ℕ → Delivery → Bool
waits_for_nod body_id d =
    holds body_id d.id && (is_body d.phase && (is_pending d.status && is_held d.release_state))

-- now() + consent_timeout_seconds * INTERVAL '1 second', NULL without a timeout
unfoldable pub open_window : ℕ → Delivery → Delivery
open_window now d = record d {
  consent_deadline = Option.map (λ t. now + t) d.consent_timeout_seconds;
  updated_at = now;
}

abbrev pub body_of : Option Delivery → Option ℕ
body_of none = none
body_of (some d) = d.body_delivery_id

abbrev destination_of : Option Delivery → Option ℕ
destination_of none = none
destination_of (some d) = some d.destination_id

-- the body of a preview that completed after the cutoff
unfoldable pub close_late_body : ℕ → Option ℕ → List Delivery → List Delivery
close_late_body now body_id rows =
    update (λ d. holds body_id d.id && is_open_body d) (expire_body now) rows

unfoldable pub reset_failures : Option ℕ → List Destination → List Destination
reset_failures i rows =
    update (λ (x : Destination). holds i x.id) (λ (x : Destination). record x { failure_count = 0 })
      rows

-- The window is opened on the body that the preview points at, and the address's tally is reset.
unfoldable pub preview_arrived : ℕ → ℕ → Option ℕ → Db → Bool × Db
preview_arrived now delivery_id finished_at db =
    let rows = update (arrives now delivery_id finished_at) (deliver_preview now) db.deliveries in
    let preview = first (λ (d : Delivery). d.id == delivery_id) rows in
    if exists (arrives now delivery_id finished_at) db.deliveries
    then (
      true,
      record db {
        deliveries = update (waits_for_nod (body_of preview)) (open_window now) rows;
        destinations = reset_failures (destination_of preview) db.destinations;
      },
    )
    else (false, db)

unfoldable pub mark_found : ℕ → ℕ → Option ℕ → Option Delivery → Db → Bool × Db
mark_found now delivery_id finished_at (some expired) db = (
  false,
  record db {
    deliveries =
        close_late_body now expired.body_delivery_id
          (update (misses_cutoff now delivery_id finished_at) (expire_preview now) db.deliveries);
  },
)
mark_found now delivery_id finished_at none db = preview_arrived now delivery_id finished_at db

unfoldable pub mark_preview_delivered : ℕ → ℕ → Option ℕ → Db → Bool × Db
mark_preview_delivered now delivery_id finished_at db =
    mark_found now delivery_id finished_at
      (first (misses_cutoff now delivery_id finished_at) db.deliveries) db

-- the SET of `_void_held_bodies`
unfoldable pub void_held : ℕ → VoidReason → Delivery → Delivery
void_held now reason d = record d {
  release_state = some ReleaseState.release_voided;
  status = Status.release_voided;
  void_reason = some reason;
  voided_at = some now;
  claim_token = none;
  claimed_at = none;
  lease_until = none;
  updated_at = now;
}

unfoldable pub void_held_bodies : ℕ → (Delivery → Bool) → VoidReason → List Delivery → List Delivery
void_held_bodies now where_sql reason rows =
    update (λ d. is_pending d.status && (is_held d.release_state && where_sql d))
      (void_held now reason) rows

unfoldable pub void_body_after_preview_failure : ℕ → ℕ → VoidReason → List Delivery → List Delivery
void_body_after_preview_failure now preview_id reason rows =
    void_held_bodies now (λ d. is_body d.phase && holds d.preview_delivery_id preview_id) reason
      rows

abbrev pub generation_of : Option Destination → Option ℕ
generation_of none = none
generation_of (some x) = some x.confirmation_generation

-- confirmation_generation < (the generation of the address), NULL if there is none
abbrev pub older_than : Option ℕ → Delivery → Bool
older_than none d = false
older_than (some g) d = ltb d.confirmation_generation g

unfoldable pub relocate_held_bodies : ℕ → ℕ → Db → List Delivery
relocate_held_bodies now destination_id db =
    let generation =
      generation_of (first (λ (x : Destination). x.id == destination_id) db.destinations) in
    void_held_bodies now
      (λ d. is_body d.phase && (d.destination_id == destination_id && older_than generation d))
      VoidReason.preview_superseded db.deliveries

-- the WHERE of `due` in `sweep_expired_gates`
unfoldable pub nod_overdue : ℕ → Delivery → Bool
nod_overdue now d =
    is_body d.phase
    && (is_pending d.status && (is_held d.release_state && before d.consent_deadline now))

-- release_state = 'release_expired', the SET of the sweep and of a late answer
unfoldable pub expire_gate : ℕ → Delivery → Delivery
expire_gate now d = record d {
  release_state = some ReleaseState.release_expired;
  status = Status.release_expired;
  voided_at = some now;
  updated_at = now;
}

-- The rows that the sweep takes: see `due_rows` of Deadlines for `locked`.
unfoldable pub due_gates : ℕ → ℕ → (ℕ → Bool) → List Delivery → List Delivery
due_gates now limit locked rows = limit_rows limit (
    where_rows (λ d. not (locked d.id))
      (order_by (λ d e. ltb (coalesce d.consent_deadline 0) (coalesce e.consent_deadline 0))
        (where_rows (nod_overdue now) rows)))

-- The row is overdue itself: `id` is the primary key.
unfoldable pub swept : ℕ → List Delivery → Delivery → Bool
swept now due d = nod_overdue now d && exists (λ e. e.id == d.id) due

unfoldable pub sweep_expired_gates : ℕ → ℕ → (ℕ → Bool) → List Delivery → ℕ × List Delivery
sweep_expired_gates now limit locked rows =
    let due = due_gates now limit locked rows in
    (count_where (swept now due) rows, update (swept now due) (expire_gate now) rows)
