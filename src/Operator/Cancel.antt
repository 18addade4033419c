-- ===== src/Operator/Cancel.antt =====
-- What a cancel (`cancel_event` of env/app/main.py) leaves of an event.
use ccj.Prelude.{
  ℕ, ◌≡◌, ap, subst, false, Option, none, some, List, [], ◌∷◌, arith, is_some, ◌&&◌, ◌==◌,
  if◌then◌else◌, Bool-cases, inl, inr,
}
use ccj.Models.{Delivery, Status}
use ccj.Models.Tables.{Db, Event}
use ccj.Sql.{update, exists, first}
use ccj.Sql.Evolve.{All}
use ccj.Operator.Laws.{replied_db}
use ccj.Operator.{
  Reply, is_irreversible, event_has_irreversible_delivery, queued_of, cancel_row, cancel_found,
  cancel_event,
}

-- a row of the event is cancelled
abbrev pub IsCancelled : ℕ → Delivery → Type 0
IsCancelled i d = d.event_id ≡ i → d.status ≡ Status.cancelled

open_row :
    (i now : ℕ) (d : Delivery)
    → (d.event_id == i && is_irreversible d.status) ≡ false
    → IsCancelled i (if queued_of i d then cancel_row now d else d)
unfolding is_irreversible queued_of cancel_row
open_row i now d h e = ground arith

open_rows :
    (i now : ℕ) (rows : List Delivery)
    → exists (λ (d : Delivery). d.event_id == i && is_irreversible d.status) rows ≡ false
    → All (IsCancelled i) (update (queued_of i) (cancel_row now) rows)
unfolding exists update
open_rows i now [] h = tt
open_rows i now (d ∷ ds) h = (open_row i now d (ground arith), open_rows i now ds (ground arith))

found_cancels :
    (now i : ℕ) (o : Option Event) (db db' : Db)
    → cancel_found now i o db ≡ Reply.done db'
    → All (IsCancelled i) db'.deliveries
unfolding cancel_found event_has_irreversible_delivery
found_cancels now i none db db' h = absurd (cc)
found_cancels now i (some e) db db' h = elim (Bool-cases (is_some e.cancelled_at)) [
  | inl t ↦ absurd (cc (rw t at h))
  | inr f ↦
      elim (Bool-cases
        (exists (λ (d : Delivery). d.event_id == i && is_irreversible d.status) db.deliveries)) [
          | inl t ↦ absurd (cc (rw (f, t) at h))
          | inr g ↦
              subst (All (IsCancelled i)) (ap (λ r. (replied_db db r).deliveries) (rw (f, g) at h))
                (open_rows i now db.deliveries g)
        ]
]

-- After a cancel that goes through, every copy of the event is cancelled.
pub cancel_event-IsCancelled :
    (now i : ℕ) (db db' : Db)
    → cancel_event now i db ≡ Reply.done db'
    → All (IsCancelled i) db'.deliveries
unfolding cancel_event
cancel_event-IsCancelled now i db db' h =
    found_cancels now i (first (λ (e : Event). e.id == i) db.events) db db' h
