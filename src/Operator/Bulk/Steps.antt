-- ===== src/Operator/Bulk/Steps.antt =====
-- The requeues of an event or an address, and the pause of an address, keep the table sound.
use ccj.Prelude.{
  ℕ, ◌≡◌, refl, Option, none, some, arith, ◌&&◌, ◌||◌, is_some, ◌==◌, Bool-cases, inl, inr,
}
use ccj.Models.Tables.{Db, Destination, Event}
use ccj.Models.Progress.{Step, Step-refl}
use ccj.Sql.{exists, first}
use ccj.Sql.Evolve.{Evolves, Evolves-update}
use ccj.Worker.Claim.{at_most}
use ccj.Operator.{requeueable, requeue_row}
use ccj.Operator.Laws.{replied_db, requeue-Step, stays}
use ccj.Operator.Bulk.{
  quorum_reached, event_requeueable, requeue_found, requeue_event_unreconciled,
  requeue_unreconciled,
}
use ccj.Operator.Pause.{
  Paused, DestinationPauseIn, flat, pause_found, pause_destination, resume_found,
  resume_destination,
}

requeued-Goes :
    (now : ℕ) (o : Option Event) (db : Db)
    → Evolves Step db.deliveries (replied_db db (requeue_found now o db)).deliveries
unfolding requeue_found event_requeueable
requeued-Goes now none db = stays db
requeued-Goes now (some e) db = elim (Bool-cases (quorum_reached e db.deliveries)) [
  | inl t ↦ rw t (stays db)
  | inr f ↦ rw f (
      Evolves-update Step (event_requeueable db.destinations e.id) (requeue_row now) db.deliveries
        Step-refl (λ d q. requeue-Step now db.destinations d (ground arith)))
]

pub requeue_event_unreconciled-Evolves :
    (now i : ℕ) (db : Db)
    → Evolves Step db.deliveries (replied_db db (requeue_event_unreconciled now i db)).deliveries
unfolding requeue_event_unreconciled
requeue_event_unreconciled-Evolves now i db =
    requeued-Goes now (first (λ (e : Event). e.id == i) db.events) db

pub requeue_unreconciled-Evolves :
    (now i : ℕ) (db : Db)
    → Evolves Step db.deliveries (replied_db db (requeue_unreconciled now i db)).deliveries
unfolding requeue_unreconciled
requeue_unreconciled-Evolves now i db =
    elim (Bool-cases (exists (λ (x : Destination). x.id == i) db.destinations)) [
      | inl t ↦ rw t (
          Evolves-update Step (λ d. d.destination_id == i && requeueable db.destinations d)
            (requeue_row now) db.deliveries Step-refl
            (λ d q. requeue-Step now db.destinations d (ground arith)))
      | inr f ↦ rw f (stays db)
    ]

-- the database after the call
abbrev pub paused_db : Db → Paused → Db
paused_db db (Paused.done db') = db'
paused_db db _ = db

pause_found_rows :
    (now from : ℕ) (until : Option ℕ) (o : Option Destination) (db : Db)
    → (paused_db db (pause_found now from until o db)).deliveries ≡ db.deliveries
unfolding pause_found
pause_found_rows now from until none db = refl
pause_found_rows now from until (some x) db =
    elim (Bool-cases (at_most until from || at_most until now)) [
      | inl t ↦ rw t refl
      | inr f ↦ rw f refl
    ]

pause_rows :
    (now i : ℕ) (w : DestinationPauseIn) (db : Db)
    → (paused_db db (pause_destination now i w db)).deliveries ≡ db.deliveries
unfolding pause_destination
pause_rows now i w db = elim (Bool-cases (is_some w.paused_from || is_some w.paused_until)) [
  | inl t ↦ rw t (pause_found_rows now _ (flat w.paused_until) _ db)
  | inr f ↦ rw f refl
]

resume_found_rows :
    (o : Option Destination) (db : Db)
    → (replied_db db (resume_found o db)).deliveries ≡ db.deliveries
unfolding resume_found
resume_found_rows none db = refl
resume_found_rows (some x) db = elim (Bool-cases (is_some x.paused_from)) [
  | inl t ↦ rw t refl
  | inr f ↦ rw f refl
]

pub pause_destination-Evolves :
    (now i : ℕ) (w : DestinationPauseIn) (db : Db)
    → Evolves Step db.deliveries (paused_db db (pause_destination now i w db)).deliveries
pause_destination-Evolves now i w db = rw (pause_rows now i w db) (stays db)

pub resume_destination-Evolves :
    (i : ℕ) (db : Db)
    → Evolves Step db.deliveries (replied_db db (resume_destination i db)).deliveries
unfolding resume_destination
resume_destination-Evolves i db =
    rw (resume_found_rows (first (λ (x : Destination). x.id == i) db.destinations) db) (stays db)
