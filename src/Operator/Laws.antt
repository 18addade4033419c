-- ===== src/Operator/Laws.antt =====
-- The calls of an operator keep the table sound.
use ccj.Prelude.{
  ℕ, ◌≡◌, true, Option, none, some, List, arith, is_some, ◌||◌, ◌&&◌, not, ◌==◌, Bool-cases, inl,
  inr,
}
use ccj.Models.{Delivery, is_pending, is_dead_lettered}
use ccj.Models.Tables.{Db, Destination, Event}
use ccj.Models.Checks.{checks}
use ccj.Models.Progress.{Step, Step-refl}
use ccj.Sql.{exists, first}
use ccj.Sql.Evolve.{Evolves, Evolves-refl, Evolves-update}
use ccj.Worker.Claim.{is_active}
use ccj.Operator.{
  Reply, queued_of, cancel_row, cancel_found, cancel_event, reschedule_row, reschedule_found,
  reschedule_event, requeueable, requeue_row, requeue_delivery, revive_row, revive_found,
  revive_dead_letter, wake_row, recover_found, recover_destination, event_has_irreversible_delivery,
  is_at_home,
}

-- the database after the call
abbrev pub replied_db : Db → Reply → Db
replied_db db (Reply.done db') = db'
replied_db db _ = db

-- the rows go on
abbrev Goes : Db → Reply → Type 0
Goes db r = Evolves Step db.deliveries (replied_db db r).deliveries

cancel-Step : (now i : ℕ) (d : Delivery) → queued_of i d ≡ true → Step d (cancel_row now d)
unfolding queued_of cancel_row checks
cancel-Step now i d e s = ground arith

reschedule-Step : (now i : ℕ) (t : Option ℕ) (d : Delivery) → Step d (reschedule_row now t d)
unfolding reschedule_row checks
reschedule-Step now i t d s = ground arith

pub requeue-Step :
    (now : ℕ) (xs : List Destination) (d : Delivery)
    → requeueable xs d ≡ true
    → Step d (requeue_row now d)
unfolding requeueable requeue_row checks
requeue-Step now xs d e s = ground arith

revive-Step :
    (now : ℕ) (d : Delivery) → is_dead_lettered d.status ≡ true → Step d (revive_row now d)
unfolding revive_row checks
revive-Step now d e s = ground arith

wake-Step : (now : ℕ) (d : Delivery) → Step d (wake_row now d)
unfolding wake_row checks
wake-Step now d s = ground arith

pub stays : (db : Db) → Evolves Step db.deliveries db.deliveries
stays db = Evolves-refl Step db.deliveries Step-refl

cancelled-Goes : (now i : ℕ) (o : Option Event) (db : Db) → Goes db (cancel_found now i o db)
unfolding cancel_found
cancelled-Goes now i none db = stays db
cancelled-Goes now i (some e) db = elim (Bool-cases (is_some e.cancelled_at)) [
  | inl t ↦ rw t (stays db)
  | inr f ↦ rw f (elim (Bool-cases (event_has_irreversible_delivery i db.deliveries)) [
    | inl t ↦ rw t (stays db)
    | inr g ↦ rw g (
        Evolves-update Step (queued_of i) (cancel_row now) db.deliveries Step-refl
          (cancel-Step now i))
  ])
]

pub cancel_event-Evolves :
    (now i : ℕ) (db : Db)
    → Evolves Step db.deliveries (replied_db db (cancel_event now i db)).deliveries
unfolding cancel_event
cancel_event-Evolves now i db = cancelled-Goes now i (first (λ (e : Event). e.id == i) db.events) db

rescheduled-Goes :
    (now i : ℕ) (t : Option ℕ) (o : Option Event) (db : Db)
    → Goes db (reschedule_found now i t o db)
unfolding reschedule_found
rescheduled-Goes now i t none db = stays db
rescheduled-Goes now i t (some e) db =
    elim (Bool-cases (is_some e.cancelled_at || event_has_irreversible_delivery i db.deliveries)) [
      | inl b ↦ rw b (stays db)
      | inr b ↦ rw b (
          Evolves-update Step (queued_of i) (reschedule_row now t) db.deliveries Step-refl
            (λ d e. reschedule-Step now i t d))
    ]

pub reschedule_event-Evolves :
    (now i : ℕ) (t : Option ℕ) (db : Db)
    → Evolves Step db.deliveries (replied_db db (reschedule_event now i t db)).deliveries
unfolding reschedule_event
reschedule_event-Evolves now i t db =
    rescheduled-Goes now i t (first (λ (e : Event). e.id == i) db.events) db

pub requeue_delivery-Evolves :
    (now i : ℕ) (db : Db)
    → Evolves Step db.deliveries (replied_db db (requeue_delivery now i db)).deliveries
unfolding requeue_delivery
requeue_delivery-Evolves now i db =
    let chosen = λ (d : Delivery). d.id == i && requeueable db.destinations d in
    elim (Bool-cases (exists chosen db.deliveries)) [
      | inl t ↦ rw t (
          Evolves-update Step chosen (requeue_row now) db.deliveries Step-refl
            (λ d e. requeue-Step now db.destinations d (ground arith)))
      | inr f ↦ rw f (elim (Bool-cases (exists (λ (d : Delivery). d.id == i) db.deliveries)) [
        | inl t ↦ rw t (stays db)
        | inr g ↦ rw g (stays db)
      ])
    ]

revived-Goes : (now : ℕ) (o : Option Delivery) (db : Db) → Goes db (revive_found now o db)
unfolding revive_found
revived-Goes now none db = stays db
revived-Goes now (some d) db =
    elim (Bool-cases (not (is_dead_lettered d.status) || not (is_at_home db.destinations d))) [
      | inl t ↦ rw t (stays db)
      | inr f ↦ rw f (
          Evolves-update Step (λ x. x.id == d.id && is_dead_lettered x.status) (revive_row now)
            db.deliveries Step-refl (λ x e. revive-Step now x (ground arith)))
    ]

pub revive_dead_letter-Evolves :
    (now i : ℕ) (db : Db)
    → Evolves Step db.deliveries (replied_db db (revive_dead_letter now i db)).deliveries
unfolding revive_dead_letter
revive_dead_letter-Evolves now i db =
    revived-Goes now (first (λ (d : Delivery). d.id == i) db.deliveries) db

recovered-Goes : (now : ℕ) (o : Option Destination) (db : Db) → Goes db (recover_found now o db)
unfolding recover_found
recovered-Goes now none db = stays db
recovered-Goes now (some x) db = elim (Bool-cases (is_active x.status)) [
  | inl t ↦ rw t (stays db)
  | inr f ↦ rw f (
      Evolves-update Step (λ d. d.destination_id == x.id && is_pending d.status) (wake_row now)
        db.deliveries Step-refl (λ d e. wake-Step now d))
]

pub recover_destination-Evolves :
    (now i : ℕ) (db : Db)
    → Evolves Step db.deliveries (replied_db db (recover_destination now i db)).deliveries
unfolding recover_destination
recover_destination-Evolves now i db =
    recovered-Goes now (first (λ (x : Destination). x.id == i) db.destinations) db
