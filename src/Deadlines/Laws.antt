-- ===== src/Deadlines/Laws.antt =====
-- The cutoff: what each statement of env/app/deadlines.py does to a row.
use ccj.Prelude.{
  ℕ, ◌≡◌, Bool, true, Option, none, some, List, arith, ◌==◌, ◌&&◌, ◌||◌, not, Bool-cases, inl, inr,
}
use ccj.Models.{Delivery, Phase, is_pending, is_in_flight}
use ccj.Models.Tables.{Db}
use ccj.Models.Checks.{checks}
use ccj.Models.Progress.{Step, Step-refl, Step-trans}
use ccj.Sql.{update, exists, first}
use ccj.Sql.Evolve.{Evolves, Evolves-update, Evolves-refl, Evolves-trans}
use ccj.Deadlines.{
  takes_deadline, set_deadline, update_event_deadline, expire_row, expire_body, is_open_body,
  is_due, due_rows, expires, follows_preview, taken_by_body, expire_due_deliveries, misses_cutoff,
  close_body_of, expire_found, expire_in_flight_delivery,
}

set_deadline-Step :
    (now i : ℕ) (t : Option ℕ) (d : Delivery)
    → takes_deadline i d ≡ true
    → Step d (set_deadline now t d)
unfolding takes_deadline set_deadline checks
set_deadline-Step now i t d e s = ground arith

expire_row-Step :
    (now : ℕ) (d : Delivery)
    → (is_pending d.status || is_in_flight d.status) ≡ true
    → Step d (expire_row now d)
unfolding expire_row checks
expire_row-Step now d e s = ground arith

pub expire_body-Step : (now : ℕ) (d : Delivery) → is_open_body d ≡ true → Step d (expire_body now d)
unfolding expire_body checks
expire_body-Step now d e s = ground arith

pub update_event_deadline-Evolves :
    (now i : ℕ) (t : Option ℕ) (db : Db)
    → Evolves Step db.deliveries (update_event_deadline now i t db).1.deliveries
unfolding update_event_deadline
update_event_deadline-Evolves now i t db = elim (Bool-cases (exists (λ e. e.id == i) db.events)) [
  | inl e ↦ rw e (
      Evolves-update Step (takes_deadline i) (set_deadline now t) db.deliveries Step-refl
        (set_deadline-Step now i t))
  | inr e ↦ rw e (Evolves-refl Step db.deliveries Step-refl)
]

module _ (now : ℕ) (by_body : ℕ → Bool) (rows due : List Delivery) where
  expired_pending :
      (d : Delivery)
      → (expires now rows due d && not (taken_by_body by_body now rows due d)) ≡ true
      → (is_pending d.status || is_in_flight d.status) ≡ true
  unfolding expires is_due
  expired_pending d e = ground arith

  taken_open : (d : Delivery) → taken_by_body by_body now rows due d ≡ true → is_open_body d ≡ true
  unfolding taken_by_body follows_preview
  taken_open d e = ground arith

pub expire_due_deliveries-Evolves :
    (now limit : ℕ) (locked by_body : ℕ → Bool) (rows : List Delivery)
    → Evolves Step rows (expire_due_deliveries now limit locked by_body rows).1
unfolding expire_due_deliveries
expire_due_deliveries-Evolves now limit locked by_body rows =
    let due = due_rows now limit locked rows in
    let expired =
      λ (d : Delivery). expires now rows due d && not (taken_by_body by_body now rows due d) in
    Evolves-trans Step rows (update expired (expire_row now) rows) _ Step-trans
      (Evolves-update Step expired (expire_row now) rows Step-refl
        (λ d e. expire_row-Step now d (expired_pending now by_body rows due d e)))
      (Evolves-update Step (taken_by_body by_body now rows due) (expire_body now)
        (update expired (expire_row now) rows) Step-refl
        (λ d e. expire_body-Step now d (taken_open now by_body rows due d e)))

close_body_of-Evolves :
    (now : ℕ) (p : Phase) (b : Option ℕ) (rows : List Delivery)
    → Evolves Step rows (close_body_of now p b rows)
unfolding close_body_of
close_body_of-Evolves now Phase.preview (some b) rows =
    Evolves-update Step (λ d. d.id == b && is_open_body d) (expire_body now) rows Step-refl
      (λ d e. expire_body-Step now d (ground arith))
close_body_of-Evolves now Phase.preview none rows = Evolves-refl Step rows Step-refl
close_body_of-Evolves now Phase.body none rows = Evolves-refl Step rows Step-refl
close_body_of-Evolves now Phase.body (some b) rows = Evolves-refl Step rows Step-refl

misses_in_flight :
    (now i : ℕ) (t : Option ℕ) (d : Delivery)
    → misses_cutoff now i t d ≡ true
    → (is_pending d.status || is_in_flight d.status) ≡ true
unfolding misses_cutoff
misses_in_flight now i t d e = ground arith

expire_found-Evolves :
    (now i : ℕ) (t : Option ℕ) (o : Option Delivery) (rows : List Delivery)
    → Evolves Step rows (expire_found now i t o rows).1
unfolding expire_found
expire_found-Evolves now i t none rows = Evolves-refl Step rows Step-refl
expire_found-Evolves now i t (some d) rows =
    Evolves-trans Step rows (update (misses_cutoff now i t) (expire_row now) rows) _ Step-trans
      (Evolves-update Step (misses_cutoff now i t) (expire_row now) rows Step-refl
        (λ d e. expire_row-Step now d (misses_in_flight now i t d e)))
      (close_body_of-Evolves now d.phase d.body_delivery_id _)

pub expire_in_flight_delivery-Evolves :
    (now i : ℕ) (t : Option ℕ) (rows : List Delivery)
    → Evolves Step rows (expire_in_flight_delivery now i t rows).1
unfolding expire_in_flight_delivery
expire_in_flight_delivery-Evolves now i t rows =
    expire_found-Evolves now i t (first (misses_cutoff now i t) rows) rows
