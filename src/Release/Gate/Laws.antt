-- ===== src/Release/Gate/Laws.antt =====
-- The statements of the gate, row by row.
use ccj.Prelude.{
  ℕ, ◌≡◌, Bool, true, Option, none, some, List, arith, ◌==◌, ◌&&◌, Bool-cases, inl, inr, holds,
}
use ccj.Models.{Delivery, VoidReason, is_pending, is_held, is_preview}
use ccj.Models.Tables.{Db}
use ccj.Models.Checks.{checks}
use ccj.Models.Progress.{Step, Step-refl, Step-trans}
use ccj.Sql.{update, exists, first}
use ccj.Sql.Evolve.{
  All, Evolves, Evolves-update, Evolves-update_within, Evolves-refl, Evolves-trans,
}
use ccj.Deadlines.{misses_cutoff, is_open_body, expire_body}
use ccj.Deadlines.Laws.{expire_body-Step}
use ccj.Release.Gate.{
  expire_preview, arrives, deliver_preview, waits_for_nod, open_window, body_of, close_late_body,
  preview_arrived, mark_found, mark_preview_delivered, void_held, void_held_bodies,
  void_body_after_preview_failure, relocate_held_bodies, nod_overdue, expire_gate, due_gates, swept,
  sweep_expired_gates,
}

expire_preview-Step :
    (now i : ℕ) (t : Option ℕ) (d : Delivery)
    → misses_cutoff now i t d ≡ true
    → is_preview d.phase ≡ true
    → Step d (expire_preview now d)
unfolding misses_cutoff expire_preview checks
expire_preview-Step now i t d e p s = ground arith

deliver_preview-Step :
    (now i : ℕ) (t : Option ℕ) (d : Delivery)
    → arrives now i t d ≡ true
    → Step d (deliver_preview now d)
unfolding arrives deliver_preview checks
deliver_preview-Step now i t d e s = ground arith

open_window-Step :
    (now : ℕ) (b : Option ℕ) (d : Delivery) → waits_for_nod b d ≡ true → Step d (open_window now d)
unfolding waits_for_nod open_window checks
open_window-Step now b d e s = ground arith

void_held-Step :
    (now : ℕ) (r : VoidReason) (q : Delivery → Bool) (d : Delivery)
    → (is_pending d.status && (is_held d.release_state && q d)) ≡ true
    → Step d (void_held now r d)
unfolding void_held checks
void_held-Step now r q d e s = ground arith

expire_gate-Step : (now : ℕ) (d : Delivery) → nod_overdue now d ≡ true → Step d (expire_gate now d)
unfolding nod_overdue expire_gate checks
expire_gate-Step now d e s = ground arith

close_late_body-Evolves :
    (now : ℕ) (b : Option ℕ) (rows : List Delivery) → Evolves Step rows (close_late_body now b rows)
unfolding close_late_body
close_late_body-Evolves now b rows =
    Evolves-update Step (λ d. holds b d.id && is_open_body d) (expire_body now) rows Step-refl
      (λ d e. expire_body-Step now d (ground arith))

preview_arrived-Evolves :
    (now i : ℕ) (t : Option ℕ) (db : Db)
    → Evolves Step db.deliveries (preview_arrived now i t db).1.deliveries
unfolding preview_arrived
preview_arrived-Evolves now i t db =
    let rows = update (arrives now i t) (deliver_preview now) db.deliveries in
    let b = body_of (first (λ (d : Delivery). d.id == i) rows) in
    elim (Bool-cases (exists (arrives now i t) db.deliveries)) [
      | inl e ↦ rw e (
          Evolves-trans Step db.deliveries rows _ Step-trans
            (Evolves-update Step (arrives now i t) (deliver_preview now) db.deliveries Step-refl
              (deliver_preview-Step now i t))
            (Evolves-update Step (waits_for_nod b) (open_window now) rows Step-refl
              (open_window-Step now b)))
      | inr e ↦ rw e (Evolves-refl Step db.deliveries Step-refl)
    ]

-- the rows with the id are previews
abbrev pub IsPreviewAt : ℕ → Delivery → Type 0
IsPreviewAt i d = d.id ≡ i → is_preview d.phase ≡ true

misses_id : (now i : ℕ) (t : Option ℕ) (d : Delivery) → misses_cutoff now i t d ≡ true → d.id ≡ i
unfolding misses_cutoff
misses_id now i t d e = ground arith

mark_found-Evolves :
    (now i : ℕ) (t : Option ℕ) (o : Option Delivery) (db : Db)
    → All (IsPreviewAt i) db.deliveries
    → Evolves Step db.deliveries (mark_found now i t o db).1.deliveries
unfolding mark_found
mark_found-Evolves now i t none db h = preview_arrived-Evolves now i t db
mark_found-Evolves now i t (some x) db h =
    Evolves-trans Step db.deliveries
      (update (misses_cutoff now i t) (expire_preview now) db.deliveries) _ Step-trans
      (Evolves-update_within Step (IsPreviewAt i) (misses_cutoff now i t) (expire_preview now)
        db.deliveries Step-refl
        (λ d e p. expire_preview-Step now i t d e (p (misses_id now i t d e))) h)
      (close_late_body-Evolves now x.body_delivery_id _)

pub mark_preview_delivered-Evolves :
    (now i : ℕ) (t : Option ℕ) (db : Db)
    → All (IsPreviewAt i) db.deliveries
    → Evolves Step db.deliveries (mark_preview_delivered now i t db).1.deliveries
unfolding mark_preview_delivered
mark_preview_delivered-Evolves now i t db =
    mark_found-Evolves now i t (first (misses_cutoff now i t) db.deliveries) db

void_held_bodies-Evolves :
    (now : ℕ) (q : Delivery → Bool) (r : VoidReason) (rows : List Delivery)
    → Evolves Step rows (void_held_bodies now q r rows)
unfolding void_held_bodies
void_held_bodies-Evolves now q r rows =
    Evolves-update Step (λ d. is_pending d.status && (is_held d.release_state && q d))
      (void_held now r) rows Step-refl (void_held-Step now r q)

pub void_body_after_preview_failure-Evolves :
    (now i : ℕ) (r : VoidReason) (rows : List Delivery)
    → Evolves Step rows (void_body_after_preview_failure now i r rows)
unfolding void_body_after_preview_failure
void_body_after_preview_failure-Evolves now i r rows = void_held_bodies-Evolves now _ r rows

pub relocate_held_bodies-Evolves :
    (now i : ℕ) (db : Db) → Evolves Step db.deliveries (relocate_held_bodies now i db)
unfolding relocate_held_bodies
relocate_held_bodies-Evolves now i db = void_held_bodies-Evolves now _ _ db.deliveries

swept-Step :
    (now : ℕ) (due : List Delivery) (d : Delivery)
    → swept now due d ≡ true
    → Step d (expire_gate now d)
unfolding swept
swept-Step now due d e = expire_gate-Step now d (ground arith)

pub sweep_expired_gates-Evolves :
    (now limit : ℕ) (locked : ℕ → Bool) (rows : List Delivery)
    → Evolves Step rows (sweep_expired_gates now limit locked rows).1
unfolding sweep_expired_gates
sweep_expired_gates-Evolves now limit locked rows =
    let due = due_gates now limit locked rows in
    Evolves-update Step (swept now due) (expire_gate now) rows Step-refl (swept-Step now due)
