-- ===== src/Worker/Record/InTime/Steps.antt =====
-- The statements that the recording of a result runs, and the copies that they mark as delivered.
use ccj.Prelude.{
  ℕ, String, ◌≡◌, ◌⊎◌, refl, ◌∙◌, inl, inr, Bool, true, Option, none, some, List, arith, is_some,
  ◌==◌, ◌&&◌, Bool-cases, holds,
}
use ccj.Config.{Settings}
use ccj.Models.{Delivery, VoidReason, SkipReason, Phase, is_delivered}
use ccj.Models.Tables.{Db}
use ccj.Sql.{update, exists, first}
use ccj.Sql.Evolve.{Evolves, Evolves-update, Evolves-refl, Evolves-trans}
use ccj.Relay.Cascade.{skip, skip_later, is_later, is_trigger, reason_in, cascade_after_stop}
use ccj.Release.Gate.{
  in_time, arrives, deliver_preview, expire_preview, open_window, waits_for_nod, body_of,
  close_late_body, preview_arrived, mark_found, mark_preview_delivered, void_held, void_held_bodies,
  void_body_after_preview_failure,
}
use ccj.Deadlines.{
  expire_row, expire_body, is_open_body, misses_cutoff, close_body_of, expire_found,
  expire_in_flight_delivery,
}
use ccj.Worker.Claim.{Claim}
use ccj.Worker.Record.Rows.{
  Result, succeeds, event_success, failure_row, supersede_failed, correction_failure,
}
use ccj.Worker.Record.{cascade_claim}

-- A row that is delivered afterwards was so before, or it is the row `i` and the time `t` is before
-- its cutoff.
abbrev pub Handed : ℕ → ℕ → Delivery → Delivery → Type 0
Handed i t d d' =
    (d'.id ≡ d.id)
    × (d'.deliver_by ≡ d.deliver_by)
    × (is_delivered d'.status ≡ true
        → (is_delivered d.status ≡ true) ⊎ ((d.id ≡ i) × (in_time d.deliver_by t ≡ true)))

pub Handed-refl : (i t : ℕ) (d : Delivery) → Handed i t d d
Handed-refl i t d = (refl, refl, λ e. inl e)

pub Handed-trans : (i t : ℕ) (x y z : Delivery) → Handed i t x y → Handed i t y z → Handed i t x z
Handed-trans i t x y z (a, b, h) (a', b', k) = (
  a' ∙ a,
  b' ∙ b,
  λ e. elim (k e) [ inl p ↦ h p | inr (p, q) ↦ inr (ground (arith, a), ground (arith, b)) ],
)

module _ (i t : ℕ) where
  skip-Handed : (now by : ℕ) (r : SkipReason) (d : Delivery) → Handed i t d (skip now by r d)
  unfolding skip
  skip-Handed now by r d = (refl, refl, λ e. absurd (cc))

  skip_later-Handed :
      (now by : ℕ) (x : Option Delivery) (r : Option SkipReason) (rows : List Delivery)
      → Evolves (Handed i t) rows (skip_later now by x r rows).1
  unfolding skip_later
  skip_later-Handed now by none r rows = Evolves-refl (Handed i t) rows (Handed-refl i t)
  skip_later-Handed now by (some x) none rows = Evolves-refl (Handed i t) rows (Handed-refl i t)
  skip_later-Handed now by (some x) (some r) rows =
      Evolves-update (Handed i t) (is_later x) (skip now by r) rows (Handed-refl i t)
        (λ d e. skip-Handed now by r d)

  pub cascade_claim-Handed :
      (now : ℕ) (c : Claim) (rows : List Delivery)
      → Evolves (Handed i t) rows (cascade_claim now c rows)
  unfolding cascade_claim cascade_after_stop
  cascade_claim-Handed now c rows = elim (Bool-cases (is_some c.copy.relay_chain_id)) [
    | inl e ↦ rw e (
        skip_later-Handed now c.copy.id (first (is_trigger c.copy.id) rows)
          (reason_in (first (λ d. d.id == c.copy.id) rows)) rows)
    | inr e ↦ rw e (Evolves-refl (Handed i t) rows (Handed-refl i t))
  ]

  expire_row-Handed : (now : ℕ) (d : Delivery) → Handed i t d (expire_row now d)
  unfolding expire_row
  expire_row-Handed now d = (refl, refl, λ e. absurd (cc))

  expire_body-Handed : (now : ℕ) (d : Delivery) → Handed i t d (expire_body now d)
  unfolding expire_body
  expire_body-Handed now d = (refl, refl, λ e. absurd (cc))

  expire_preview-Handed : (now : ℕ) (d : Delivery) → Handed i t d (expire_preview now d)
  unfolding expire_preview
  expire_preview-Handed now d = (refl, refl, λ e. absurd (cc))

  void_held-Handed : (now : ℕ) (r : VoidReason) (d : Delivery) → Handed i t d (void_held now r d)
  unfolding void_held
  void_held-Handed now r d = (refl, refl, λ e. absurd (cc))

  open_window-Handed : (now : ℕ) (d : Delivery) → Handed i t d (open_window now d)
  unfolding open_window
  open_window-Handed now d = (refl, refl, λ e. inl e)

  pub superseded-Handed :
      (now : ℕ) (error : Option String) (d : Delivery) → Handed i t d (supersede_failed now error d)
  unfolding supersede_failed
  superseded-Handed now error d = (refl, refl, λ e. absurd (cc))

  pub correction-Handed :
      (now : ℕ) (error : Option String) (d : Delivery)
      → Handed i t d (correction_failure now error d)
  unfolding correction_failure
  correction-Handed now error d = (refl, refl, λ e. absurd (cc))

  pub failure-Handed :
      (now next : ℕ) (dead : Bool) (error : Option String) (d : Delivery)
      → Handed i t d (failure_row now next dead error d)
  unfolding failure_row
  failure-Handed now next dead error d = (refl, refl, λ e. absurd (ground arith))

  close_body_of-Handed :
      (now : ℕ) (p : Phase) (b : Option ℕ) (rows : List Delivery)
      → Evolves (Handed i t) rows (close_body_of now p b rows)
  unfolding close_body_of
  close_body_of-Handed now Phase.preview (some b) rows =
      Evolves-update (Handed i t) (λ d. d.id == b && is_open_body d) (expire_body now) rows
        (Handed-refl i t) (λ d e. expire_body-Handed now d)
  close_body_of-Handed now Phase.preview none rows =
      Evolves-refl (Handed i t) rows (Handed-refl i t)
  close_body_of-Handed now Phase.body b rows = Evolves-refl (Handed i t) rows (Handed-refl i t)

  expire_found-Handed :
      (now j : ℕ) (f : Option ℕ) (o : Option Delivery) (rows : List Delivery)
      → Evolves (Handed i t) rows (expire_found now j f o rows).1
  unfolding expire_found
  expire_found-Handed now j f none rows = Evolves-refl (Handed i t) rows (Handed-refl i t)
  expire_found-Handed now j f (some d) rows =
      Evolves-trans (Handed i t) rows (update (misses_cutoff now j f) (expire_row now) rows) _
        (Handed-trans i t)
        (Evolves-update (Handed i t) (misses_cutoff now j f) (expire_row now) rows (Handed-refl i t)
          (λ d e. expire_row-Handed now d))
        (close_body_of-Handed now d.phase d.body_delivery_id _)

  pub expire_in_flight_delivery-Handed :
      (now j : ℕ) (f : Option ℕ) (rows : List Delivery)
      → Evolves (Handed i t) rows (expire_in_flight_delivery now j f rows).1
  unfolding expire_in_flight_delivery
  expire_in_flight_delivery-Handed now j f rows =
      expire_found-Handed now j f (first (misses_cutoff now j f) rows) rows

  pub void_body-Handed :
      (now j : ℕ) (r : VoidReason) (rows : List Delivery)
      → Evolves (Handed i t) rows (void_body_after_preview_failure now j r rows)
  unfolding void_body_after_preview_failure void_held_bodies
  void_body-Handed now j r rows =
      Evolves-update (Handed i t) _ (void_held now r) rows (Handed-refl i t)
        (λ d e. void_held-Handed now r d)

  deliver_preview-Handed :
      (now : ℕ) (d : Delivery)
      → arrives now i (some t) d ≡ true
      → Handed i t d (deliver_preview now d)
  unfolding arrives deliver_preview
  deliver_preview-Handed now d e = (refl, refl, λ h. inr (ground arith, ground arith))

  arrived-Handed :
      (now : ℕ) (db : Db)
      → Evolves (Handed i t) db.deliveries (preview_arrived now i (some t) db).1.deliveries
  unfolding preview_arrived
  arrived-Handed now db =
      let rows = update (arrives now i (some t)) (deliver_preview now) db.deliveries in
      let b = body_of (first (λ (d : Delivery). d.id == i) rows) in
      elim (Bool-cases (exists (arrives now i (some t)) db.deliveries)) [
        | inl e ↦ rw e (
            Evolves-trans (Handed i t) db.deliveries rows _ (Handed-trans i t)
              (Evolves-update (Handed i t) (arrives now i (some t)) (deliver_preview now)
                db.deliveries (Handed-refl i t) (deliver_preview-Handed now))
              (Evolves-update (Handed i t) (waits_for_nod b) (open_window now) rows
                (Handed-refl i t) (λ d e. open_window-Handed now d)))
        | inr e ↦ rw e (Evolves-refl (Handed i t) db.deliveries (Handed-refl i t))
      ]

  mark_found-Handed :
      (now : ℕ) (o : Option Delivery) (db : Db)
      → Evolves (Handed i t) db.deliveries (mark_found now i (some t) o db).1.deliveries
  unfolding mark_found close_late_body
  mark_found-Handed now none db = arrived-Handed now db
  mark_found-Handed now (some x) db =
      let expired = update (misses_cutoff now i (some t)) (expire_preview now) db.deliveries in
      Evolves-trans (Handed i t) db.deliveries expired _ (Handed-trans i t)
        (Evolves-update (Handed i t) (misses_cutoff now i (some t)) (expire_preview now)
          db.deliveries (Handed-refl i t) (λ d e. expire_preview-Handed now d))
        (Evolves-update (Handed i t) (λ d. holds x.body_delivery_id d.id && is_open_body d)
          (expire_body now) expired (Handed-refl i t) (λ d e. expire_body-Handed now d))

pub mark_preview_delivered-Handed :
    (now i t : ℕ) (db : Db)
    → Evolves (Handed i t) db.deliveries (mark_preview_delivered now i (some t) db).1.deliveries
unfolding mark_preview_delivered
mark_preview_delivered-Handed now i t db =
    mark_found-Handed i t now (first (misses_cutoff now i (some t)) db.deliveries) db

pub success-Handed :
    (cfg : Settings) (now : ℕ) (c : Claim) (r : Result) (d : Delivery)
    → succeeds c r d ≡ true
    → Handed c.copy.id r.finished_at d (event_success cfg now d)
unfolding succeeds event_success
success-Handed cfg now c r d e = (refl, refl, λ h. inr (ground arith, ground arith))
