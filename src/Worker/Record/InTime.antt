-- ===== src/Worker/Record/InTime.antt =====
-- The cutoff decides, at the finish of the call: what the result of a call can mark as delivered.
pub mod Steps
use ccj.Prelude.{
  ℕ, ◌+◌, ◌≡◌, ◌⊎◌, refl, ◌∙◌, inl, inr, Bool, true, false, Option, none, some, List, [], ◌∷◌,
  arith, is_some, ◌==◌, ◌&&◌, ◌||◌, not, Bool-cases, if◌then◌else◌, leb, coalesce,
}
use ccj.Config.{Settings}
use ccj.Models.{Delivery, VoidReason, SkipReason, Phase, is_preview, is_delivered}
use ccj.Models.Tables.{Db, Destination}
use ccj.Sql.{update, exists, first}
use ccj.Sql.Evolve.{Evolves, Evolves-update, Evolves-refl, Evolves-trans}
use ccj.Release.Gate.{in_time, mark_preview_delivered, void_body_after_preview_failure}
use ccj.Deadlines.{expire_in_flight_delivery}
use ccj.Worker.Claim.{Claim, generation_at}
use ccj.Worker.Record.Rows.{
  Result, owns, succeeds, event_success, failure_row, supersede_failed, correction_failure,
}
use ccj.Worker.Record.{
  Recorded, recorded, stale_claim, Times, with_attempt, cascade_claim, preview_success, or_expired,
  body_success, moved_failure, failed_correction, plain_failure, apply_result, add_attempt,
  record_result, closed_by_cutoff, moved,
}
use ccj.Worker.Record.Laws.{deliveries_after}
use Steps.{
  Handed, Handed-refl, Handed-trans, cascade_claim-Handed, mark_preview_delivered-Handed,
  void_body-Handed, expire_in_flight_delivery-Handed, success-Handed, failure-Handed,
  superseded-Handed, correction-Handed,
}

module _ (c : Claim) (r : Result) (db : Db) where
  abbrev H : Delivery → Delivery → Type 0
  H = Handed c.copy.id r.finished_at

  abbrev Goes : Recorded → Type 0
  Goes o = Evolves H db.deliveries (deliveries_after db o)

  stays : Evolves H db.deliveries db.deliveries
  stays = Evolves-refl H db.deliveries (Handed-refl c.copy.id r.finished_at)

  then_rows :
      (rows rows' : List Delivery)
      → Evolves H db.deliveries rows
      → Evolves H rows rows'
      → Evolves H db.deliveries rows'
  then_rows rows rows' h k =
      Evolves-trans H db.deliveries rows rows' (Handed-trans c.copy.id r.finished_at) h k

  cascade_from :
      (now : ℕ) (rows : List Delivery)
      → Evolves H db.deliveries rows
      → Evolves H db.deliveries (cascade_claim now c rows)
  cascade_from now rows h =
      then_rows rows _ h (cascade_claim-Handed c.copy.id r.finished_at now c rows)

  preview-Goes : (now : ℕ) → Goes (preview_success now c r db)
  unfolding preview_success
  preview-Goes now =
      let o = mark_preview_delivered now c.copy.id (some r.finished_at) db in
      let marked = mark_preview_delivered-Handed now c.copy.id r.finished_at db in
      elim (Bool-cases o.0) [
        | inl e ↦ rw e marked
        | inr e ↦
            rw e
              (elim (Bool-cases
                (closed_by_cutoff (first (λ (d : Delivery). d.id == c.copy.id) o.1.deliveries))) [
                  | inl t ↦ rw t (cascade_from now o.1.deliveries marked)
                  | inr f ↦ rw f stays
                ])
      ]

  expired-Goes : (now : ℕ) (o : Recorded) → Goes o → Goes (or_expired now c r db o)
  unfolding or_expired
  expired-Goes now o h =
      let x = expire_in_flight_delivery now c.copy.id (some r.finished_at) db.deliveries in
      elim (Bool-cases x.0) [
        | inl e ↦ rw e (
            cascade_from now x.1 (
              expire_in_flight_delivery-Handed c.copy.id r.finished_at now c.copy.id
                (some r.finished_at) db.deliveries))
        | inr e ↦ rw e h
      ]

  body-Goes : (cfg : Settings) (now : ℕ) → Goes (body_success cfg now c r db)
  unfolding body_success
  body-Goes cfg now = elim (Bool-cases (exists (succeeds c r) db.deliveries)) [
    | inl e ↦ rw e (
        Evolves-update H (succeeds c r) (event_success cfg now) db.deliveries
          (Handed-refl c.copy.id r.finished_at) (success-Handed cfg now c r))
    | inr e ↦ rw e (expired-Goes now stale_claim stays)
  ]

  void_from :
      (now : ℕ) (b : Bool) (v : VoidReason) (rows : List Delivery)
      → Evolves H db.deliveries rows
      → Evolves H db.deliveries
          (if b then void_body_after_preview_failure now c.copy.id v rows else rows)
  void_from now true v rows h =
      then_rows rows _ h (void_body-Handed c.copy.id r.finished_at now c.copy.id v rows)
  void_from now false v rows h = h

  -- a row that fails is not delivered
  failing :
      (f : Delivery → Delivery)
      → ((d : Delivery) → H d (f d))
      → Evolves H db.deliveries (update (owns c) f db.deliveries)
  failing f h =
      Evolves-update H (owns c) f db.deliveries (Handed-refl c.copy.id r.finished_at) (λ d e. h d)

  moved-Goes : (now : ℕ) → Goes (moved_failure now c r db)
  unfolding moved_failure
  moved-Goes now = elim (Bool-cases (exists (owns c) db.deliveries)) [
    | inl e ↦ rw e (
        cascade_from now _ (
          void_from now (is_preview c.copy.phase) VoidReason.preview_superseded _ (
            failing (supersede_failed now r.error)
              (superseded-Handed c.copy.id r.finished_at now r.error))))
    | inr e ↦ rw e stays
  ]

  correction-Goes : (now : ℕ) → Goes (failed_correction now c r db)
  unfolding failed_correction
  correction-Goes now = elim (Bool-cases (exists (owns c) db.deliveries)) [
    | inl e ↦ rw e (
        failing (correction_failure now r.error)
          (correction-Handed c.copy.id r.finished_at now r.error))
    | inr e ↦ rw e stays
  ]

  cascade_if :
      (now : ℕ) (b : Bool) (rows : List Delivery)
      → Evolves H db.deliveries rows
      → Evolves H db.deliveries (if b then cascade_claim now c rows else rows)
  cascade_if now true rows h = cascade_from now rows h
  cascade_if now false rows h = h

  plain-Goes : (cfg : Settings) (t : Times) → Goes (plain_failure cfg t c r db)
  unfolding plain_failure
  plain-Goes cfg t =
      let dead = leb cfg.max_delivery_attempts (c.copy.consecutive_failures + 1) in
      elim (Bool-cases (exists (owns c) db.deliveries)) [
        | inl e ↦ rw e (
            cascade_if t.now dead _ (
              void_from t.now (is_preview c.copy.phase && dead) VoidReason.preview_dead_lettered _ (
                failing (failure_row t.now t.next_attempt_at dead r.error)
                  (failure-Handed c.copy.id r.finished_at t.now t.next_attempt_at dead r.error))))
        | inr e ↦ rw e stays
      ]

  chosen : (b : Bool) (x y : Recorded) → Goes x → Goes y → Goes (if b then x else y)
  chosen true x y h k = h
  chosen false x y h k = k

  apply-Goes : (cfg : Settings) (t : Times) → Goes (apply_result cfg t c r db)
  unfolding apply_result
  apply-Goes cfg t =
      chosen r.success _ _
        (chosen (is_preview c.copy.phase) _ _ (preview-Goes t.now) (body-Goes cfg t.now))
        (chosen (moved c (generation_at c.copy.destination_id db.destinations)) _ _
          (moved-Goes t.now)
          (chosen (is_some c.corrects_event_id) _ _ (correction-Goes t.now)
            (expired-Goes t.now (plain_failure cfg t c r db) (plain-Goes cfg t))))

  attempt-Goes : (o : Recorded) → Goes o → Goes (add_attempt c r o)
  unfolding add_attempt with_attempt
  attempt-Goes (recorded b db') h = h
  attempt-Goes stale_claim h = h

-- The result of a call marks no copy as delivered but the one that was called, and that one only if
-- the call finished before its cutoff.
pub record_result-Handed :
    (cfg : Settings) (t : Times) (c : Claim) (r : Result) (lost : Bool) (db : Db)
    → Evolves
        (Handed c.copy.id r.finished_at)
        db.deliveries
        (deliveries_after db (record_result cfg t c r lost db))
unfolding record_result
record_result-Handed cfg t c r lost db =
    elim (Bool-cases (lost || not (exists (owns c) db.deliveries))) [
      | inl e ↦ rw e (unfold with_attempt in stays c r db)
      | inr e ↦ rw e (attempt-Goes c r db (apply_result cfg t c r db) (apply-Goes c r db cfg t))
    ]
