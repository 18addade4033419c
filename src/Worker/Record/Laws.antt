-- ===== src/Worker/Record/Laws.antt =====
-- A result keeps the table sound.
use ccj.Prelude.{
  ℕ, ◌≡◌, String, Bool, true, false, Option, some, List, [], ◌∷◌, arith, ◌&&◌, ◌||◌, not, is_some,
  ◌==◌, ◌+◌, leb, if◌then◌else◌, Bool-cases, inl, inr,
}
use ccj.Config.{Settings}
use ccj.Models.{Delivery, VoidReason, is_preview}
use ccj.Models.Tables.{Db}
use ccj.Models.Checks.{checks}
use ccj.Models.Progress.{Step, Step-refl, Step-trans}
use ccj.Sql.{exists, first}
use ccj.Sql.Evolve.{All, Evolves, Evolves-update, Evolves-refl, Evolves-trans}
use ccj.Relay.Cascade.Laws.{cascade_after_stop-Evolves}
use ccj.Release.Gate.{mark_preview_delivered, void_body_after_preview_failure}
use ccj.Release.Gate.Laws.{
  IsPreviewAt, mark_preview_delivered-Evolves, void_body_after_preview_failure-Evolves,
}
use ccj.Deadlines.{expire_in_flight_delivery}
use ccj.Deadlines.Laws.{expire_in_flight_delivery-Evolves}
use ccj.Worker.Claim.{Claim, generation_at}
use ccj.Worker.Record.Rows.{
  Result, owns, succeeds, event_success, failure_row, supersede_failed, correction_failure,
}
use ccj.Worker.Record.{
  Recorded, recorded, stale_claim, Times, with_attempt, cascade_claim, preview_success, or_expired,
  body_success, moved_failure, failed_correction, plain_failure, apply_result, add_attempt,
  record_result, closed_by_cutoff, moved,
}

-- the deliveries after the call; a stale claim is rolled back
abbrev pub deliveries_after : Db → Recorded → List Delivery
deliveries_after db (recorded b db') = db'.deliveries
deliveries_after db stale_claim = db.deliveries

event_success-Step :
    (cfg : Settings) (now : ℕ) (c : Claim) (r : Result) (d : Delivery)
    → succeeds c r d ≡ true
    → Step d (event_success cfg now d)
unfolding succeeds event_success checks
event_success-Step cfg now c r d e s = ground arith

failure-Step :
    (now next : ℕ) (dead : Bool) (error : Option String) (c : Claim) (d : Delivery)
    → owns c d ≡ true
    → Step d (failure_row now next dead error d)
unfolding owns failure_row checks
failure-Step now next dead error c d e s = ground arith

supersede-Step :
    (now : ℕ) (error : Option String) (c : Claim) (d : Delivery)
    → owns c d ≡ true
    → Step d (supersede_failed now error d)
unfolding owns supersede_failed checks
supersede-Step now error c d e s = ground arith

correction-Step :
    (now : ℕ) (error : Option String) (c : Claim) (d : Delivery)
    → owns c d ≡ true
    → Step d (correction_failure now error d)
unfolding owns correction_failure checks
correction-Step now error c d e s = ground arith

cascade_claim-Evolves :
    (now : ℕ) (c : Claim) (rows : List Delivery) → Evolves Step rows (cascade_claim now c rows)
unfolding cascade_claim
cascade_claim-Evolves now c rows = elim (Bool-cases (is_some c.copy.relay_chain_id)) [
  | inl e ↦ rw e (cascade_after_stop-Evolves now c.copy.id rows)
  | inr e ↦ rw e (Evolves-refl Step rows Step-refl)
]

module _ (c : Claim) (r : Result) (db : Db) where
  abbrev Goes : Recorded → Type 0
  Goes o = Evolves Step db.deliveries (deliveries_after db o)

  stays : Evolves Step db.deliveries db.deliveries
  stays = Evolves-refl Step db.deliveries Step-refl

  cascade_from :
      (now : ℕ) (rows : List Delivery)
      → Evolves Step db.deliveries rows
      → Evolves Step db.deliveries (cascade_claim now c rows)
  cascade_from now rows h =
      Evolves-trans Step db.deliveries rows _ Step-trans h (cascade_claim-Evolves now c rows)

  preview-Goes :
      (now : ℕ) → All (IsPreviewAt c.copy.id) db.deliveries → Goes (preview_success now c r db)
  unfolding preview_success
  preview-Goes now p =
      let o = mark_preview_delivered now c.copy.id (some r.finished_at) db in
      let marked = mark_preview_delivered-Evolves now c.copy.id (some r.finished_at) db p in
      elim (Bool-cases o.0) [
        | inl e ↦ rw e marked
        | inr e ↦
            rw e
              (elim (Bool-cases
                (closed_by_cutoff (first (λ (d : Delivery). d.id == c.copy.id) o.1.deliveries))) [
                  | inl t ↦ rw t (cascade_from now o.1.deliveries marked)
                  | inr f ↦ rw f stays
                ])
      ]

  expired-Goes : (now : ℕ) (o : Recorded) → Goes o → Goes (or_expired now c r db o)
  unfolding or_expired
  expired-Goes now o h =
      let x = expire_in_flight_delivery now c.copy.id (some r.finished_at) db.deliveries in
      elim (Bool-cases x.0) [
        | inl e ↦ rw e (
            cascade_from now x.1
              (expire_in_flight_delivery-Evolves now c.copy.id (some r.finished_at) db.deliveries))
        | inr e ↦ rw e h
      ]

  body-Goes : (cfg : Settings) (now : ℕ) → Goes (body_success cfg now c r db)
  unfolding body_success
  body-Goes cfg now = elim (Bool-cases (exists (succeeds c r) db.deliveries)) [
    | inl e ↦ rw e (
        Evolves-update Step (succeeds c r) (event_success cfg now) db.deliveries Step-refl
          (event_success-Step cfg now c r))
    | inr e ↦ rw e (expired-Goes now stale_claim stays)
  ]

  -- the void of a preview's body after its own row is written
  void_from :
      (now : ℕ) (b : Bool) (v : VoidReason) (rows : List Delivery)
      → Evolves Step db.deliveries rows
      → Evolves Step db.deliveries
          (if b then void_body_after_preview_failure now c.copy.id v rows else rows)
  void_from now true v rows h =
      Evolves-trans Step db.deliveries rows _ Step-trans h
        (void_body_after_preview_failure-Evolves now c.copy.id v rows)
  void_from now false v rows h = h

  moved-Goes : (now : ℕ) → Goes (moved_failure now c r db)
  unfolding moved_failure
  moved-Goes now = elim (Bool-cases (exists (owns c) db.deliveries)) [
    | inl e ↦ rw e (
        cascade_from now _ (
          void_from now (is_preview c.copy.phase) VoidReason.preview_superseded _ (
            Evolves-update Step (owns c) (supersede_failed now r.error) db.deliveries Step-refl
              (supersede-Step now r.error c))))
    | inr e ↦ rw e stays
  ]

  correction-Goes : (now : ℕ) → Goes (failed_correction now c r db)
  unfolding failed_correction
  correction-Goes now = elim (Bool-cases (exists (owns c) db.deliveries)) [
    | inl e ↦ rw e (
        Evolves-update Step (owns c) (correction_failure now r.error) db.deliveries Step-refl
          (correction-Step now r.error c))
    | inr e ↦ rw e stays
  ]

  cascade_if :
      (now : ℕ) (b : Bool) (rows : List Delivery)
      → Evolves Step db.deliveries rows
      → Evolves Step db.deliveries (if b then cascade_claim now c rows else rows)
  cascade_if now true rows h = cascade_from now rows h
  cascade_if now false rows h = h

  plain-Goes : (cfg : Settings) (t : Times) → Goes (plain_failure cfg t c r db)
  unfolding plain_failure
  plain-Goes cfg t =
      let dead = leb cfg.max_delivery_attempts (c.copy.consecutive_failures + 1) in
      elim (Bool-cases (exists (owns c) db.deliveries)) [
        | inl e ↦ rw e (
            cascade_if t.now dead _ (
              void_from t.now (is_preview c.copy.phase && dead) VoidReason.preview_dead_lettered _ (
                Evolves-update Step (owns c) (failure_row t.now t.next_attempt_at dead r.error)
                  db.deliveries Step-refl (failure-Step t.now t.next_attempt_at dead r.error c))))
        | inr e ↦ rw e stays
      ]

  failure-Goes :
      (cfg : Settings) (t : Times)
      → Goes (
          if moved c (generation_at c.copy.destination_id db.destinations)
          then moved_failure t.now c r db
          else if is_some c.corrects_event_id
          then failed_correction t.now c r db
          else or_expired t.now c r db (plain_failure cfg t c r db))
  failure-Goes cfg t =
      elim (Bool-cases (moved c (generation_at c.copy.destination_id db.destinations))) [
        | inl e ↦ rw e (moved-Goes t.now)
        | inr e ↦ rw e (elim (Bool-cases (is_some c.corrects_event_id)) [
          | inl x ↦ rw x (correction-Goes t.now)
          | inr y ↦ rw y (expired-Goes t.now (plain_failure cfg t c r db) (plain-Goes cfg t))
        ])
      ]

  -- the rows with the claim's id have the claim's phase
  abbrev SamePhase : Type 0
  SamePhase = All (λ d. d.id ≡ c.copy.id → d.phase ≡ c.copy.phase) db.deliveries

  previews :
      (rows : List Delivery)
      → is_preview c.copy.phase ≡ true
      → All (λ d. d.id ≡ c.copy.id → d.phase ≡ c.copy.phase) rows
      → All (IsPreviewAt c.copy.id) rows
  previews [] e h = tt
  previews (d ∷ ds) e h = ((λ q. rw (h.0 q) e), previews ds e h.1)

  success-Goes :
      (cfg : Settings) (t : Times)
      → SamePhase
      → Goes (
          if is_preview c.copy.phase
          then preview_success t.now c r db
          else body_success cfg t.now c r db)
  success-Goes cfg t p = elim (Bool-cases (is_preview c.copy.phase)) [
    | inl e ↦ rw e (preview-Goes t.now (previews db.deliveries e p))
    | inr e ↦ rw e (body-Goes cfg t.now)
  ]

  chosen : (b : Bool) (x y : Recorded) → Goes x → Goes y → Goes (if b then x else y)
  chosen true x y h k = h
  chosen false x y h k = k

  apply-Goes : (cfg : Settings) (t : Times) → SamePhase → Goes (apply_result cfg t c r db)
  unfolding apply_result
  apply-Goes cfg t p = chosen r.success _ _ (success-Goes cfg t p) (failure-Goes cfg t)

  attempt-Goes : (o : Recorded) → Goes o → Goes (add_attempt c r o)
  unfolding add_attempt with_attempt
  attempt-Goes (recorded b db') h = h
  attempt-Goes stale_claim h = h

-- Recording a result, with the lease or without, takes every sound row to a sound row that went on
-- from it.
pub record_result-Evolves :
    (cfg : Settings) (t : Times) (c : Claim) (r : Result) (lost : Bool) (db : Db)
    → All (λ d. d.id ≡ c.copy.id → d.phase ≡ c.copy.phase) db.deliveries
    → Evolves Step db.deliveries (deliveries_after db (record_result cfg t c r lost db))
unfolding record_result
record_result-Evolves cfg t c r lost db p =
    elim (Bool-cases (lost || not (exists (owns c) db.deliveries))) [
      | inl e ↦ rw e (unfold with_attempt in Evolves-refl Step db.deliveries Step-refl)
      | inr e ↦ rw e (attempt-Goes c r db (apply_result cfg t c r db) (apply-Goes c r db cfg t p))
    ]
