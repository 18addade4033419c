-- ===== src/Release/Decision/Final.antt =====
-- What an answer does to the table of deliveries, and that an effective one is final.
use ccj.Prelude.{
  ℕ, ◌≡◌, refl, Bool, true, false, Option, none, some, arith, is_some, ◌==◌, if◌then◌else◌,
  Bool-cases, inl, inr,
}
use ccj.Models.{Delivery, ReleaseState, is_pending}
use ccj.Models.Tables.{Db, Event, Decision, Disposition, AnswerReason}
use ccj.Models.Checks.{checks}
use ccj.Models.Keys.{IsKeyed, IsOnly, first-IsOnly, Evolves-update_only}
use ccj.Models.Progress.{Step, Step-refl}
use ccj.Sql.{first, exists}
use ccj.Sql.Evolve.{All, Evolves, Evolves-refl}
use ccj.Release.Gate.{expire_gate}
use ccj.Release.Decision.{
  Outcome, Call, is_gate, deny_row, release_row, noted, apply_decision, answer_in_time,
  answer_preview, with_found, with_preview, answer_body, no_body, answer_found, ingest_decision,
  nod_late,
}
use ccj.Release.Decision.Laws.{deliveries_after}

-- the release states with which a call goes on to the preview
abbrev waits : Option ReleaseState → Bool
waits none = true
waits (some ReleaseState.held) = true
waits _ = false

-- the body may be rewritten by an answer
abbrev MayAnswer : Delivery → Type 0
MayAnswer d =
    (is_pending d.status ≡ true)
    × (waits d.release_state ≡ true)
    × (is_some d.preview_delivery_id ≡ true)

expire-Step : (now : ℕ) (d : Delivery) → MayAnswer d → Step d (expire_gate now d)
unfolding expire_gate checks
expire-Step now d m s = ground arith

deny-Step : (now : ℕ) (d : Delivery) → MayAnswer d → Step d (deny_row now d)
unfolding deny_row checks
deny-Step now d m s = ground arith

release-Step : (now : ℕ) (d : Delivery) → MayAnswer d → Step d (release_row now d)
unfolding release_row checks
release-Step now d m s = ground arith

module _ (c : Call) (body : Delivery) (db : Db) (only : All (IsOnly body) db.deliveries) where
  abbrev Goes : Outcome → Type 0
  Goes o = Evolves Step db.deliveries (deliveries_after db o)

  apply-Goes : (d : Decision) → MayAnswer body → Goes (apply_decision d c body db)
  unfolding apply_decision
  apply-Goes Decision.deny m =
      Evolves-update_only Step body (deny_row c.now) db.deliveries Step-refl
        (deny-Step c.now body m) only
  apply-Goes Decision.approve m =
      Evolves-update_only Step body (release_row c.now) db.deliveries Step-refl
        (release-Step c.now body m) only

  in_time-Goes : MayAnswer body → Goes (answer_in_time c body db)
  unfolding answer_in_time
  in_time-Goes m = elim (Bool-cases (nod_late body.consent_deadline c.now)) [
    | inl e ↦ rw e (
        Evolves-update_only Step body (expire_gate c.now) db.deliveries Step-refl
          (expire-Step c.now body m) only)
    | inr e ↦ rw e (apply-Goes c.decision m)
  ]

  stays : Evolves Step db.deliveries db.deliveries
  stays = Evolves-refl Step db.deliveries Step-refl

  preview-Goes :
      (t : Option ℕ) (p : Delivery) → MayAnswer body → Goes (answer_preview t c body p db)
  unfolding answer_preview
  preview-Goes none p m = stays
  preview-Goes (some t) p m = in_time-Goes m

  found-Goes : (o : Option Delivery) → MayAnswer body → Goes (with_found o c body db)
  unfolding with_found
  found-Goes none m = stays
  found-Goes (some p) m = preview-Goes p.delivered_at p m

  with_preview-Goes :
      (o : Option ℕ) → (is_some o ≡ true → MayAnswer body) → Goes (with_preview o c body db)
  unfolding with_preview
  with_preview-Goes none m = stays
  with_preview-Goes (some i) m =
      found-Goes (first (λ (d : Delivery). d.id == i) db.deliveries) (m refl)

  queued-Goes :
      waits body.release_state ≡ true
      → Goes (
          if is_pending body.status
          then with_preview body.preview_delivery_id c body db
          else noted c body Disposition.late_ignored
              (some (AnswerReason.body_already_in body.status))
              body.release_state
              db)
  unfolding noted
  queued-Goes w = elim (Bool-cases (is_pending body.status)) [
    | inl e ↦ rw e (with_preview-Goes body.preview_delivery_id (λ l. (e, w, l)))
    | inr e ↦ rw e stays
  ]

  answer-Goes : (o : Option ReleaseState) → body.release_state ≡ o → Goes (answer_body o c body db)
  unfolding answer_body
  answer-Goes none e = queued-Goes (ground arith)
  answer-Goes (some ReleaseState.held) e = queued-Goes (ground arith)
  answer-Goes (some other) e = stays

found-Evolves :
    (o : Option Delivery) (c : Call) (db : Db)
    → first (is_gate c.event_id c.destination_id) db.deliveries ≡ o
    → IsKeyed db.deliveries
    → Evolves Step db.deliveries (deliveries_after db (answer_found o c db))
unfolding answer_found no_body
found-Evolves none c db e k =
    elim (Bool-cases (exists (λ (x : Event). x.id == c.event_id) db.events)) [
      | inl t ↦ rw t (Evolves-refl Step db.deliveries Step-refl)
      | inr f ↦ rw f (Evolves-refl Step db.deliveries Step-refl)
    ]
found-Evolves (some body) c db e k =
    answer-Goes c body db
      (first-IsOnly (is_gate c.event_id c.destination_id) db.deliveries body k e) body.release_state
      refl

pub ingest_decision-Evolves :
    (c : Call) (db : Db)
    → IsKeyed db.deliveries
    → Evolves Step db.deliveries (deliveries_after db (ingest_decision c db))
unfolding ingest_decision
ingest_decision-Evolves c db k =
    found-Evolves (first (is_gate c.event_id c.destination_id) db.deliveries) c db refl k
