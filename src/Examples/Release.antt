-- ===== src/Examples/Release.antt =====
-- A gated event: its preview has arrived, and its body waits for the nod.
use ccj.Prelude.{◌≡◌, ◌↔◌, refl, true, none, some, [], ◌∷◌, inl, ◌==◌}
use ccj.Models.{Delivery, Status, Phase, ReleaseState, DeadLetterReason}
use ccj.Models.Tables.{Db, Decision, Disposition}
use ccj.Models.Checks.{IsSound, checks}
use ccj.Sql.{first, update}
use ccj.Sql.Evolve.{All}
use ccj.Release.Decision.{Answer, Call, Outcome, ingest_decision, is_gate, release_row}
use ccj.Release.Decision.Laws.{disposition_of, deliveries_after}
use ccj.Release.Decision.Repeat.{ingest_decision-repeat}
use ccj.Release.Void.{void_gated_body, Voiding}
use ccj.Release.Void.Laws.{
  verdict, IsVoidable, void_gated_body-voids_iff, void_gated_body-dead_lettered,
}
use ccj.Examples.{copy, database}

abbrev preview : Delivery
preview = record copy {
  id = 20;
  event_id = 200;
  dedupe_key = "prev:evt:200";
  phase = Phase.preview;
  body_delivery_id = some 21;
  status = Status.delivered;
  delivered_at = some 40;
}

abbrev body : Delivery
body = record copy {
  id = 21;
  event_id = 200;
  dedupe_key = "evt:200";
  destination_seq = 2;
  preview_delivery_id = some 20;
  release_state = some ReleaseState.held;
  consent_deadline = some 100;
  consent_timeout_seconds = some 60;
}

abbrev gated : Db
gated = database (preview ∷ body ∷ [])

gated-IsSound : All IsSound gated.deliveries
unfolding checks
gated-IsSound = (
  record {
    checked = refl;
    gate_agrees = refl;
    awaits_receipt = λ e. absurd (cc);
    acknowledged = λ e. absurd (cc);
    gated = refl;
  },
  (
    record {
      checked = refl;
      gate_agrees = refl;
      awaits_receipt = λ e. absurd (cc);
      acknowledged = λ e. absurd (cc);
      gated = refl;
    },
    tt,
  ),
)

abbrev nod : Call
nod = record { now = 100; destination_id = 7; event_id = 200; decision = Decision.approve }

-- a test: at the last moment the nod still counts
nod_released : disposition_of (ingest_decision nod gated) ≡ some Disposition.released
unfolding ingest_decision first is_gate
nod_released = refl

abbrev refusal : Call
refusal = record { now = 110; destination_id = 7; event_id = 200; decision = Decision.deny }

abbrev nod_answer : Answer
nod_answer = record {
  delivery_id = some 21;
  disposition = Disposition.released;
  release_state = some ReleaseState.released;
}

unfoldable after_nod : Db
after_nod = record gated {
  deliveries = preview ∷ release_row 100 body ∷ [];
  gate_decisions =
      record {
        destination_id = 7;
        event_id = 200;
        delivery_id = some 21;
        decision = Decision.approve;
        disposition = Disposition.released;
        reason = none;
      }
      ∷ [];
}

nod_answered : ingest_decision nod gated ≡ Outcome.answered nod_answer after_nod
unfolding ingest_decision after_nod release_row first is_gate update
nod_answered = refl

ingest_decision-repeat_example :
    (disposition_of (ingest_decision refusal after_nod) ≡ some Disposition.conflict)
    × (deliveries_after after_nod (ingest_decision refusal after_nod) ≡ after_nod.deliveries)
ingest_decision-repeat_example =
    ingest_decision-repeat nod refusal gated after_nod nod_answer refl refl nod_answered (inl refl)

body_found : first (λ (d : Delivery). d.id == 21) gated.deliveries ≡ some body
unfolding first
body_found = refl

void_gated_body-voids_iff_example :
    (verdict (void_gated_body 50 21 gated.deliveries) ≡ some true) ↔ IsVoidable body
void_gated_body-voids_iff_example =
    void_gated_body-voids_iff 50 21 gated.deliveries body gated-IsSound body_found

abbrev parked : Delivery
parked = record body {
  status = Status.dead_lettered;
  release_state = some ReleaseState.released;
  dead_letter_reason = some DeadLetterReason.delivery_attempts_exhausted;
}

parked-IsSound : All IsSound (parked ∷ [])
unfolding checks
parked-IsSound = (
  record {
    checked = refl;
    gate_agrees = refl;
    awaits_receipt = λ e. absurd (cc);
    acknowledged = λ e. absurd (cc);
    gated = refl;
  },
  tt,
)

parked_found : first (λ (d : Delivery). d.id == 21) (parked ∷ []) ≡ some parked
unfolding first
parked_found = refl

void_gated_body-dead_lettered_example : void_gated_body 50 21 (parked ∷ []) ≡ Voiding.check_violated
void_gated_body-dead_lettered_example =
    void_gated_body-dead_lettered 50 21 (parked ∷ []) parked parked-IsSound parked_found refl refl
      refl
