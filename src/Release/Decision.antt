-- ===== src/Release/Decision.antt =====
-- `ingest_decision` of env/app/release.py: one address's answer to one preview.
pub mod Laws
pub mod Final
pub mod Repeat
use ccj.Prelude.{
  ℕ, Bool, true, false, Option, none, some, List, [], ◌∷◌, ◌++◌, ◌&&◌, ltb, ◌==◌, if◌then◌else◌,
}
use ccj.Models.{Delivery, Phase, Status, ReleaseState, is_pending, is_body}
use ccj.Models.Tables.{Db, Event, Decision, Disposition, AnswerReason, GateDecision}
use ccj.Sql.{update, first, exists}
use ccj.Release.Gate.{expire_gate}

-- `_decision_response`; an orphan's answer has no delivery id.
pub record Answer : Type 0 where
  pub delivery_id : Option ℕ
  pub disposition : Disposition
  pub release_state : Option ReleaseState

-- What the call gives: an answer and the committed database, the `ConsentError` 404, or an error of
-- the database that nobody catches, after which the transaction is rolled back.
pub data Outcome : Type 0 where
  answered : Answer → Db → Outcome
  event_not_found : Outcome
  crashed : Outcome

-- the SELECT that locks the body
unfoldable pub is_gate : ℕ → ℕ → Delivery → Bool
is_gate event_id destination_id d =
    d.event_id == event_id && (d.destination_id == destination_id && is_body d.phase)

unfoldable pub deny_row : ℕ → Delivery → Delivery
deny_row now d = record d {
  release_state = some ReleaseState.release_denied;
  status = Status.release_denied;
  voided_at = some now;
  updated_at = now;
}

unfoldable pub release_row : ℕ → Delivery → Delivery
release_row now d = record d {
  release_state = some ReleaseState.released;
  released_at = some now;
  updated_at = now;
}

-- The arguments of one call, at one time.
pub record Call : Type 0 where
  pub now : ℕ
  pub destination_id : ℕ
  pub event_id : ℕ
  pub decision : Decision

-- `record()`
abbrev pub with_record : Call → Option ℕ → Disposition → Option AnswerReason → Db → Db
with_record c applied disposition reason db = record db {
  gate_decisions =
      db.gate_decisions
      ++ (record {
        destination_id = c.destination_id;
        event_id = c.event_id;
        delivery_id = applied;
        decision = c.decision;
        disposition = disposition;
        reason = reason;
      }
          ∷ []);
}

-- An answer that changes no delivery: the unique slot stays free.
unfoldable pub noted :
    Call → Delivery → Disposition → Option AnswerReason → Option ReleaseState → Db → Outcome
noted c body disposition reason state db =
    answered
      (record { delivery_id = some body.id; disposition = disposition; release_state = state })
      (with_record c none disposition reason db)

-- An answer that rewrites the body's row.
unfoldable pub applied_to :
    Call
    → Delivery
    → Option ℕ
    → Disposition
    → Option AnswerReason
    → ReleaseState
    → (Delivery → Delivery)
    → Db
    → Outcome
applied_to c body applied disposition reason state f db =
    answered
      (record { delivery_id = some body.id; disposition = disposition; release_state = some state })
      (with_record c applied disposition reason
        (record db { deliveries = update (λ d. d.id == body.id) f db.deliveries }))

-- deadline is None or now > deadline
abbrev pub nod_late : Option ℕ → ℕ → Bool
nod_late none now = true
nod_late (some t) now = ltb t now

-- the two effective answers
unfoldable pub apply_decision : Decision → Call → Delivery → Db → Outcome
unfolding applied_to deny_row release_row
apply_decision Decision.deny c body =
    applied_to c body (some body.id) Disposition.denied none ReleaseState.release_denied
      (deny_row c.now)
apply_decision Decision.approve c body =
    applied_to c body (some body.id) Disposition.released none ReleaseState.released
      (release_row c.now)

-- The preview has arrived: the deadline decides, even before the sweep has run.
unfoldable pub answer_in_time : Call → Delivery → Db → Outcome
unfolding apply_decision
answer_in_time c body db =
    if nod_late body.consent_deadline c.now
    then applied_to c body none Disposition.late_ignored (some AnswerReason.deadline_passed)
        ReleaseState.release_expired (expire_gate c.now) db
    else apply_decision c.decision c body db

unfoldable pub answer_preview : Option ℕ → Call → Delivery → Delivery → Db → Outcome
unfolding answer_in_time noted
answer_preview none c body preview db =
    noted c body Disposition.preview_not_delivered
      (some (AnswerReason.preview_status preview.status)) body.release_state db
answer_preview (some t) c body preview db = answer_in_time c body db

-- the row that `.one()` gives; with none, it raises
unfoldable pub with_found : Option Delivery → Call → Delivery → Db → Outcome
unfolding answer_preview
with_found none c body db = crashed
with_found (some preview) c body db = answer_preview preview.delivered_at c body preview db

-- The SELECT of the preview. With no preview id, the text 'None' is no UUID, and the CAST fails.
unfoldable pub with_preview : Option ℕ → Call → Delivery → Db → Outcome
unfolding with_found
with_preview none c body db = crashed
with_preview (some i) c body db =
    with_found (first (λ (d : Delivery). d.id == i) db.deliveries) c body db

abbrev pub same_as : Decision → Decision → Disposition
same_as Decision.approve Decision.approve = Disposition.duplicate
same_as Decision.deny Decision.deny = Disposition.duplicate
same_as _ _ = Disposition.conflict

-- The answer to a body, by its release state. A body of an event that is not gated has none, and
-- goes on like a held one.
unfoldable pub answer_body : Option ReleaseState → Call → Delivery → Db → Outcome
unfolding with_preview noted
answer_body (some ReleaseState.released) c body =
    noted c body (same_as Decision.approve c.decision) none body.release_state
answer_body (some ReleaseState.release_denied) c body =
    noted c body (same_as Decision.deny c.decision) none body.release_state
answer_body (some ReleaseState.release_expired) c body =
    noted c body Disposition.late_ignored
      (some (AnswerReason.body_already_closed ReleaseState.release_expired)) body.release_state
answer_body (some ReleaseState.release_voided) c body =
    noted c body Disposition.late_ignored
      (some (AnswerReason.body_already_closed ReleaseState.release_voided)) body.release_state
answer_body (some ReleaseState.deadline_expired) c body =
    noted c body Disposition.late_ignored
      (some (AnswerReason.body_already_closed ReleaseState.deadline_expired)) body.release_state
answer_body _ c body = λ db.
    if is_pending body.status
    then with_preview body.preview_delivery_id c body db
    else noted c body Disposition.late_ignored (some (AnswerReason.body_already_in body.status))
        body.release_state db

unfoldable pub no_body : Call → Db → Outcome
no_body c db =
    if exists (λ (e : Event). e.id == c.event_id) db.events
    then answered
        (record { delivery_id = none; disposition = Disposition.orphan; release_state = none })
        (with_record c none Disposition.orphan (some AnswerReason.no_gated_body) db)
    else event_not_found

unfoldable pub answer_found : Option Delivery → Call → Db → Outcome
unfolding answer_body no_body
answer_found none c = no_body c
answer_found (some body) c = answer_body body.release_state c body

unfoldable pub ingest_decision : Call → Db → Outcome
unfolding answer_found
ingest_decision c db = answer_found (first (is_gate c.event_id c.destination_id) db.deliveries) c db
