-- ===== src/Release/Decision/Laws.antt =====
-- The answer to a preview: when it releases the body, and what stays as it was.
use ccj.Prelude.{ℕ, ◌≤◌, ◌≡◌, true, Option, none, some, List, is_some, ◌==◌}
use ccj.Models.{Delivery, Status, ReleaseState}
use ccj.Models.Tables.{Db, Decision, Disposition}
use ccj.Sql.{first}
use ccj.Release.Decision.{Outcome, Call, is_gate}

-- the deliveries after a call; a call with no answer is rolled back
abbrev pub deliveries_after : Db → Outcome → List Delivery
deliveries_after db (Outcome.answered a db') = db'.deliveries
deliveries_after db _ = db.deliveries

abbrev pub disposition_of : Outcome → Option Disposition
disposition_of (Outcome.answered a db') = some a.disposition
disposition_of _ = none

-- What it takes to release a body.
pub record MayRelease (c : Call) (db : Db) : Type 0 where
  pub body : Delivery
  pub preview : Delivery
  pub deadline : ℕ
  pub preview_id : ℕ
  pub gate_found : first (is_gate c.event_id c.destination_id) db.deliveries ≡ some body
  pub body_held : body.release_state ≡ some ReleaseState.held
  pub body_queued : body.status ≡ Status.pending
  pub linked_to : body.preview_delivery_id ≡ some preview_id
  pub preview_found : first (λ (d : Delivery). d.id == preview_id) db.deliveries ≡ some preview
  pub preview_arrived : is_some preview.delivered_at ≡ true
  pub deadline_set : body.consent_deadline ≡ some deadline
  pub in_time : c.now ≤ deadline
  pub approved : c.decision ≡ Decision.approve

abbrev Releases : Outcome → Type 0
Releases o = disposition_of o ≡ some Disposition.released
