-- ===== src/Release/Decision/Repeat.antt =====
-- Repeated answers: the first effective one decides, and the later ones change nothing.
use ccj.Prelude.{ℕ, ◌≡◌, ◌⊎◌, ◌∙◌, refl, Option, none, some, List, arith, ◌==◌, ap}
use ccj.Models.{Delivery, ReleaseState}
use ccj.Models.Tables.{Db, Decision, Disposition}
use ccj.Sql.{update, first}
use ccj.Sql.Evolve.{first-update}
use ccj.Release.Decision.{
  Answer, Outcome, Call, is_gate, deny_row, release_row, answer_body, no_body, answer_found,
  ingest_decision, same_as,
}
use ccj.Release.Decision.Laws.{deliveries_after, disposition_of}

-- the row that an effective answer writes
decision_row : Decision → ℕ → Delivery → Delivery
decision_row Decision.approve now = release_row now
decision_row Decision.deny now = deny_row now

abbrev pub IsEffective : Outcome → Type 0
IsEffective o =
    (disposition_of o ≡ some Disposition.released) ⊎ (disposition_of o ≡ some Disposition.denied)

effect :
    (o : Option ReleaseState) (c : Call) (body : Delivery) (db : Db)
    → IsEffective (answer_body o c body db)
    → deliveries_after db (answer_body o c body db)
      ≡ update (λ d. d.id == body.id) (decision_row c.decision c.now) db.deliveries
unfolding answer_body decision_row
effect none c body db h = ground arith
effect (some s) c body db h = ground arith

decision_row-is_gate :
    (dec : Decision) (now e i : ℕ) (d : Delivery)
    → is_gate e i (decision_row dec now d) ≡ is_gate e i d
unfolding is_gate decision_row deny_row release_row
decision_row-is_gate Decision.approve now e i d = refl
decision_row-is_gate Decision.deny now e i d = refl

-- a later answer finds the body decided
later_answer :
    (c : Call) (dec : Decision) (now : ℕ) (body : Delivery) (db : Db)
    → (disposition_of
          (answer_body (decision_row dec now body).release_state c (decision_row dec now body) db)
        ≡ some (same_as dec c.decision))
      × (deliveries_after db
            (answer_body (decision_row dec now body).release_state c (decision_row dec now body) db)
          ≡ db.deliveries)
unfolding answer_body decision_row deny_row release_row
later_answer c Decision.approve now body db = (refl, refl)
later_answer c Decision.deny now body db = (refl, refl)

no_effect : (c : Call) (db : Db) → ¬ IsEffective (no_body c db)
unfolding no_body
no_effect c db h = ground arith

gate_after :
    (c : Call) (body : Delivery) (db : Db) (rows : List Delivery)
    → first (is_gate c.event_id c.destination_id) db.deliveries ≡ some body
    → rows ≡ update (λ d. d.id == body.id) (decision_row c.decision c.now) db.deliveries
    → first (is_gate c.event_id c.destination_id) rows ≡ some (decision_row c.decision c.now body)
gate_after c body db rows e r =
    ap (first (is_gate c.event_id c.destination_id)) r
    ∙ first-update (is_gate c.event_id c.destination_id) (λ d. d.id == body.id)
        (decision_row c.decision c.now) db.deliveries body
        (decision_row-is_gate c.decision c.now c.event_id c.destination_id) e
    ∙ ground arith

-- the gate of the second call, if it is for the same event and address
gate_of_second :
    (c c' : Call) (rows : List Delivery) (o : Option Delivery)
    → c'.event_id ≡ c.event_id
    → c'.destination_id ≡ c.destination_id
    → first (is_gate c.event_id c.destination_id) rows ≡ o
    → first (is_gate c'.event_id c'.destination_id) rows ≡ o
gate_of_second c c' rows o p q e = rw (p, q) e

module _ (c c' : Call) (db db' : Db) (a : Answer) where
  abbrev Repeats : Outcome → Type 0
  Repeats o =
      (disposition_of o ≡ some (same_as c.decision c'.decision))
      × (deliveries_after db' o ≡ db'.deliveries)

  found_repeat :
      (o : Option Delivery)
      → c'.event_id ≡ c.event_id
      → c'.destination_id ≡ c.destination_id
      → first (is_gate c.event_id c.destination_id) db.deliveries ≡ o
      → answer_found o c db ≡ Outcome.answered a db'
      → (a.disposition ≡ Disposition.released) ⊎ (a.disposition ≡ Disposition.denied)
      → Repeats (answer_found (first (is_gate c'.event_id c'.destination_id) db'.deliveries) c' db')
  unfolding answer_found
  found_repeat none p q e h eff = absurd (no_effect c db (ground arith))
  found_repeat (some body) p q e h eff =
      let o = answer_body body.release_state c body db in
      let rows : db'.deliveries
          ≡ update (λ d. d.id == body.id) (decision_row c.decision c.now) db.deliveries =
        ground (arith, effect body.release_state c body db) in
      rw (gate_of_second c c' db'.deliveries _ p q (gate_after c body db db'.deliveries e rows))
        (later_answer c' c.decision c.now body db')

  -- After an effective answer of an address about an event, its next answer is a duplicate if it
  -- says the same and a conflict if not, and leaves every delivery as it is.
  pub ingest_decision-repeat :
      c'.event_id ≡ c.event_id
      → c'.destination_id ≡ c.destination_id
      → ingest_decision c db ≡ Outcome.answered a db'
      → (a.disposition ≡ Disposition.released) ⊎ (a.disposition ≡ Disposition.denied)
      → Repeats (ingest_decision c' db')
  unfolding ingest_decision
  ingest_decision-repeat p q h eff =
      found_repeat (first (is_gate c.event_id c.destination_id) db.deliveries) p q refl h eff
