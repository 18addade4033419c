-- ===== src/System/Laws.antt =====
-- What every sequence of the transactions of `Op` keeps. The posting of events is not among them.
use ccj.Prelude.{
  arith, ℕ, Bool, subst, zero, suc, ◌≡◌, refl, ◌∙◌, sym, Option, none, some, List, [], ◌∷◌,
}
use ccj.Config.{Settings}
use ccj.Models.{Delivery}
use ccj.Models.Tables.{Db}
use ccj.Models.Checks.{IsSound}
use ccj.Models.Keys.{IsKeyed, Evolves-IsKeyed}
use ccj.Models.Progress.{Step, Step-refl, Progress, Progress-refl, Progress-trans, Evolves-IsSound}
use ccj.Sql.Evolve.{All, Evolves, Evolves-refl, Evolves-trans}
use ccj.Deadlines.Laws.{update_event_deadline-Evolves}
use ccj.Confirmation.Laws.{arm_round-Evolves, apply_echo-Evolves, expire_due_rounds-Evolves}
use ccj.Release.Decision as Decision
use ccj.Release.Decision.Laws as Decided
use ccj.Release.Decision.Final.{ingest_decision-Evolves}
use ccj.Release.Void.Laws.{void_gated_body-Evolves}
use ccj.Receipts.Laws.{ingest_receipt-Evolves}
use ccj.Operator.Laws.{
  cancel_event-Evolves, reschedule_event-Evolves, requeue_delivery-Evolves,
  revive_dead_letter-Evolves, recover_destination-Evolves,
}
use ccj.Reconciler.Laws.{sweep_once-Evolves}
use ccj.Worker.Claim.{Claim, Locks, claim_next_event, run_claim, clear_queue}
use ccj.Worker.Claim.Laws.{HasPhase, clear_queue-Evolves, run_claim-Evolves, run_claim-HasPhase}
use ccj.Worker.Record as Recording
use ccj.Worker.Record.Laws as Recorded
use ccj.Worker.Record.Rows.{Result}
use ccj.Receipts.{wait_for_worker}
use ccj.Operator.Bulk.Steps.{
  requeue_event_unreconciled-Evolves, requeue_unreconciled-Evolves, pause_destination-Evolves,
  resume_destination-Evolves,
}
use ccj.System.{
  State, Op, claim_no, with_claim, record_claim, recorded_db, decided_db, perform, run,
}

-- Keys are unique, every row is sound, and the claims that workers hold are of rows that are there.
pub record IsValid (s : State) : Type 0 where
  pub keyed : IsKeyed s.db.deliveries
  pub sound : All IsSound s.db.deliveries
  pub held : All (HasPhase s.db.deliveries) s.claims

claim_no-HasPhase :
    (rows : List Delivery) (n : ℕ) (cs : List Claim) (c : Claim)
    → All (HasPhase rows) cs
    → claim_no n cs ≡ some c
    → HasPhase rows c
claim_no-HasPhase rows n [] c h e = absurd (cc)
claim_no-HasPhase rows zero (x ∷ xs) c h e =
    let same : x ≡ c = ground arith in subst (HasPhase rows) same h.0
claim_no-HasPhase rows (suc n) (x ∷ xs) c h e = claim_no-HasPhase rows n xs c h.1 e

recorded_rows :
    (db : Db) (o : Recording.Recorded)
    → (recorded_db db o).deliveries ≡ Recorded.deliveries_after db o
recorded_rows db (Recording.recorded b db') = refl
recorded_rows db Recording.stale_claim = refl

decided_rows :
    (db : Db) (o : Decision.Outcome) → (decided_db db o).deliveries ≡ Decided.deliveries_after db o
decided_rows db (Decision.answered a db') = refl
decided_rows db Decision.event_not_found = refl
decided_rows db Decision.crashed = refl

result-Evolves :
    (cfg : Settings) (t : Recording.Times) (r : Result) (lost : Bool) (o : Option Claim) (db : Db)
    → ((c : Claim) → o ≡ some c → HasPhase db.deliveries c)
    → Evolves Step db.deliveries (record_claim cfg t r lost o db).deliveries
result-Evolves cfg t r lost none db p = Evolves-refl Step db.deliveries Step-refl
result-Evolves cfg t r lost (some c) db p =
    rw (recorded_rows db (Recording.record_result cfg t c r lost db))
      (Recorded.record_result-Evolves cfg t c r lost db (p c refl))

claims-Evolve :
    (rows rows' : List Delivery) (c : Claim)
    → Evolves Progress rows rows'
    → HasPhase rows c
    → HasPhase rows' c
claims-Evolve [] [] c e h = tt
claims-Evolve [] (y ∷ ys) c e h = absurd e
claims-Evolve (x ∷ xs) [] c e h = absurd e
claims-Evolve (x ∷ xs) (y ∷ ys) c e h =
    ((λ q. e.0.same_phase ∙ h.0 (sym e.0.same_id ∙ q)), claims-Evolve xs ys c e.1 h.1)

All-claims-Evolve :
    (rows rows' : List Delivery) (cs : List Claim)
    → Evolves Progress rows rows'
    → All (HasPhase rows) cs
    → All (HasPhase rows') cs
All-claims-Evolve rows rows' [] e h = tt
All-claims-Evolve rows rows' (c ∷ cs) e h =
    (claims-Evolve rows rows' c e h.0, All-claims-Evolve rows rows' cs e h.1)

-- A transaction that takes the rows on, and hands out no claim, keeps the state valid.
IsValid-after :
    (db db' : Db) (cs : List Claim)
    → IsValid (record { db = db; claims = cs })
    → Evolves Step db.deliveries db'.deliveries
    → IsValid (record { db = db'; claims = cs }) × Evolves Progress db.deliveries db'.deliveries
IsValid-after db db' cs v e =
    let (sound, goes) = Evolves-IsSound db.deliveries db'.deliveries e v.sound in
    (
      record {
        keyed =
            Evolves-IsKeyed Progress db.deliveries db'.deliveries (λ d d' p. p.same_id) goes
              v.keyed;
        sound = sound;
        held = All-claims-Evolve db.deliveries db'.deliveries cs goes v.held;
      },
      goes,
    )

-- the state after a transaction, and how its rows went on
abbrev GoesOn : State → State → Type 0
GoesOn s s' = IsValid s' × Evolves Progress s.db.deliveries s'.db.deliveries

with_new :
    (db : Db) (o : Option Claim) (cs : List Claim)
    → ((c : Claim) → o ≡ some c → HasPhase db.deliveries c)
    → IsValid (record { db = db; claims = cs })
    → IsValid (record { db = db; claims = with_claim o cs })
with_new db none cs p v = v
with_new db (some c) cs p v = record { keyed = v.keyed; sound = v.sound; held = (p c refl, v.held) }

claim-GoesOn :
    (cfg : Settings) (now token : ℕ) (locks : Locks) (s : State)
    → IsValid s
    → GoesOn s (perform cfg (Op.claim now token locks) s)
unfolding perform claim_next_event
claim-GoesOn cfg now token locks s v =
    let rows = clear_queue now locks s.db.destinations s.db.deliveries in
    let db₁ = record s.db { deliveries = rows } in
    let (v₁, e₁) =
      IsValid-after s.db db₁ s.claims v
        (clear_queue-Evolves now locks s.db.destinations s.db.deliveries) in
    let (o, db₂) = run_claim cfg now token locks db₁ in
    let (v₂, e₂) =
      IsValid-after db₁ (run_claim cfg now token locks db₁).1 s.claims v₁
        (run_claim-Evolves cfg now token locks db₁ v₁.keyed) in
    (
      with_new (run_claim cfg now token locks db₁).1 (run_claim cfg now token locks db₁).0 s.claims
          (λ c e.
            claims-Evolve rows (run_claim cfg now token locks db₁).1.deliveries c e₂
              (run_claim-HasPhase cfg now token locks db₁ c v₁.keyed e))
          v₂,
      Evolves-trans Progress s.db.deliveries rows _ (λ x y z. Progress-trans) e₁ e₂,
    )

perform-GoesOn : (cfg : Settings) (op : Op) (s : State) → IsValid s → GoesOn s (perform cfg op s)
unfolding perform
perform-GoesOn cfg (Op.claim now token locks) s v = claim-GoesOn cfg now token locks s v
perform-GoesOn cfg (Op.result n t r lost) s v = IsValid-after s.db _ s.claims v (
    result-Evolves cfg t r lost (claim_no n s.claims) s.db
      (λ c e. claim_no-HasPhase s.db.deliveries n s.claims c v.held e))
perform-GoesOn cfg (Op.decision c) s v = IsValid-after s.db _ s.claims v (
    rw (decided_rows s.db (Decision.ingest_decision c s.db))
      (ingest_decision-Evolves c s.db v.keyed))
perform-GoesOn cfg (Op.receipt c) s v =
    IsValid-after s.db _ s.claims v
      (unfold wait_for_worker in ingest_receipt-Evolves cfg c [] s.db v.keyed)
perform-GoesOn cfg (Op.void now i) s v =
    IsValid-after s.db _ s.claims v (void_gated_body-Evolves now i s.db.deliveries v.keyed)
perform-GoesOn cfg (Op.deadline now i t) s v =
    IsValid-after s.db _ s.claims v (update_event_deadline-Evolves now i t s.db)
perform-GoesOn cfg (Op.arm now challenge i bump) s v =
    IsValid-after s.db _ s.claims v (arm_round-Evolves cfg now challenge i bump s.db)
perform-GoesOn cfg (Op.echo now fresh i challenge) s v =
    IsValid-after s.db _ s.claims v (apply_echo-Evolves cfg now fresh i challenge s.db)
perform-GoesOn cfg (Op.rounds now limit locked fresh) s v =
    IsValid-after s.db _ s.claims v (expire_due_rounds-Evolves cfg now limit locked fresh s.db)
perform-GoesOn cfg (Op.sweep now locks) s v =
    IsValid-after s.db _ s.claims v (sweep_once-Evolves cfg now locks s.db.deliveries)
perform-GoesOn cfg (Op.cancel now i) s v =
    IsValid-after s.db _ s.claims v (cancel_event-Evolves now i s.db)
perform-GoesOn cfg (Op.reschedule now i t) s v =
    IsValid-after s.db _ s.claims v (reschedule_event-Evolves now i t s.db)
perform-GoesOn cfg (Op.requeue now i) s v =
    IsValid-after s.db _ s.claims v (requeue_delivery-Evolves now i s.db)
perform-GoesOn cfg (Op.revive now i) s v =
    IsValid-after s.db _ s.claims v (revive_dead_letter-Evolves now i s.db)
perform-GoesOn cfg (Op.recover now i) s v =
    IsValid-after s.db _ s.claims v (recover_destination-Evolves now i s.db)
perform-GoesOn cfg (Op.requeue_event now i) s v =
    IsValid-after s.db _ s.claims v (requeue_event_unreconciled-Evolves now i s.db)
perform-GoesOn cfg (Op.requeue_address now i) s v =
    IsValid-after s.db _ s.claims v (requeue_unreconciled-Evolves now i s.db)
perform-GoesOn cfg (Op.pause now i w) s v =
    IsValid-after s.db _ s.claims v (pause_destination-Evolves now i w s.db)
perform-GoesOn cfg (Op.resume i) s v =
    IsValid-after s.db _ s.claims v (resume_destination-Evolves i s.db)

-- From a valid state, every sequence of the transactions of `Op` (those of the worker, the reconciler,
-- the addresses and the operator, without postings), in any order, ends in a valid state: keys are
-- unique, every row satisfies the table's constraints and agrees with its gate, and only delivered
-- copies await a receipt or are acknowledged.
pub run-IsValid : (cfg : Settings) (ops : List Op) (s : State) → IsValid s → IsValid (run cfg ops s)
unfolding run
run-IsValid cfg [] s v = v
run-IsValid cfg (op ∷ ops) s v =
    run-IsValid cfg ops (perform cfg op s) (perform-GoesOn cfg op s v).0

-- Between the postings of events and corrections, which add copies and are no transactions of `Op`: from
-- a valid state, no sequence of the transactions of `Op` (those of the worker, the reconciler, the
-- addresses and the operator) takes a row away or adds one, changes what a copy is (its event, address,
-- key, payload, place, gate and station), takes back a closed gate or a closed copy, forgets that a copy
-- was delivered, takes back an acknowledged receipt, or lowers its attempts.
pub run-Progress :
    (cfg : Settings) (ops : List Op) (s : State)
    → IsValid s
    → Evolves Progress s.db.deliveries (run cfg ops s).db.deliveries
unfolding run
run-Progress cfg [] s v = Evolves-refl Progress s.db.deliveries Progress-refl
run-Progress cfg (op ∷ ops) s v =
    let (v', e) = perform-GoesOn cfg op s v in
    Evolves-trans Progress s.db.deliveries (perform cfg op s).db.deliveries _
      (λ x y z. Progress-trans) e (run-Progress cfg ops (perform cfg op s) v')
