-- ===== src/System.antt =====
-- The service between the postings of events, as a sequence of committed transactions: the worker (env/app/worker.py, `claim_next_event`
-- and `record_result`), the reconciler (env/app/reconciler.py, `sweep_once`), and the calls of the
-- addresses and of the operator (env/app/release.py, env/app/receipts.py, env/app/deadlines.py,
-- env/app/confirmation.py, env/app/main.py). The posting of events and of corrections, which adds
-- copies, is not a transaction here: see Ingest.
pub mod Laws
use ccj.Prelude.{ℕ, String, zero, suc, Bool, Option, none, some, List, [], ◌∷◌}
use ccj.Config.{Settings}
use ccj.Models.Tables.{Db}
use ccj.Deadlines.{update_event_deadline}
use ccj.Confirmation.{arm_round, apply_echo, expire_due_rounds}
use ccj.Release.Decision as Decision
use ccj.Release.Void.{void_gated_body}
use ccj.Release.Void.Laws.{rows_after}
use ccj.Receipts as Receipts
use ccj.Operator.{
  cancel_event, reschedule_event, requeue_delivery, revive_dead_letter, recover_destination,
}
use ccj.Operator.Bulk.{requeue_event_unreconciled, requeue_unreconciled}
use ccj.Operator.Bulk.Steps.{paused_db}
use ccj.Operator.Pause.{DestinationPauseIn, pause_destination, resume_destination}
use ccj.Operator.Laws.{replied_db}
use ccj.Reconciler as Reconciler
use ccj.Worker.Claim as Claiming
use ccj.Worker.Record as Recording
use ccj.Worker.Record.Rows.{Result}

-- The database, and the claims that workers hold or have held: a worker can come back late.
pub record State : Type 0 where
  pub db : Db
  pub claims : List Claiming.Claim

-- One transaction, with its arguments, its clock and the locks of others that it passes over.
pub data Op : Type 0 where
  claim : ℕ → ℕ → Claiming.Locks → Op
  result : ℕ → Recording.Times → Result → Bool → Op
  decision : Decision.Call → Op
  receipt : Receipts.Call → Op
  void : ℕ → ℕ → Op
  deadline : ℕ → ℕ → Option ℕ → Op
  arm : ℕ → String → ℕ → Bool → Op
  echo : ℕ → String → ℕ → String → Op
  rounds : ℕ → ℕ → (ℕ → Bool) → (ℕ → String) → Op
  sweep : ℕ → Reconciler.Locks → Op
  cancel : ℕ → ℕ → Op
  reschedule : ℕ → ℕ → Option ℕ → Op
  requeue : ℕ → ℕ → Op
  revive : ℕ → ℕ → Op
  recover : ℕ → ℕ → Op
  requeue_event : ℕ → ℕ → Op
  requeue_address : ℕ → ℕ → Op
  pause : ℕ → ℕ → DestinationPauseIn → Op
  resume : ℕ → Op

-- the claim with this number, if there is one
abbrev pub claim_no : ℕ → List Claiming.Claim → Option Claiming.Claim
claim_no n [] = none
claim_no zero (c ∷ cs) = some c
claim_no (suc n) (c ∷ cs) = claim_no n cs

abbrev pub with_claim : Option Claiming.Claim → List Claiming.Claim → List Claiming.Claim
with_claim none cs = cs
with_claim (some c) cs = c ∷ cs

-- what a transaction leaves: one that raised is rolled back
abbrev pub recorded_db : Db → Recording.Recorded → Db
recorded_db db (Recording.recorded b db') = db'
recorded_db db Recording.stale_claim = db

abbrev pub decided_db : Db → Decision.Outcome → Db
decided_db db (Decision.answered a db') = db'
decided_db db _ = db

abbrev pub record_claim :
    Settings → Recording.Times → Result → Bool → Option Claiming.Claim → Db → Db
record_claim cfg t r lost none db = db
record_claim cfg t r lost (some c) db = recorded_db db (Recording.record_result cfg t c r lost db)

unfoldable pub perform : Settings → Op → State → State
perform cfg (Op.claim now token locks) s =
    let (o, db) = Claiming.claim_next_event cfg now token locks s.db in
    record { db = db; claims = with_claim o s.claims }
perform cfg (Op.result n t r lost) s = record s {
  db = record_claim cfg t r lost (claim_no n s.claims) s.db;
}
perform cfg (Op.decision c) s = record s { db = decided_db s.db (Decision.ingest_decision c s.db) }
perform cfg (Op.receipt c) s = record s { db = (Receipts.ingest_receipt cfg c [] s.db).1 }
perform cfg (Op.void now i) s = record s {
  db = record s.db {
    deliveries = rows_after s.db.deliveries (void_gated_body now i s.db.deliveries);
  };
}
perform cfg (Op.deadline now i t) s = record s { db = (update_event_deadline now i t s.db).1 }
perform cfg (Op.arm now challenge i bump) s = record s {
  db = (arm_round cfg now challenge i bump s.db).1;
}
perform cfg (Op.echo now fresh i challenge) s = record s {
  db = (apply_echo cfg now fresh i challenge s.db).1;
}
perform cfg (Op.rounds now limit locked fresh) s = record s {
  db = expire_due_rounds cfg now limit locked fresh s.db;
}
perform cfg (Op.sweep now locks) s = record s {
  db = record s.db { deliveries = (Reconciler.sweep_once cfg now locks s.db.deliveries).1 };
}
perform cfg (Op.cancel now i) s = record s { db = replied_db s.db (cancel_event now i s.db) }
perform cfg (Op.reschedule now i t) s = record s {
  db = replied_db s.db (reschedule_event now i t s.db);
}
perform cfg (Op.requeue now i) s = record s { db = replied_db s.db (requeue_delivery now i s.db) }
perform cfg (Op.revive now i) s = record s { db = replied_db s.db (revive_dead_letter now i s.db) }
perform cfg (Op.recover now i) s = record s {
  db = replied_db s.db (recover_destination now i s.db);
}
perform cfg (Op.requeue_event now i) s = record s {
  db = replied_db s.db (requeue_event_unreconciled now i s.db);
}
perform cfg (Op.requeue_address now i) s = record s {
  db = replied_db s.db (requeue_unreconciled now i s.db);
}
perform cfg (Op.pause now i w) s = record s { db = paused_db s.db (pause_destination now i w s.db) }
perform cfg (Op.resume i) s = record s { db = replied_db s.db (resume_destination i s.db) }

unfoldable pub run : Settings → List Op → State → State
unfolding perform
run cfg [] s = s
run cfg (op ∷ ops) s = run cfg ops (perform cfg op s)
