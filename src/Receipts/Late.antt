-- ===== src/Receipts/Late.antt =====
-- A receipt after the deadline (`ingest_receipt` of env/app/receipts.py), and the sweep that comes
-- after it (SWEEP_SQL of env/app/reconciler.py).
use ccj.Prelude.{
  ℕ, String, ◌≡◌, refl, ◌∙◌, Bool, true, false, Option, some, List, arith, before, is_some, ◌==◌,
}
use ccj.Config.{Settings}
use ccj.Models.{Delivery, Status, ReconcileState, is_awaiting}
use ccj.Models.Tables.{Db}
use ccj.Sql.{first, update}
use ccj.Sql.Evolve.{first-update, Evolves-first}
use ccj.Relay.Cascade.Laws.{IsUntouched}
use ccj.Reconciler.{is_overdue}
use ccj.Receipts.{
  is_copy, mark_timed_out, Call, judge_awaiting, judge, stopped_rows, record_receipt, ingest_found,
  ingest_receipt, lock_delivery, wait_for_worker,
}
use ccj.Receipts.Matching.{stopped-IsUntouched}
use ccj.Receipts.Once.{untouched_copy}

-- the copy is delivered and timed out, and the sweep of the overdue copies passes over it at any time
pub record IsLeftOut (i : ℕ) (k : String) (rows : List Delivery) : Type 0 where
  pub copy : Delivery
  pub found : lock_delivery i k rows ≡ some copy
  pub still_delivered : copy.status ≡ Status.delivered
  pub timed_out : copy.reconcile_state ≡ ReconcileState.timed_out
  pub never_swept : (now : ℕ) → is_overdue now copy ≡ false

late_found :
    (c : Call) (d : Delivery) (rows : List Delivery)
    → first (is_copy c.destination_id c.dedupe_key) rows ≡ some d
    → first
        (is_copy c.destination_id c.dedupe_key)
        (update (λ x. x.id == d.id) (mark_timed_out c.now) rows)
      ≡ some (mark_timed_out c.now d)
unfolding is_copy mark_timed_out
late_found c d rows e =
    first-update (is_copy c.destination_id c.dedupe_key) (λ x. x.id == d.id) (mark_timed_out c.now)
      rows d (λ x. refl) e
    ∙ ground arith

-- the cascade leaves the copy as it is
late_stopped :
    (c : Call) (b : Bool) (d : Delivery) (rows : List Delivery)
    → d.status ≡ Status.delivered
    → first (is_copy c.destination_id c.dedupe_key) rows ≡ some d
    → IsLeftOut c.destination_id c.dedupe_key
        (stopped_rows c.now b (some d.id) (update (λ x. x.id == d.id) (mark_timed_out c.now) rows))
unfolding lock_delivery mark_timed_out is_overdue
late_stopped c b d rows s e =
    let marked = update (λ x. x.id == d.id) (mark_timed_out c.now) rows in
    let (y, found, same) =
      Evolves-first IsUntouched (is_copy c.destination_id c.dedupe_key) marked
        (stopped_rows c.now b (some d.id) marked) (mark_timed_out c.now d)
        (untouched_copy c.destination_id c.dedupe_key)
        (stopped-IsUntouched c.now b (some d.id) marked) (late_found c d rows e) in
    let whole = same.3 (ground arith) in
    record {
      copy = y;
      found = found;
      still_delivered = ground arith;
      timed_out = ground arith;
      never_swept = λ now. ground arith;
    }

late_judged :
    (cfg : Settings) (c : Call) (s : ReconcileState) (d : Delivery) (db : Db)
    → is_awaiting s ≡ true
    → before d.reconcile_deadline c.now ≡ true
    → d.status ≡ Status.delivered
    → first (is_copy c.destination_id c.dedupe_key) db.deliveries ≡ some d
    → IsLeftOut c.destination_id c.dedupe_key
        (record_receipt c (some d.id) (judge cfg c s d db.deliveries) db).1.deliveries
unfolding judge judge_awaiting record_receipt
late_judged cfg c ReconcileState.awaiting d db a l s e =
    rw l (late_stopped c (is_some d.relay_chain_id) d db.deliveries s e)
late_judged cfg c other d db a l s e = absurd (cc)

late_ingested :
    (cfg : Settings) (c : Call) (o : Option Delivery) (d : Delivery) (db : Db)
    → o ≡ some d
    → is_awaiting d.reconcile_state ≡ true
    → before d.reconcile_deadline c.now ≡ true
    → d.status ≡ Status.delivered
    → first (is_copy c.destination_id c.dedupe_key) db.deliveries ≡ some d
    → IsLeftOut c.destination_id c.dedupe_key (ingest_found cfg c o db).1.deliveries
unfolding ingest_found
late_ingested cfg c o d db q a l s e = rw q (late_judged cfg c d.reconcile_state d db a l s e)

-- A receipt after the deadline of a delivered copy that awaits one leaves the copy delivered and timed
-- out, however often it has been requeued, and no sweep after it takes the copy up.
pub ingest_receipt-IsLeftOut :
    (cfg : Settings) (c : Call) (reads : List (List Delivery)) (db : Db) (d : Delivery)
    → lock_delivery c.destination_id c.dedupe_key
        (wait_for_worker c.destination_id c.dedupe_key reads db.deliveries)
      ≡ some d
    → is_awaiting d.reconcile_state ≡ true
    → before d.reconcile_deadline c.now ≡ true
    → d.status ≡ Status.delivered
    → IsLeftOut c.destination_id c.dedupe_key (ingest_receipt cfg c reads db).1.deliveries
unfolding ingest_receipt lock_delivery
ingest_receipt-IsLeftOut cfg c reads db d e a l s =
    let rows = wait_for_worker c.destination_id c.dedupe_key reads db.deliveries in
    late_ingested cfg c (first (is_copy c.destination_id c.dedupe_key) rows) d
      (record db { deliveries = rows }) e a l s e
