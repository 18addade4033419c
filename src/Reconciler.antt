-- ===== src/Reconciler.antt =====
-- env/app/reconciler.py: the sweep that closes what has waited too long.
pub mod Laws
use ccj.Prelude.{
  ℕ, ◌+◌, Bool, true, false, Option, none, some, List, [], ◌∷◌, ◌&&◌, ◌||◌, not, map, before,
  is_some, leb, if◌then◌else◌,
}
use ccj.Config.{Settings}
use ccj.Models.{Delivery, Status, ReconcileState, DeadLetterReason, is_awaiting}
use ccj.Models.Tables.{Db}
use ccj.Sql.{update, count_where, where_rows}
use ccj.Deadlines.{expire_due_deliveries}
use ccj.Relay.Cascade.{cascade_all}
use ccj.Release.Gate.{sweep_expired_gates}

-- the CTE `expired` of SWEEP_SQL
unfoldable pub is_overdue : ℕ → Delivery → Bool
is_overdue now d = is_awaiting d.reconcile_state && before d.reconcile_deadline now

abbrev pub is_exhausted : Settings → Delivery → Bool
is_exhausted cfg d = leb cfg.max_requeue_cycles d.requeue_count

-- the CTE `swept`
unfoldable pub time_out : Settings → ℕ → Delivery → Delivery
time_out cfg now d =
    let exhausted = is_exhausted cfg d in
    record d {
      reconcile_state = ReconcileState.timed_out;
      status = if exhausted then Status.dead_lettered else d.status;
      dead_letter_reason =
          if exhausted
          then some DeadLetterReason.receipt_timeout_exhausted
          else d.dead_letter_reason;
      dead_lettered_at = if exhausted then some now else d.dead_lettered_at;
      updated_at = now;
    }

-- What other transactions hold while the two sweeps with SKIP LOCKED run, and the rows on which the
-- close of a body wins over its own expiry (`expire_due_deliveries`).
pub record Locks : Type 0 where
  pub deliveries : ℕ → Bool
  pub by_body : ℕ → Bool
  pub gates : ℕ → Bool

-- the default of the two sweeps
abbrev pub sweep_limit : ℕ
sweep_limit = 500

unfoldable pub expire_delivery_deadlines : ℕ → Locks → List Delivery → List Delivery
expire_delivery_deadlines now locks rows =
    let (ids, rows') = expire_due_deliveries now sweep_limit locks.deliveries locks.by_body rows in
    (cascade_all now ids rows').1

-- SWEEP_SQL: the two counts, the relay rows that it wrote, and the table
pub record Swept : Type 0 where
  pub timed_out : ℕ
  pub dead_lettered : ℕ
  pub relay_stopped : List ℕ
  pub rows : List Delivery

unfoldable pub sweep_receipts : Settings → ℕ → List Delivery → Swept
sweep_receipts cfg now rows = record {
  timed_out = count_where (λ d. is_overdue now d && not (is_exhausted cfg d)) rows;
  dead_lettered = count_where (λ d. is_overdue now d && is_exhausted cfg d) rows;
  relay_stopped =
      map (λ (d : Delivery). d.id)
        (where_rows (λ (d : Delivery). is_overdue now d && is_some d.relay_chain_id) rows);
  rows = update (is_overdue now) (time_out cfg now) rows;
}

-- One round. An error of the database rolls it back, and the next round tries again.
unfoldable pub sweep_once : Settings → ℕ → Locks → List Delivery → (ℕ × ℕ) × List Delivery
sweep_once cfg now locks rows =
    let expired = expire_delivery_deadlines now locks rows in
    let gated = (sweep_expired_gates now sweep_limit locks.gates expired).1 in
    let swept = sweep_receipts cfg now gated in
    ((swept.timed_out, swept.dead_lettered), (cascade_all now swept.relay_stopped swept.rows).1)
