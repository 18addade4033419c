-- ===== src/Reconciler/Laws.antt =====
-- The sweep keeps the table sound, and leaves no copy waiting past its deadline.
use ccj.Prelude.{ℕ, ◌≡◌, refl, true, false, List, arith}
use ccj.Config.{Settings}
use ccj.Models.{Delivery, SkipReason}
use ccj.Models.Checks.{checks}
use ccj.Models.Progress.{Step, Step-refl, Step-trans}
use ccj.Sql.Evolve.{All, All-updated, Evolves, Evolves-update, Evolves-trans}
use ccj.Deadlines.{expire_due_deliveries}
use ccj.Deadlines.Laws.{expire_due_deliveries-Evolves}
use ccj.Relay.Cascade.{skip}
use ccj.Relay.Cascade.Laws.{cascade_all-Evolves}
use ccj.Relay.Cascade.Closed.{cascade_all-All}
use ccj.Release.Gate.{sweep_expired_gates}
use ccj.Release.Gate.Laws.{sweep_expired_gates-Evolves}
use ccj.Reconciler.{
  is_overdue, time_out, Locks, sweep_limit, expire_delivery_deadlines, sweep_receipts, sweep_once,
}

time_out-Step :
    (cfg : Settings) (now : ℕ) (d : Delivery)
    → is_overdue now d ≡ true
    → Step d (time_out cfg now d)
unfolding is_overdue time_out checks
time_out-Step cfg now d e s = ground (arith, s.awaits_receipt)

pub expire_delivery_deadlines-Evolves :
    (now : ℕ) (locks : Locks) (rows : List Delivery)
    → Evolves Step rows (expire_delivery_deadlines now locks rows)
unfolding expire_delivery_deadlines
expire_delivery_deadlines-Evolves now locks rows =
    let r = expire_due_deliveries now sweep_limit locks.deliveries locks.by_body rows in
    Evolves-trans Step rows r.1 _ Step-trans
      (expire_due_deliveries-Evolves now sweep_limit locks.deliveries locks.by_body rows)
      (cascade_all-Evolves now r.0 r.1)

pub sweep_receipts-Evolves :
    (cfg : Settings) (now : ℕ) (rows : List Delivery)
    → Evolves Step rows (sweep_receipts cfg now rows).rows
unfolding sweep_receipts
sweep_receipts-Evolves cfg now rows =
    Evolves-update Step (is_overdue now) (time_out cfg now) rows Step-refl (time_out-Step cfg now)

-- One round of the sweep takes every sound row to a sound row that went on from it.
pub sweep_once-Evolves :
    (cfg : Settings) (now : ℕ) (locks : Locks) (rows : List Delivery)
    → Evolves Step rows (sweep_once cfg now locks rows).1
unfolding sweep_once
sweep_once-Evolves cfg now locks rows =
    let expired = expire_delivery_deadlines now locks rows in
    let gated = (sweep_expired_gates now sweep_limit locks.gates expired).1 in
    let swept = sweep_receipts cfg now gated in
    Evolves-trans Step rows expired _ Step-trans (expire_delivery_deadlines-Evolves now locks rows)
      (Evolves-trans Step expired gated _ Step-trans
        (sweep_expired_gates-Evolves now sweep_limit locks.gates expired)
        (Evolves-trans Step gated swept.rows _ Step-trans (sweep_receipts-Evolves cfg now gated)
          (cascade_all-Evolves now swept.relay_stopped swept.rows)))

-- not waiting past the deadline
abbrev pub IsCurrent : ℕ → Delivery → Type 0
IsCurrent now d = is_overdue now d ≡ false

skip-IsCurrent :
    (now at by : ℕ) (r : SkipReason) (d : Delivery)
    → IsCurrent now d
    → IsCurrent now (skip at by r d)
unfolding is_overdue skip
skip-IsCurrent now at by r d h = h

time_out-IsCurrent : (cfg : Settings) (now : ℕ) (d : Delivery) → IsCurrent now (time_out cfg now d)
unfolding is_overdue time_out
time_out-IsCurrent cfg now d = refl

swept-IsCurrent :
    (cfg : Settings) (now : ℕ) (rows : List Delivery)
    → All (IsCurrent now) (sweep_receipts cfg now rows).rows
unfolding sweep_receipts
swept-IsCurrent cfg now rows =
    All-updated (IsCurrent now) (is_overdue now) (time_out cfg now) rows
      (λ d e. time_out-IsCurrent cfg now d) (λ d e. e)

-- After a round no copy waits for a receipt past its deadline.
pub sweep_once-IsCurrent :
    (cfg : Settings) (now : ℕ) (locks : Locks) (rows : List Delivery)
    → All (IsCurrent now) (sweep_once cfg now locks rows).1
unfolding sweep_once
sweep_once-IsCurrent cfg now locks rows =
    let expired = expire_delivery_deadlines now locks rows in
    let gated = (sweep_expired_gates now sweep_limit locks.gates expired).1 in
    let swept = sweep_receipts cfg now gated in
    cascade_all-All (IsCurrent now) now (skip-IsCurrent now now) swept.relay_stopped swept.rows
      (swept-IsCurrent cfg now gated)
