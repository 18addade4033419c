-- ===== src/Receipts/Laws.antt =====
-- The statements of a receipt, row by row.
use ccj.Prelude.{
  ℕ, ◌≡◌, Bool, true, false, Option, none, some, List, arith, ◌==◌, Bool-cases, inl, inr, ◌&&◌,
  before, ◌||◌, refl,
}
use ccj.Config.{Settings}
use ccj.Models.{Delivery, ReconcileState, ReceiptResult, is_delivered, is_awaiting, is_acknowledged}
use ccj.Models.Tables.{Db}
use ccj.Models.Checks.{checks}
use ccj.Models.Progress.{Step, Step-refl, Step-trans}
use ccj.Sql.{update}
use ccj.Sql.Evolve.{All, Evolves, Evolves-refl, Evolves-trans, Evolves-update_within, All-updated}
use ccj.Relay.Cascade.Laws.{cascade_after_stop-Evolves}
use ccj.Receipts.{
  is_failure, apply_receipt, mark_timed_out, park_failed, may_park, Call, apply_in_time,
  judge_awaiting, judge, stopped_rows, record_receipt, ingest_found, ingest_receipt, lock_delivery,
  wait_for_worker, is_unset, is_copy,
}
use ccj.Models.Keys.{IsKeyed, IsOnly, first-IsOnly, Evolves-update_only}

-- the copy waits for a receipt, or was delivered and never entered reconciliation
abbrev MayAnswer : ReconcileState → Delivery → Type 0
MayAnswer s d = (is_awaiting s || (is_unset s && is_delivered d.status)) ≡ true

apply_receipt-Step :
    (now i : ℕ) (r : ReceiptResult) (d : Delivery)
    → MayAnswer d.reconcile_state d
    → Step d (apply_receipt now i r d)
unfolding apply_receipt checks
apply_receipt-Step now i r d a s = ground arith

mark_timed_out-Step :
    (now : ℕ) (d : Delivery) → is_awaiting d.reconcile_state ≡ true → Step d (mark_timed_out now d)
unfolding mark_timed_out checks
mark_timed_out-Step now d a s = ground arith

-- a copy that a failure was applied to neither waits for a receipt nor is acknowledged
abbrev IsRefused : ℕ → Delivery → Type 0
IsRefused i d =
    d.id ≡ i → (is_awaiting d.reconcile_state || is_acknowledged d.reconcile_state) ≡ false

applied-IsRefused :
    (now i j : ℕ) (r : ReceiptResult) (rows : List Delivery)
    → is_failure r ≡ true
    → All (IsRefused i) (update (λ d. d.id == i) (apply_receipt now j r) rows)
unfolding apply_receipt
applied-IsRefused now i j r rows f =
    All-updated (IsRefused i) (λ d. d.id == i) (apply_receipt now j r) rows (λ d e q. ground arith)
      (λ d e q. ground arith)

park_failed-Step :
    (cfg : Settings) (now i : ℕ) (d : Delivery)
    → (d.id == i && may_park cfg d) ≡ true
    → IsRefused i d
    → Step d (park_failed now d)
unfolding park_failed may_park checks
park_failed-Step cfg now i d e a s = ground (arith, a (ground arith))

apply-Evolves :
    (c : Call) (d : Delivery) (rows : List Delivery)
    → All (IsOnly d) rows
    → MayAnswer d.reconcile_state d
    → Evolves Step rows
        (update (λ x. x.id == d.id) (apply_receipt c.now c.receipt_id c.result) rows)
apply-Evolves c d rows only a =
    Evolves-update_only Step d (apply_receipt c.now c.receipt_id c.result) rows Step-refl
      (apply_receipt-Step c.now c.receipt_id c.result d a) only

apply_in_time-Evolves :
    (cfg : Settings) (c : Call) (d : Delivery) (rows : List Delivery)
    → All (IsOnly d) rows
    → MayAnswer d.reconcile_state d
    → Evolves Step rows (apply_in_time cfg c d rows).rows
unfolding apply_in_time
apply_in_time-Evolves cfg c d rows only a =
    let applied = update (λ x. x.id == d.id) (apply_receipt c.now c.receipt_id c.result) rows in
    elim (Bool-cases (is_failure c.result && may_park cfg d)) [
      | inl e ↦ rw e (
          Evolves-trans Step rows applied _ Step-trans (apply-Evolves c d rows only a) (
            Evolves-update_within Step (IsRefused d.id) (λ x. x.id == d.id && may_park cfg x)
              (park_failed c.now) applied Step-refl (λ x p q. park_failed-Step cfg c.now d.id x p q)
              (applied-IsRefused c.now d.id c.receipt_id c.result rows (ground arith))))
      | inr e ↦ rw e (apply-Evolves c d rows only a)
    ]

awaiting-Evolves :
    (cfg : Settings) (c : Call) (d : Delivery) (rows : List Delivery)
    → All (IsOnly d) rows
    → is_awaiting d.reconcile_state ≡ true
    → Evolves Step rows (judge_awaiting cfg c d rows).rows
unfolding judge_awaiting
awaiting-Evolves cfg c d rows only a = elim (Bool-cases (before d.reconcile_deadline c.now)) [
  | inl e ↦ rw e (
      Evolves-update_only Step d (mark_timed_out c.now) rows Step-refl
        (mark_timed_out-Step c.now d a) only)
  | inr e ↦ rw e (apply_in_time-Evolves cfg c d rows only (ground arith))
]

judge-Evolves :
    (cfg : Settings) (c : Call) (s : ReconcileState) (d : Delivery) (rows : List Delivery)
    → d.reconcile_state ≡ s
    → All (IsOnly d) rows
    → Evolves Step rows (judge cfg c s d rows).rows
unfolding judge
judge-Evolves cfg c ReconcileState.awaiting d rows q only =
    awaiting-Evolves cfg c d rows only (ground arith)
judge-Evolves cfg c ReconcileState.unset d rows q only = elim (Bool-cases (is_delivered d.status)) [
  | inl e ↦ rw e (apply-Evolves c d rows only (ground arith))
  | inr e ↦ rw e (Evolves-refl Step rows Step-refl)
]
judge-Evolves cfg c other d rows q only = Evolves-refl Step rows Step-refl

stopped-Evolves :
    (now : ℕ) (b : Bool) (o : Option ℕ) (rows : List Delivery)
    → Evolves Step rows (stopped_rows now b o rows)
unfolding stopped_rows
stopped-Evolves now true (some i) rows = cascade_after_stop-Evolves now i rows
stopped-Evolves now true none rows = Evolves-refl Step rows Step-refl
stopped-Evolves now false o rows = Evolves-refl Step rows Step-refl

found-Evolves :
    (cfg : Settings) (c : Call) (o : Option Delivery) (db : Db)
    → lock_delivery c.destination_id c.dedupe_key db.deliveries ≡ o
    → IsKeyed db.deliveries
    → Evolves Step db.deliveries (ingest_found cfg c o db).1.deliveries
unfolding ingest_found record_receipt lock_delivery
found-Evolves cfg c none db e k = stopped-Evolves c.now false none db.deliveries
found-Evolves cfg c (some d) db e k =
    let j = judge cfg c d.reconcile_state d db.deliveries in
    Evolves-trans Step db.deliveries j.rows _ Step-trans
      (judge-Evolves cfg c d.reconcile_state d db.deliveries refl
        (first-IsOnly (is_copy c.destination_id c.dedupe_key) db.deliveries d k e))
      (stopped-Evolves c.now j.relay_stopped (some d.id) j.rows)

-- On a table with unique keys, a receipt takes each sound row of the table that the loop last read to
-- a sound row that went on from it.
pub ingest_receipt-Evolves :
    (cfg : Settings) (c : Call) (reads : List (List Delivery)) (db : Db)
    → IsKeyed (wait_for_worker c.destination_id c.dedupe_key reads db.deliveries)
    → Evolves Step
        (wait_for_worker c.destination_id c.dedupe_key reads db.deliveries)
        (ingest_receipt cfg c reads db).1.deliveries
unfolding ingest_receipt
ingest_receipt-Evolves cfg c reads db k =
    let rows = wait_for_worker c.destination_id c.dedupe_key reads db.deliveries in
    found-Evolves cfg c (lock_delivery c.destination_id c.dedupe_key rows)
      (record db { deliveries = rows }) refl k
