-- ===== src/Receipts/Matching.antt =====
-- Which copy a receipt acknowledges.
use ccj.Prelude.{
  ℕ, ◌≡◌, ◌⊎◌, refl, Bool, true, false, Option, none, some, List, arith, ◌==◌, Bool-cases, inl, inr,
  ◌&&◌, ◌||◌, not, before,
}
use ccj.Config.{Settings}
use ccj.Models.{Delivery, ReconcileState, ReceiptResult, is_delivered, is_awaiting, is_acknowledged}
use ccj.Models.Tables.{Db}
use ccj.Models.Keys.{IsKeyed, IsOnly, first-IsOnly, Evolves-update_only}
use ccj.Sql.{update}
use ccj.Sql.Evolve.{All, Evolves, Evolves-refl, Evolves-comp, Evolves-update, first_holds}
use ccj.Relay.Cascade.Laws.{IsUntouched, IsUntouched-refl, cascade_after_stop-IsUntouched}
use ccj.Receipts.{
  is_copy, is_failure, is_unset, apply_receipt, mark_timed_out, park_failed, may_park, Call,
  apply_in_time, judge_awaiting, judge, stopped_rows, record_receipt, ingest_found, ingest_receipt,
  lock_delivery, wait_for_worker,
}

-- the copy is the one that the receipt names, and the receipt is a success in time
pub record Earned (c : Call) (d : Delivery) : Type 0 where
  pub for_copy : is_copy c.destination_id c.dedupe_key d ≡ true
  pub success : c.result ≡ ReceiptResult.success
  pub in_time :
      ((is_awaiting d.reconcile_state && not (before d.reconcile_deadline c.now))
        || (is_unset d.reconcile_state && is_delivered d.status))
      ≡ true

-- a row that is acknowledged afterwards was so before, or has earned it
abbrev pub AckEarned : Call → Delivery → Delivery → Type 0
AckEarned c d d' =
    is_acknowledged d'.reconcile_state ≡ true
    → (is_acknowledged d.reconcile_state ≡ true) ⊎ Earned c d

-- the reconcile state stays
abbrev SameState : Delivery → Delivery → Type 0
SameState d d' = d'.reconcile_state ≡ d.reconcile_state

ack_refl : (c : Call) (d : Delivery) → AckEarned c d d
ack_refl c d e = inl e

ack-then : (c : Call) (x y z : Delivery) → AckEarned c x y → SameState y z → AckEarned c x z
ack-then c x y z h k e = h (ground arith)

apply-AckEarned :
    (c : Call) (d : Delivery)
    → is_copy c.destination_id c.dedupe_key d ≡ true
    → ((is_awaiting d.reconcile_state && not (before d.reconcile_deadline c.now))
        || (is_unset d.reconcile_state && is_delivered d.status))
      ≡ true
    → AckEarned c d (apply_receipt c.now c.receipt_id c.result d)
unfolding apply_receipt
apply-AckEarned c d k t e = inr (record { for_copy = k; success = ground arith; in_time = t })

timed_out-AckEarned : (c : Call) (d : Delivery) → AckEarned c d (mark_timed_out c.now d)
unfolding mark_timed_out
timed_out-AckEarned c d e = absurd (cc)

park-SameState : (now : ℕ) (d : Delivery) → SameState d (park_failed now d)
unfolding park_failed
park-SameState now d = refl

module _ (cfg : Settings) (c : Call) (d : Delivery) (rows : List Delivery)
    (only : All (IsOnly d) rows) (copy : is_copy c.destination_id c.dedupe_key d ≡ true) where
  apply-Evolves :
      ((is_awaiting d.reconcile_state && not (before d.reconcile_deadline c.now))
          || (is_unset d.reconcile_state && is_delivered d.status))
        ≡ true
      → Evolves
          (AckEarned c)
          rows
          (update (λ x. x.id == d.id) (apply_receipt c.now c.receipt_id c.result) rows)
  apply-Evolves t =
      Evolves-update_only (AckEarned c) d (apply_receipt c.now c.receipt_id c.result) rows
        (ack_refl c) (apply-AckEarned c d copy t) only

  in_time-Evolves :
      is_awaiting d.reconcile_state ≡ true
      → before d.reconcile_deadline c.now ≡ false
      → Evolves (AckEarned c) rows (apply_in_time cfg c d rows).rows
  unfolding apply_in_time
  in_time-Evolves w t =
      let applied = update (λ x. x.id == d.id) (apply_receipt c.now c.receipt_id c.result) rows in
      let first_part : Evolves (AckEarned c) rows applied = apply-Evolves (rw (w, t)) in
      elim (Bool-cases (is_failure c.result && may_park cfg d)) [
        | inl e ↦ rw e (
            Evolves-comp (AckEarned c) SameState (AckEarned c) rows applied _ (ack-then c)
              first_part
              (Evolves-update SameState (λ x. x.id == d.id && may_park cfg x) (park_failed c.now)
                applied (λ x. refl) (λ x p. park-SameState c.now x)))
        | inr e ↦ rw e first_part
      ]

  awaiting-Evolves :
      is_awaiting d.reconcile_state ≡ true
      → Evolves (AckEarned c) rows (judge_awaiting cfg c d rows).rows
  unfolding judge_awaiting
  awaiting-Evolves w = elim (Bool-cases (before d.reconcile_deadline c.now)) [
    | inl e ↦ rw e (
        Evolves-update (AckEarned c) (λ x. x.id == d.id) (mark_timed_out c.now) rows (ack_refl c)
          (λ x p. timed_out-AckEarned c x))
    | inr e ↦ rw e (in_time-Evolves w e)
  ]

  judge-Evolves :
      (s : ReconcileState)
      → d.reconcile_state ≡ s
      → Evolves (AckEarned c) rows (judge cfg c s d rows).rows
  unfolding judge
  judge-Evolves ReconcileState.awaiting e = awaiting-Evolves (rw e)
  judge-Evolves ReconcileState.unset e = elim (Bool-cases (is_delivered d.status)) [
    | inl t ↦ rw t (apply-Evolves (rw (e, t)))
    | inr f ↦ rw f (Evolves-refl (AckEarned c) rows (ack_refl c))
  ]
  judge-Evolves other e = Evolves-refl (AckEarned c) rows (ack_refl c)

pub stopped-IsUntouched :
    (now : ℕ) (b : Bool) (o : Option ℕ) (rows : List Delivery)
    → Evolves IsUntouched rows (stopped_rows now b o rows)
unfolding stopped_rows
stopped-IsUntouched now true (some i) rows = cascade_after_stop-IsUntouched now i rows
stopped-IsUntouched now true none rows = Evolves-refl IsUntouched rows IsUntouched-refl
stopped-IsUntouched now false o rows = Evolves-refl IsUntouched rows IsUntouched-refl

found-AckEarned :
    (cfg : Settings) (c : Call) (o : Option Delivery) (db : Db)
    → IsKeyed db.deliveries
    → lock_delivery c.destination_id c.dedupe_key db.deliveries ≡ o
    → Evolves (AckEarned c) db.deliveries (ingest_found cfg c o db).1.deliveries
unfolding ingest_found record_receipt lock_delivery
found-AckEarned cfg c none db k e =
    Evolves-comp (AckEarned c) IsUntouched (AckEarned c) db.deliveries db.deliveries _
      (λ x y z h u. ack-then c x y z h u.0) (Evolves-refl (AckEarned c) db.deliveries (ack_refl c))
      (stopped-IsUntouched c.now false none db.deliveries)
found-AckEarned cfg c (some d) db k e =
    let j = judge cfg c d.reconcile_state d db.deliveries in
    Evolves-comp (AckEarned c) IsUntouched (AckEarned c) db.deliveries j.rows _
      (λ x y z h u. ack-then c x y z h u.0)
      (judge-Evolves cfg c d db.deliveries
        (first-IsOnly (is_copy c.destination_id c.dedupe_key) db.deliveries d k e)
        (first_holds (is_copy c.destination_id c.dedupe_key) db.deliveries d e) d.reconcile_state
        refl)
      (stopped-IsUntouched c.now j.relay_stopped (some d.id) j.rows)

-- On a table with unique keys, a receipt acknowledges no copy but the one of its address and key, and
-- that one only by a success
-- before the deadline passed, or when the copy was delivered and never entered reconciliation.
pub ingest_receipt-AckEarned :
    (cfg : Settings) (c : Call) (reads : List (List Delivery)) (db : Db)
    → IsKeyed (wait_for_worker c.destination_id c.dedupe_key reads db.deliveries)
    → Evolves
        (AckEarned c)
        (wait_for_worker c.destination_id c.dedupe_key reads db.deliveries)
        (ingest_receipt cfg c reads db).1.deliveries
unfolding ingest_receipt
ingest_receipt-AckEarned cfg c reads db k =
    let rows = wait_for_worker c.destination_id c.dedupe_key reads db.deliveries in
    found-AckEarned cfg c (lock_delivery c.destination_id c.dedupe_key rows)
      (record db { deliveries = rows }) k refl
