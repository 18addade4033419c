-- ===== src/Receipts/Once.antt =====
-- A receipt is applied once.
use ccj.Prelude.{
  ℕ, String, ◌≡◌, refl, Bool, true, false, Option, none, some, List, [], ◌∷◌, arith, ◌==◌,
  if◌then◌else◌, Bool-cases, inl, inr, ◌&&◌, before, ◌∙◌,
}
use ccj.Config.{Settings}
use ccj.Models.{Delivery, ReconcileState, is_delivered, is_pending}
use ccj.Models.Tables.{Db, ReceiptDisposition}
use ccj.Models.Checks.{IsSound}
use ccj.Sql.{update, first}
use ccj.Sql.Evolve.{All, All-first, Evolves-first, first-update}
use ccj.Relay.Cascade.Laws.{IsUntouched}
use ccj.Receipts.{
  is_copy, is_failure, keeps_waiting, apply_receipt, park_failed, may_park, Judgement, Call,
  apply_in_time, judge_awaiting, judge, noted, stopped_rows, record_receipt, ingest_found,
  ingest_receipt, lock_delivery, wait_for_worker,
}
use ccj.Receipts.Matching.{stopped-IsUntouched}

-- the copy has its receipt, and is not queued
abbrev is_settled : ReconcileState → Bool
is_settled ReconcileState.acknowledged = true
is_settled ReconcileState.receipt_failed = true
is_settled _ = false

abbrev IsSettled : Delivery → Type 0
IsSettled d = (is_settled d.reconcile_state ≡ true) × (is_pending d.status ≡ false)

-- the copy of an address and key, in a table, is settled
record SettledIn (i : ℕ) (k : String) (rows : List Delivery) : Type 0 where
  copy : Delivery
  found : lock_delivery i k rows ≡ some copy
  settled : IsSettled copy

apply_found :
    (c : Call) (d : Delivery) (rows : List Delivery)
    → first (is_copy c.destination_id c.dedupe_key) rows ≡ some d
    → first
        (is_copy c.destination_id c.dedupe_key)
        (update (λ x. x.id == d.id) (apply_receipt c.now c.receipt_id c.result) rows)
      ≡ some (apply_receipt c.now c.receipt_id c.result d)
unfolding is_copy apply_receipt
apply_found c d rows e =
    first-update (is_copy c.destination_id c.dedupe_key) (λ x. x.id == d.id)
      (apply_receipt c.now c.receipt_id c.result) rows d (λ x. refl) e
    ∙ ground arith

park_found :
    (cfg : Settings) (c : Call) (i : ℕ) (d : Delivery) (rows : List Delivery)
    → first (is_copy c.destination_id c.dedupe_key) rows ≡ some d
    → IsSettled d
    → SettledIn c.destination_id c.dedupe_key
        (update (λ x. x.id == i && may_park cfg x) (park_failed c.now) rows)
unfolding is_copy park_failed lock_delivery
park_found cfg c i d rows e s = record {
  copy = if d.id == i && may_park cfg d then park_failed c.now d else d;
  found =
      first-update (is_copy c.destination_id c.dedupe_key) (λ x. x.id == i && may_park cfg x)
        (park_failed c.now) rows d (λ x. refl) e;
  settled = ground arith;
}

applied-IsSettled :
    (c : Call) (d : Delivery)
    → is_delivered d.status ≡ true
    → IsSettled (apply_receipt c.now c.receipt_id c.result d)
unfolding apply_receipt
applied-IsSettled c d e = ground arith

module _ (cfg : Settings) (c : Call) (d : Delivery) (rows : List Delivery)
    (found : first (is_copy c.destination_id c.dedupe_key) rows ≡ some d) (sound : IsSound d) where
  abbrev Settles : Judgement → Type 0
  Settles j =
      j.disposition ≡ ReceiptDisposition.applied → SettledIn c.destination_id c.dedupe_key j.rows

  just_applied :
      is_delivered d.status ≡ true
      → SettledIn c.destination_id c.dedupe_key
          (update (λ x. x.id == d.id) (apply_receipt c.now c.receipt_id c.result) rows)
  unfolding lock_delivery
  just_applied e = record {
    copy = apply_receipt c.now c.receipt_id c.result d;
    found = apply_found c d rows found;
    settled = applied-IsSettled c d e;
  }

  in_time-Settles : is_delivered d.status ≡ true → Settles (apply_in_time cfg c d rows)
  unfolding apply_in_time
  in_time-Settles w h = elim (Bool-cases (is_failure c.result && may_park cfg d)) [
    | inl e ↦ rw e (
        park_found cfg c d.id (apply_receipt c.now c.receipt_id c.result d) _
          (apply_found c d rows found) (applied-IsSettled c d w))
    | inr e ↦ rw e (just_applied w)
  ]

  awaiting-Settles : is_delivered d.status ≡ true → Settles (judge_awaiting cfg c d rows)
  unfolding judge_awaiting
  awaiting-Settles w h = elim (Bool-cases (before d.reconcile_deadline c.now)) [
    | inl e ↦ absurd (cc (rw e at h))
    | inr e ↦ rw e (in_time-Settles w (rw e at h))
  ]

  judge-Settles : (s : ReconcileState) → d.reconcile_state ≡ s → Settles (judge cfg c s d rows)
  unfolding judge
  judge-Settles ReconcileState.awaiting e h = awaiting-Settles (sound.awaits_receipt (rw e)) h
  judge-Settles ReconcileState.unset e h = elim (Bool-cases (is_delivered d.status)) [
    | inl t ↦ rw t (just_applied t)
    | inr f ↦ absurd (ground arith)
  ]
  judge-Settles ReconcileState.timed_out e h = absurd (cc)
  judge-Settles other e h = absurd (cc)

pub untouched_copy :
    (i : ℕ) (k : String) (x y : Delivery) → IsUntouched x y → is_copy i k y ≡ is_copy i k x
unfolding is_copy
untouched_copy i k x y u = rw (u.1, u.2)

settled_stops : (d : Delivery) → IsSettled d → keeps_waiting (some d) ≡ false
settled_stops d s = ground arith

stopped_settled :
    (now i : ℕ) (k : String) (b : Bool) (o : Option ℕ) (rows : List Delivery)
    → SettledIn i k rows
    → SettledIn i k (stopped_rows now b o rows)
unfolding lock_delivery
stopped_settled now i k b o rows s =
    let (y, found, same) =
      Evolves-first IsUntouched (is_copy i k) rows (stopped_rows now b o rows) s.copy
        (untouched_copy i k) (stopped-IsUntouched now b o rows) s.found in
    record { copy = y; found = found; settled = rw (same.3 s.settled.1) s.settled }

found_settles :
    (cfg : Settings) (c : Call) (o : Option Delivery) (db : Db)
    → All IsSound db.deliveries
    → lock_delivery c.destination_id c.dedupe_key db.deliveries ≡ o
    → (ingest_found cfg c o db).0.disposition ≡ ReceiptDisposition.applied
    → SettledIn c.destination_id c.dedupe_key (ingest_found cfg c o db).1.deliveries
unfolding ingest_found record_receipt lock_delivery
found_settles cfg c none db s e h = absurd (cc)
found_settles cfg c (some d) db s e h =
    let j = judge cfg c d.reconcile_state d db.deliveries in
    stopped_settled c.now c.destination_id c.dedupe_key j.relay_stopped (some d.id) j.rows (
      judge-Settles cfg c d db.deliveries e
        (All-first IsSound (is_copy c.destination_id c.dedupe_key) db.deliveries d s e)
        d.reconcile_state refl h)

-- a receipt for a settled copy
settled_wait :
    (i : ℕ) (k : String) (reads : List (List Delivery)) (rows : List Delivery)
    → SettledIn i k rows
    → wait_for_worker i k reads rows ≡ rows
unfolding wait_for_worker
settled_wait i k [] rows s = refl
settled_wait i k (r ∷ rs) rows s = rw (s.found, settled_stops s.copy s.settled)

settled_judge :
    (cfg : Settings) (c : Call) (s : ReconcileState) (d : Delivery) (rows : List Delivery)
    → is_settled s ≡ true
    → judge cfg c s d rows ≡ noted ReceiptDisposition.duplicate rows
unfolding judge
settled_judge cfg c ReconcileState.acknowledged d rows e = refl
settled_judge cfg c ReconcileState.receipt_failed d rows e = refl
settled_judge cfg c other d rows e = absurd (cc)

settled_duplicate :
    (cfg : Settings) (c : Call) (reads : List (List Delivery)) (db : Db)
    → SettledIn c.destination_id c.dedupe_key db.deliveries
    → ((ingest_receipt cfg c reads db).0.disposition ≡ ReceiptDisposition.duplicate)
      × ((ingest_receipt cfg c reads db).1.deliveries ≡ db.deliveries)
unfolding ingest_receipt ingest_found record_receipt stopped_rows
settled_duplicate cfg c reads db s =
    rw
      (
        settled_wait c.destination_id c.dedupe_key reads db.deliveries s,
        s.found,
        settled_judge cfg c s.copy.reconcile_state s.copy db.deliveries s.settled.0,
      )
      (refl, refl)

first_settles :
    (cfg : Settings) (c : Call) (reads : List (List Delivery)) (db : Db)
    → All IsSound (wait_for_worker c.destination_id c.dedupe_key reads db.deliveries)
    → (ingest_receipt cfg c reads db).0.disposition ≡ ReceiptDisposition.applied
    → SettledIn c.destination_id c.dedupe_key (ingest_receipt cfg c reads db).1.deliveries
unfolding ingest_receipt
first_settles cfg c reads db s h =
    let rows = wait_for_worker c.destination_id c.dedupe_key reads db.deliveries in
    found_settles cfg c (lock_delivery c.destination_id c.dedupe_key rows)
      (record db { deliveries = rows }) s refl h

module _ (cfg : Settings) (c c' : Call) (reads reads' : List (List Delivery)) (db : Db) where
  -- If the rows that the first call works on are sound, and it applies its receipt, the next one for the same address and key is a duplicate,
  -- whatever it says, and leaves every delivery as it is.
  pub ingest_receipt-once :
      All IsSound (wait_for_worker c.destination_id c.dedupe_key reads db.deliveries)
      → c'.destination_id ≡ c.destination_id
      → c'.dedupe_key ≡ c.dedupe_key
      → (ingest_receipt cfg c reads db).0.disposition ≡ ReceiptDisposition.applied
      → let db' = (ingest_receipt cfg c reads db).1 in
        let (r, db'') = ingest_receipt cfg c' reads' db' in
        (r.disposition ≡ ReceiptDisposition.duplicate) × (db''.deliveries ≡ db'.deliveries)
  ingest_receipt-once s p q h =
      settled_duplicate cfg c' reads' (ingest_receipt cfg c reads db).1
        (rw (p, q) (first_settles cfg c reads db s h))
