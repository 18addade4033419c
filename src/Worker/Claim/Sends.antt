-- ===== src/Worker/Claim/Sends.antt =====
-- What a claim may take, and which copy it takes (CLAIM_SQL of env/app/worker.py).
use mathlib.Core.List.{Mem}
use ccj.Prelude.{
  ℕ, ◌≤◌, ◌≡◌, refl, Bool, true, false, Option, none, some, List, arith, ◌&&◌, ◌||◌, not, ◌==◌,
  coalesce, Bool-cases, inl, inr,
}
use ccj.Config.{Settings}
use ccj.Models.{Delivery, is_pending, is_in_flight, is_deliverable}
use ccj.Models.Tables.{Db, Destination}
use ccj.Sql.{exists, where_rows}
use ccj.Sql.Evolve.{All}
use ccj.Sql.Select.{rows_are_rows, All-head?, All-where_rows, All-selected, All-order_by}
use ccj.Relay.Gate.{relay_open}
use ccj.Release.Gate.{in_time}
use ccj.Worker.Claim.{
  is_candidate, by_seq, picked, may_claim, claim_row, claim_copy, claim_at, run_claim, Locks, Claim,
  is_ready, candidate_destination, is_active, at_most, is_confirmed, receives, head_ready, oldest,
}

-- Everything that has to hold for a copy to be sent, at the time of the claim.
pub record MaySend (now : ℕ) (rows : List Delivery) (x : Destination) (e : Delivery) : Type 0 where
  pub queued : is_pending e.status ≡ true
  pub to_address : e.destination_id ≡ x.id
  pub retry_due : e.next_attempt_at ≤ now
  pub start_due : coalesce e.not_before 0 ≤ now
  pub gate_open : is_deliverable e.release_state ≡ true
  pub before_cutoff : in_time e.deliver_by now ≡ true
  pub station_open : relay_open rows e ≡ true
  pub same_location : e.confirmation_generation ≡ x.confirmation_generation

may_send :
    (now : ℕ) (rows : List Delivery) (x : Destination) (e : Delivery)
    → may_claim now rows x e ≡ true
    → (is_candidate now x.id e && relay_open rows e) ≡ true
    → MaySend now rows x e
unfolding may_claim is_candidate
may_send now rows x e m c = ground arith

-- a picked copy is a row of the table that passes the gates
pub picked_row :
    (now : ℕ) (locked : ℕ → Bool) (x : Destination) (rows : List Delivery) (e : Delivery)
    (P : Delivery → Type 0)
    → picked now locked x rows ≡ some e
    → All P rows
    → P e × ((is_candidate now x.id e && relay_open rows e) ≡ true)
unfolding picked
picked_row now locked x rows e P h all =
    let q = λ (d : Delivery). is_candidate now x.id d && relay_open rows d in
    let sel = where_rows q rows in
    let keep = λ (d : Delivery). not (locked d.id) in
    (
      All-head? P _ e
          (All-where_rows P keep _ (All-order_by P by_seq sel (All-where_rows P q rows all))) h,
      All-head? (λ d. q d ≡ true) _ e
          (All-where_rows (λ d. q d ≡ true) keep _
            (All-order_by (λ d. q d ≡ true) by_seq sel (All-selected q rows)))
          h,
    )

-- What has to hold of the address.
pub record IsReceiving (now : ℕ) (rows : List Delivery) (x : Destination) : Type 0 where
  pub usable : (is_active x.status || at_most x.recoverable_at now) ≡ true
  pub confirmed : is_confirmed x.confirmation_state ≡ true
  pub unpaused : receives now x ≡ true
  pub idle : exists (λ o. o.destination_id == x.id && is_in_flight o.status) rows ≡ false

ready_head :
    (now : ℕ) (rows : List Delivery) (x : Destination) (o : Option Delivery)
    → head_ready now rows x o ≡ true
    → IsReceiving now rows x
unfolding head_ready
ready_head now rows x none h = absurd (cc)
ready_head now rows x (some e) h = ground arith

pub candidate_ready :
    (now : ℕ) (locked : ℕ → Bool) (xs : List Destination) (rows : List Delivery) (x : Destination)
    → candidate_destination now locked xs rows ≡ some x
    → IsReceiving now rows x
unfolding candidate_destination is_ready
candidate_ready now locked xs rows x h =
    let ready = λ (y : Destination). head_ready now rows y (oldest now y.id rows) in
    ready_head now rows x (oldest now x.id rows) (
      All-head? (λ y. ready y ≡ true) _ x
        (All-where_rows (λ y. ready y ≡ true) _ _
          (All-order_by (λ y. ready y ≡ true) _ (where_rows ready xs) (All-selected ready xs)))
        h)

candidate_row :
    (now : ℕ) (locked : ℕ → Bool) (xs : List Destination) (rows : List Delivery) (x : Destination)
    → candidate_destination now locked xs rows ≡ some x
    → Mem x xs
unfolding candidate_destination
candidate_row now locked xs rows x h =
    let is_row = λ (y : Destination). Mem y xs in
    All-head? is_row _ x
      (All-where_rows is_row _ _
        (All-order_by is_row _ _ (All-where_rows is_row _ xs (rows_are_rows xs))))
      h

pub claim_pending :
    (now : ℕ) (rows : List Delivery) (x : Destination) (e : Delivery)
    → may_claim now rows x e ≡ true
    → is_pending e.status ≡ true
unfolding may_claim
claim_pending now rows x e m = ground arith

-- The copy that a claim hands to the worker and the address that it goes to, both rows of the database.
pub record Sends (cfg : Settings) (now token : ℕ) (db : Db) (c : Claim) : Type 0 where
  pub address : Destination
  pub copy : Delivery
  pub known_address : Mem address db.destinations
  pub known_copy : Mem copy db.deliveries
  pub receiving : IsReceiving now db.deliveries address
  pub may_send : MaySend now db.deliveries address copy
  pub url : c.destination_url ≡ address.url
  pub taken : c.copy ≡ claim_row cfg now token copy

copy-Sends :
    (cfg : Settings) (now token : ℕ) (x : Destination) (o : Option Delivery) (db : Db) (c : Claim)
    → Mem x db.destinations
    → IsReceiving now db.deliveries x
    → ((e : Delivery)
        → o ≡ some e
        → Mem e db.deliveries × ((is_candidate now x.id e && relay_open db.deliveries e) ≡ true))
    → (claim_copy cfg now token x o db).0 ≡ some c
    → Sends cfg now token db c
unfolding claim_copy
copy-Sends cfg now token x none db c m r p h = absurd (cc)
copy-Sends cfg now token x (some e) db c k r p h =
    elim (Bool-cases (may_claim now db.deliveries x e)) [
      | inl m ↦ record {
        address = x;
        copy = e;
        known_address = k;
        known_copy = (p e refl).0;
        receiving = r;
        may_send = may_send now db.deliveries x e m (p e refl).1;
        url = ground arith;
        taken = ground arith;
      }
      | inr f ↦ absurd (cc (rw f at h))
    ]

at-Sends :
    (cfg : Settings) (now token : ℕ) (locks : Locks) (o : Option Destination) (db : Db) (c : Claim)
    → ((x : Destination) → o ≡ some x → Mem x db.destinations × IsReceiving now db.deliveries x)
    → (claim_at cfg now token locks o db).0 ≡ some c
    → Sends cfg now token db c
unfolding claim_at
at-Sends cfg now token locks none db c p h = absurd (cc)
at-Sends cfg now token locks (some x) db c p h =
    copy-Sends cfg now token x (picked now locks.copies x db.deliveries) db c (p x refl).0
      (p x refl).1
      (λ e q.
        picked_row now locks.copies x db.deliveries e (λ d. Mem d db.deliveries) q
          (rows_are_rows db.deliveries))
      h

-- A claim hands out only a queued copy of the table whose retry and start are due, whose gate and
-- station are open, and whose cutoff has not passed, to an address of the table, which is at the same
-- location, confirmed, not paused, not isolated (or due to recover) and has no copy under way.
pub run_claim-Sends :
    (cfg : Settings) (now token : ℕ) (locks : Locks) (db : Db) (c : Claim)
    → (run_claim cfg now token locks db).0 ≡ some c
    → Sends cfg now token db c
unfolding run_claim
run_claim-Sends cfg now token locks db c h =
    at-Sends cfg now token locks
      (candidate_destination now locks.destinations db.destinations db.deliveries) db c
      (λ x e. (
        candidate_row now locks.destinations db.destinations db.deliveries x e,
        candidate_ready now locks.destinations db.destinations db.deliveries x e,
      ))
      h
