-- ===== src/Worker/Claim/Laws.antt =====
-- A claim, and the statements before it, keep the table sound (env/app/worker.py).
use ccj.Prelude.{
  ℕ, ◌≡◌, refl, sym, ap, ◌∙◌, true, Option, none, some, List, [], ◌∷◌, arith, Bool-cases, inl, inr,
}
use ccj.Config.{Settings}
use ccj.Models.{Delivery, is_pending}
use ccj.Models.Tables.{Db, Destination}
use ccj.Models.Checks.{checks}
use ccj.Models.Keys.{IsKeyed, IsOnly, IsKeyed-IsOnly, Evolves-update_only}
use ccj.Models.Progress.{Step, Step-refl, Step-trans}
use ccj.Sql.{update}
use ccj.Sql.Evolve.{All, Evolves, Evolves-update, Evolves-refl, Evolves-trans}
use ccj.Relay.Cascade.{cascade_all}
use ccj.Relay.Cascade.Laws.{cascade_all-Evolves}
use ccj.Deadlines.{expire_due_deliveries}
use ccj.Deadlines.Laws.{expire_due_deliveries-Evolves}
use ccj.Worker.Claim.Sends.{picked_row, claim_pending}
use ccj.Worker.Claim.{
  lease_over, reap_row, is_stale, superseded_by_move, stale_rows, supersede_row, picked, may_claim,
  claim_row, claim_copy, claim_at, run_claim, clear_queue, Locks, Claim,
}

reap-Step : (now : ℕ) (d : Delivery) → lease_over now d ≡ true → Step d (reap_row now d)
unfolding lease_over reap_row checks
reap-Step now d e s = ground arith

supersede-Step :
    (now : ℕ) (xs : List Destination) (stale : List Delivery) (d : Delivery)
    → superseded_by_move xs stale d ≡ true
    → Step d (supersede_row now d)
unfolding superseded_by_move is_stale supersede_row checks
supersede-Step now xs stale d e s = ground arith

claim-Step :
    (cfg : Settings) (now token : ℕ) (d : Delivery)
    → is_pending d.status ≡ true
    → Step d (claim_row cfg now token d)
unfolding claim_row checks
claim-Step cfg now token d e s = ground arith

pub clear_queue-Evolves :
    (now : ℕ) (locks : Locks) (xs : List Destination) (rows : List Delivery)
    → Evolves Step rows (clear_queue now locks xs rows)
unfolding clear_queue
clear_queue-Evolves now locks xs rows =
    let reaped = update (lease_over now) (reap_row now) rows in
    let r = expire_due_deliveries now 500 locks.deliveries locks.by_body reaped in
    let closed = (cascade_all now r.0 r.1).1 in
    let stale = stale_rows xs closed in
    let moved = update (superseded_by_move xs stale) (supersede_row now) closed in
    Evolves-trans Step rows reaped _ Step-trans
      (Evolves-update Step (lease_over now) (reap_row now) rows Step-refl (reap-Step now))
      (Evolves-trans Step reaped r.1 _ Step-trans
        (expire_due_deliveries-Evolves now 500 locks.deliveries locks.by_body reaped)
        (Evolves-trans Step r.1 closed _ Step-trans (cascade_all-Evolves now r.0 r.1) (
          Evolves-trans Step closed moved _ Step-trans
            (Evolves-update Step (superseded_by_move xs stale) (supersede_row now) closed Step-refl
              (supersede-Step now xs stale))
            (cascade_all-Evolves now _ moved))))

copy-Evolves :
    (cfg : Settings) (now token : ℕ) (x : Destination) (o : Option Delivery) (db : Db)
    → ((e : Delivery) → o ≡ some e → All (IsOnly e) db.deliveries)
    → Evolves Step db.deliveries (claim_copy cfg now token x o db).1.deliveries
unfolding claim_copy
copy-Evolves cfg now token x none db p = Evolves-refl Step db.deliveries Step-refl
copy-Evolves cfg now token x (some e) db p = elim (Bool-cases (may_claim now db.deliveries x e)) [
  | inl m ↦ rw m (
      Evolves-update_only Step e (claim_row cfg now token) db.deliveries Step-refl
        (claim-Step cfg now token e (claim_pending now db.deliveries x e m)) (p e refl))
  | inr f ↦ rw f (Evolves-refl Step db.deliveries Step-refl)
]

at-Evolves :
    (cfg : Settings) (now token : ℕ) (locks : Locks) (o : Option Destination) (db : Db)
    → IsKeyed db.deliveries
    → Evolves Step db.deliveries (claim_at cfg now token locks o db).1.deliveries
unfolding claim_at
at-Evolves cfg now token locks none db k = Evolves-refl Step db.deliveries Step-refl
at-Evolves cfg now token locks (some x) db k =
    copy-Evolves cfg now token x (picked now locks.copies x db.deliveries) db (λ e q.
      (picked_row now locks.copies x db.deliveries e (λ d. All (IsOnly d) db.deliveries) q
        (IsKeyed-IsOnly db.deliveries k)).0)

pub run_claim-Evolves :
    (cfg : Settings) (now token : ℕ) (locks : Locks) (db : Db)
    → IsKeyed db.deliveries
    → Evolves Step db.deliveries (run_claim cfg now token locks db).1.deliveries
unfolding run_claim
run_claim-Evolves cfg now token locks db k = at-Evolves cfg now token locks _ db k

-- the rows with the id of a claimed copy have its phase
abbrev pub HasPhase : List Delivery → Claim → Type 0
HasPhase rows c = All (λ d. d.id ≡ c.copy.id → d.phase ≡ c.copy.phase) rows

only_HasPhase :
    (cfg : Settings) (now token : ℕ) (e : Delivery) (c : Claim) (rows : List Delivery)
    → c.copy ≡ claim_row cfg now token e
    → All (IsOnly e) rows
    → HasPhase rows c
unfolding claim_row
only_HasPhase cfg now token e c [] p h = tt
only_HasPhase cfg now token e c (d ∷ ds) p h = (
  (λ q.
      ap (λ (x : Delivery). x.phase) (h.0 (q ∙ ap (λ (x : Delivery). x.id) p))
      ∙ sym (ap (λ (x : Delivery). x.phase) p)),
  only_HasPhase cfg now token e c ds p h.1,
)

copy_HasPhase :
    (cfg : Settings) (now token : ℕ) (x : Destination) (o : Option Delivery) (db : Db) (c : Claim)
    → ((e : Delivery) → o ≡ some e → All (IsOnly e) db.deliveries)
    → (claim_copy cfg now token x o db).0 ≡ some c
    → HasPhase db.deliveries c
unfolding claim_copy
copy_HasPhase cfg now token x none db c p h = absurd (cc)
copy_HasPhase cfg now token x (some e) db c p h =
    elim (Bool-cases (may_claim now db.deliveries x e)) [
      | inl m ↦ only_HasPhase cfg now token e c db.deliveries (ground arith) (p e refl)
      | inr f ↦ absurd (cc (rw f at h))
    ]

at_HasPhase :
    (cfg : Settings) (now token : ℕ) (locks : Locks) (o : Option Destination) (db : Db) (c : Claim)
    → IsKeyed db.deliveries
    → (claim_at cfg now token locks o db).0 ≡ some c
    → HasPhase db.deliveries c
unfolding claim_at
at_HasPhase cfg now token locks none db c k h = absurd (cc)
at_HasPhase cfg now token locks (some x) db c k h =
    copy_HasPhase cfg now token x (picked now locks.copies x db.deliveries) db c
      (λ e q.
        (picked_row now locks.copies x db.deliveries e (λ d. All (IsOnly d) db.deliveries) q
          (IsKeyed-IsOnly db.deliveries k)).0)
      h

pub run_claim-HasPhase :
    (cfg : Settings) (now token : ℕ) (locks : Locks) (db : Db) (c : Claim)
    → IsKeyed db.deliveries
    → (run_claim cfg now token locks db).0 ≡ some c
    → HasPhase db.deliveries c
unfolding run_claim
run_claim-HasPhase cfg now token locks db c k h = at_HasPhase cfg now token locks _ db c k h
