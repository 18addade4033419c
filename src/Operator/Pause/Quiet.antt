-- ===== src/Operator/Pause/Quiet.antt =====
-- The claims during a pause.
use mathlib.Core.List.{Mem}
use ccj.Prelude.{
  ℕ, ◌≤◌, ◌≡◌, ◌≢◌, refl, Bool, false, Option, none, some, List, [], ◌∷◌, arith, ◌||◌, is_some,
  coalesce, ◌==◌, Bool-cases, inl, inr, ◌∙◌, subst, sym,
}
use ccj.Config.{Settings}
use ccj.Models.{Delivery}
use ccj.Models.Tables.{Db, Destination}
use ccj.Sql.{update, where_rows, first}
use ccj.Sql.Evolve.{All}
use ccj.Sql.Select.{rows_are_rows, All-head?, All-where_rows, All-order_by}
use ccj.Worker.Claim.{
  run_claim, claim_at, claim_copy, claim_row, candidate_destination, is_ready, at_most, receives,
  Locks, Claim, head_ready, oldest, picked, may_claim, is_candidate,
}
use ccj.Worker.Claim.Sends.{candidate_ready, picked_row}
use ccj.Operator.Pause.{
  DestinationPauseIn, Paused, flat, set_window, pause_found, pause_destination,
}

-- the address receives nothing at this time, if it is the one
abbrev IsQuiet : ℕ → ℕ → Destination → Type 0
IsQuiet i later x = x.id ≡ i → receives later x ≡ false

window-IsQuiet :
    (i j from later : ℕ) (until : Option ℕ) (xs : List Destination)
    → i ≡ j
    → from ≤ later
    → at_most until later ≡ false
    → All
        (IsQuiet i later)
        (update (λ (y : Destination). y.id == j) (set_window (some from) until) xs)
unfolding update receives
window-IsQuiet i j from later until [] q f u = tt
window-IsQuiet i j from later until (x ∷ xs) q f u = (
  elim (Bool-cases (x.id == j)) [
    | inl t ↦ rw t (λ e. ground arith)
    | inr n ↦ rw n (λ e. absurd (ground arith))
  ],
  window-IsQuiet i j from later until xs q f u,
)

found_id :
    (i : ℕ) (xs : List Destination) (x : Destination)
    → first (λ (y : Destination). y.id == i) xs ≡ some x
    → i ≡ x.id
unfolding first
found_id i [] x e = absurd (cc)
found_id i (y ∷ ys) x e = elim (Bool-cases (y.id == i)) [
  | inl t ↦ ground arith
  | inr n ↦ found_id i ys x (rw n at e)
]

paused-IsQuiet :
    (now i from later : ℕ) (until : Option ℕ) (o : Option Destination) (db db' : Db)
    → ((x : Destination) → o ≡ some x → i ≡ x.id)
    → pause_found now from until o db ≡ Paused.done db'
    → from ≤ later
    → at_most until later ≡ false
    → All (IsQuiet i later) db'.destinations
unfolding pause_found
paused-IsQuiet now i from later until none db db' p h f u = absurd (cc)
paused-IsQuiet now i from later until (some x) db db' p h f u =
    elim (Bool-cases (at_most until from || at_most until now)) [
      | inl t ↦ absurd (cc (rw t at h))
      | inr n ↦
          let same : update (λ (y : Destination). y.id == x.id) (set_window (some from) until)
                db.destinations
              ≡ db'.destinations =
            cc (rw n at h) in
          subst (All (IsQuiet i later)) same
            (window-IsQuiet i x.id from later until db.destinations (p x refl) f u)
    ]

-- the address of a candidate is one of the table, and receives
candidate_other :
    (later i : ℕ) (locked : ℕ → Bool) (xs : List Destination) (rows : List Delivery)
    (x : Destination)
    → All (IsQuiet i later) xs
    → candidate_destination later locked xs rows ≡ some x
    → IsQuiet i later x
unfolding candidate_destination is_ready
candidate_other later i locked xs rows x a h =
    let ready = λ (y : Destination). head_ready later rows y (oldest later y.id rows) in
    All-head? (IsQuiet i later) _ x
      (All-where_rows (IsQuiet i later) _ _ (
        All-order_by (IsQuiet i later) _ (where_rows ready xs)
          (All-where_rows (IsQuiet i later) ready xs a)))
      h

copy_address :
    (cfg : Settings) (now token : ℕ) (x : Destination) (o : Option Delivery) (db : Db) (c : Claim)
    → ((e : Delivery) → o ≡ some e → e.destination_id ≡ x.id)
    → (claim_copy cfg now token x o db).0 ≡ some c
    → c.copy.destination_id ≡ x.id
unfolding claim_copy claim_row
copy_address cfg now token x none db c p h = absurd (cc)
copy_address cfg now token x (some e) db c p h =
    elim (Bool-cases (may_claim now db.deliveries x e)) [
      | inl m ↦ let q = p e refl in ground arith
      | inr f ↦ absurd (cc (rw f at h))
    ]

picked_address :
    (now : ℕ) (locked : ℕ → Bool) (x : Destination) (rows : List Delivery) (e : Delivery)
    → picked now locked x rows ≡ some e
    → e.destination_id ≡ x.id
unfolding is_candidate
picked_address now locked x rows e h =
    let q = (picked_row now locked x rows e (λ d. Mem d rows) h (rows_are_rows rows)).1 in
    ground arith

other_address :
    (cfg : Settings) (later token i : ℕ) (locks : Locks) (o : Option Destination) (db : Db)
    (c : Claim)
    → ((x : Destination) → o ≡ some x → x.id ≢ i)
    → (claim_at cfg later token locks o db).0 ≡ some c
    → c.copy.destination_id ≢ i
unfolding claim_at
other_address cfg later token i locks none db c p h = absurd (cc)
other_address cfg later token i locks (some x) db c p h =
    let q =
      copy_address cfg later token x (picked later locks.copies x db.deliveries) db c
        (λ e. picked_address later locks.copies x db.deliveries e) h in
    λ e. p x refl (sym q ∙ e)

-- After a pause of an address is accepted, and from its start until its end, a claim hands out no copy
-- for the address. A pause without a start begins at the call, and one without an end does not end.
pub pause_destination-IsQuiet :
    (cfg : Settings) (now later token i : ℕ) (w : DestinationPauseIn) (locks : Locks) (db db' : Db)
    (c : Claim)
    → pause_destination now i w db ≡ Paused.done db'
    → coalesce (flat w.paused_from) now ≤ later
    → at_most (flat w.paused_until) later ≡ false
    → (run_claim cfg later token locks db').0 ≡ some c
    → c.copy.destination_id ≢ i
unfolding pause_destination run_claim
pause_destination-IsQuiet cfg now later token i w locks db db' c h f u r =
    elim (Bool-cases (is_some w.paused_from || is_some w.paused_until)) [
      | inr n ↦ absurd (cc (rw n at h))
      | inl t ↦
          let quiet =
            paused-IsQuiet now i (coalesce (flat w.paused_from) now) later (flat w.paused_until)
              (first (λ (x : Destination). x.id == i) db.destinations) db db'
              (λ x. found_id i db.destinations x) (rw t at h) f u in
          other_address cfg later token i locks
            (candidate_destination later locks.destinations db'.destinations db'.deliveries) db' c
            (λ x e q.
              let shut =
                candidate_other later i locks.destinations db'.destinations db'.deliveries x quiet e
                  q in
              let receiving =
                (candidate_ready later locks.destinations db'.destinations db'.deliveries x
                  e).unpaused in
              absurd (cc (shut, receiving)))
            r
    ]
