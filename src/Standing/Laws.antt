-- ===== src/Standing/Laws.antt =====
-- What the counts of an event say of its copies.
use ccj.Prelude.{
  ℕ, ◌+◌, ◌≤◌, ◌≡◌, refl, Bool, true, false, Option, List, [], ◌∷◌, arith, ◌&&◌, not, Bool-cases,
  inl, inr,
}
use ccj.Models.{
  Delivery, Status, is_acknowledged, is_superseded, is_relay_skipped, is_deadline_expired,
}
use ccj.Models.Checks.{IsSound}
use ccj.Models.Progress.{is_withdrawn}
use ccj.Sql.{count_where}
use ccj.Sql.Evolve.{All}
use ccj.Standing.{
  is_denied, is_release_expired, is_voided, is_real, Evaluation, event_counts, live_count,
}

module _ {ℓ} {A : Type ℓ} where
  pub count-le :
      (p q : A → Bool) (xs : List A)
      → All (λ x. p x ≡ true → q x ≡ true) xs
      → count_where p xs ≤ count_where q xs
  unfolding count_where
  count-le p q [] h = omega arith
  count-le p q (x ∷ xs) h = ground (arith, count-le p q xs h.1, h.0)

  -- where `p` implies `q` and counts as much, `q` implies `p`
  pub count_eq :
      (p q : A → Bool) (xs : List A)
      → All (λ x. p x ≡ true → q x ≡ true) xs
      → count_where q xs ≤ count_where p xs
      → All (λ x. q x ≡ true → p x ≡ true) xs
  unfolding count_where
  count_eq p q [] h le = tt
  count_eq p q (x ∷ xs) h le = (
    ground (arith, count-le p q xs h.1, h.0),
    count_eq p q xs h.1 (ground (arith, count-le p q xs h.1, h.0)),
  )

  pub count_zero : (p : A → Bool) (xs : List A) → count_where p xs ≡ 0 → All (λ x. p x ≡ false) xs
  unfolding count_where
  count_zero p [] e = tt
  count_zero p (x ∷ xs) e = elim (Bool-cases (p x)) [
    | inl t ↦ absurd (ground arith)
    | inr f ↦ (f, count_zero p xs (ground arith))
  ]

  pub zero_count : (p : A → Bool) (xs : List A) → All (λ x. p x ≡ false) xs → count_where p xs ≡ 0
  unfolding count_where
  zero_count p [] h = refl
  zero_count p (x ∷ xs) h = rw h.0 (zero_count p xs h.1)

-- a copy of the event that went out, or still can
abbrev pub is_live : ℕ → Delivery → Bool
is_live e d = is_real e d && not (is_withdrawn d.status)

abbrev bit : Bool → ℕ
bit true = 1
bit false = 0

count_cons :
    (p : Delivery → Bool) (d : Delivery) (rows : List Delivery)
    → count_where p (d ∷ rows) ≡ bit (p d) + count_where p rows
unfolding count_where
count_cons p d rows = ground arith

row_parts :
    (r : Bool) (s : Status)
    → bit (r && not (is_withdrawn s))
        + bit (r && is_superseded s)
        + (bit (r && is_denied s) + bit (r && is_release_expired s) + bit (r && is_voided s))
        + bit (r && is_relay_skipped s)
        + bit (r && is_deadline_expired s)
      ≡ bit r
row_parts r s = ground arith

-- The copies that `event_response` subtracts are distinct, and the live ones are what is left.
parts :
    (e : ℕ) (es : Option (List Evaluation)) (rows : List Delivery)
    → let c = event_counts e es rows in
      count_where (is_live e) rows
        + c.superseded_count
        + (c.bodies_denied_count + c.bodies_expired_count + c.bodies_voided_count)
        + c.relay_skipped_count
        + c.deadline_expired_count
      ≡ c.delivery_count
unfolding event_counts
parts e es [] = unfold count_where in refl
parts e es (d ∷ rows) = omega (
  arith,
  parts e es rows,
  row_parts (is_real e d) d.status,
  count_cons (is_live e) d rows,
  count_cons (λ d. is_real e d && is_superseded d.status) d rows,
  count_cons (λ d. is_real e d && is_denied d.status) d rows,
  count_cons (λ d. is_real e d && is_release_expired d.status) d rows,
  count_cons (λ d. is_real e d && is_voided d.status) d rows,
  count_cons (λ d. is_real e d && is_relay_skipped d.status) d rows,
  count_cons (λ d. is_real e d && is_deadline_expired d.status) d rows,
  count_cons (is_real e) d rows,
)

-- The `delivery_count` that an event reports is the number of its real body copies that are neither
-- superseded, nor closed by their gate, nor skipped, nor past their cutoff.
pub live_count_lem :
    (e : ℕ) (es : Option (List Evaluation)) (rows : List Delivery)
    → live_count (event_counts e es rows) ≡ count_where (is_live e) rows
unfolding live_count
live_count_lem e es rows = omega (arith, parts e es rows)

-- an acknowledged copy is among the live ones
pub acked-IsLive :
    (e : ℕ) (rows : List Delivery)
    → All IsSound rows
    → All (λ d. (is_real e d && is_acknowledged d.reconcile_state) ≡ true → is_live e d ≡ true) rows
acked-IsLive e [] h = tt
acked-IsLive e (d ∷ rows) h = (ground (arith, h.0.acknowledged), acked-IsLive e rows h.1)
