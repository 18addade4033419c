-- ===== src/Sql/Select.antt =====
-- What holds of the rows that a SELECT gives.
use mathlib.Core.Logic.Or
use mathlib.Core.List.{Mem, mem-cons}
use ccj.Prelude.{
  ◌≡◌, ◌≤◌, ℕ, refl, subst, Bool, true, some, List, [], ◌∷◌, arith, Bool-cases, inl, inr, leb,
}
use ccj.Sql.{where_rows, place, order_by, head?}
use ccj.Sql.Evolve.{All}

module _ {ℓ} {A : Type ℓ} where
  pub All-head? : (P : A → Type 0) (xs : List A) (x : A) → All P xs → head? xs ≡ some x → P x
  All-head? P [] x h e = absurd (cc)
  All-head? P (y ∷ ys) x h e = subst P (ground arith) h.0

  pub All-where_rows :
      (P : A → Type 0) (p : A → Bool) (xs : List A) → All P xs → All P (where_rows p xs)
  unfolding where_rows
  All-where_rows P p [] h = tt
  All-where_rows P p (x ∷ xs) h = elim (Bool-cases (p x)) [
    | inl e ↦ rw e (h.0, All-where_rows P p xs h.1)
    | inr e ↦ rw e (All-where_rows P p xs h.1)
  ]

  pub All-selected : (p : A → Bool) (xs : List A) → All (λ x. p x ≡ true) (where_rows p xs)
  unfolding where_rows
  All-selected p [] = tt
  All-selected p (x ∷ xs) = elim (Bool-cases (p x)) [
    | inl e ↦ rw e (e, All-selected p xs)
    | inr e ↦ rw e (All-selected p xs)
  ]

  All-place :
      (P : A → Type 0) (b : A → A → Bool) (x : A) (xs : List A)
      → P x
      → All P xs
      → All P (place b x xs)
  unfolding place
  All-place P b x [] p h = (p, tt)
  All-place P b x (y ∷ ys) p h = elim (Bool-cases (b x y)) [
    | inl e ↦ rw e (p, h)
    | inr e ↦ rw e (h.0, All-place P b x ys p h.1)
  ]

  pub All-order_by :
      (P : A → Type 0) (b : A → A → Bool) (xs : List A) → All P xs → All P (order_by b xs)
  unfolding order_by
  All-order_by P b [] h = tt
  All-order_by P b (x ∷ xs) h = All-place P b x (order_by b xs) h.0 (All-order_by P b xs h.1)

  -- back from the result to the table
  pub All-of_where :
      (P : A → Type 0) (p : A → Bool) (xs : List A)
      → All P (where_rows p xs)
      → All (λ x. p x ≡ true → P x) xs
  unfolding where_rows
  All-of_where P p [] h = tt
  All-of_where P p (x ∷ xs) h = elim (Bool-cases (p x)) [
    | inl e ↦
        let h' : P x × All P (where_rows p xs) = rw e at h in
        ((λ q. h'.0), All-of_where P p xs h'.1)
    | inr e ↦ ((λ q. absurd (cc)), All-of_where P p xs (rw e at h))
  ]

  of_place :
      (P : A → Type 0) (b : A → A → Bool) (x : A) (xs : List A)
      → All P (place b x xs)
      → P x × All P xs
  unfolding place
  of_place P b x [] h = (h.0, tt)
  of_place P b x (y ∷ ys) h = elim (Bool-cases (b x y)) [
    | inl e ↦ let h' : P x × (P y × All P ys) = rw e at h in h'
    | inr e ↦
        let h' : P y × All P (place b x ys) = rw e at h in
        let (q, r) = of_place P b x ys h'.1 in (q, (h'.0, r))
  ]

  pub All-of_order_by :
      (P : A → Type 0) (b : A → A → Bool) (xs : List A) → All P (order_by b xs) → All P xs
  unfolding order_by
  All-of_order_by P b [] h = tt
  All-of_order_by P b (x ∷ xs) h =
      let (q, r) = of_place P b x (order_by b xs) h in (q, All-of_order_by P b xs r)

  -- The first row in an order by a number has the least one.
  module _ (key : A → ℕ) where
    -- `m` bounds the keys from below
    abbrev pub IsLeast : A → List A → Type 0
    IsLeast m xs = All (λ y. key m ≤ key y) xs

    mono : (x y : A) (xs : List A) → key x ≤ key y → IsLeast y xs → IsLeast x xs
    mono x y [] h l = tt
    mono x y (z ∷ zs) h l = (omega (arith, h, l.0), mono x y zs h l.1)

    abbrev LeastFirst : List A → Type ℓ
    LeastFirst xs = (h : A) → head? xs ≡ some h → IsLeast h xs

    place-LeastFirst :
        (x : A) (xs : List A) → LeastFirst xs → LeastFirst (place (λ x y. leb (key x) (key y)) x xs)
    unfolding place
    place-LeastFirst x [] least h e =
        let eq : x ≡ h = ground arith in subst (λ z. IsLeast z (x ∷ [])) eq (omega arith, tt)
    place-LeastFirst x (y ∷ ys) least h e = elim (Bool-cases (leb (key x) (key y))) [
      | inl t ↦
          let le : key x ≤ key y = ground arith in
          let eq : x ≡ h = ground arith in
          rw t (
            subst (λ z. IsLeast z (x ∷ y ∷ ys)) eq
              (omega arith, (le, mono x y ys le (least y refl).1)))
      | inr f ↦
          let le : key y ≤ key x = ground arith in
          let eq : y ≡ h = ground arith in
          rw f (
            subst (λ z. IsLeast z (y ∷ place (λ x y. leb (key x) (key y)) x ys)) eq
              (
                omega arith,
                All-place (λ z. key y ≤ key z) (λ x y. leb (key x) (key y)) x ys le
                    (least y refl).1,
              ))
    ]

    pub order_by-LeastFirst : (xs : List A) → LeastFirst (order_by (λ x y. leb (key x) (key y)) xs)
    unfolding order_by
    order_by-LeastFirst [] h e = absurd (cc)
    order_by-LeastFirst (x ∷ xs) h e =
        place-LeastFirst x (order_by (λ x y. leb (key x) (key y)) xs) (order_by-LeastFirst xs) h e

-- what holds of a row for being in the table
each_row : {A : Type 0} {P : A → Type 0} (xs : List A) → ((x : A) → Mem x xs → P x) → All P xs
each_row [] h = tt
each_row (x ∷ xs) h =
    (h x (mem-cons.1 (Or.inl refl)), each_row xs (λ y m. h y (mem-cons.1 (Or.inr m))))

-- every row is a row of its table
pub rows_are_rows : {A : Type 0} (xs : List A) → All (λ x. Mem x xs) xs
rows_are_rows xs = each_row xs (λ x m. m)
