-- ===== src/Sql/Evolve.antt =====
-- Tables before and after statements, row by row.
use ccj.Prelude.{
  ◌≡◌, refl, subst, Bool, true, false, some, none, List, [], ◌∷◌, arith, if◌then◌else◌, Bool-cases,
  inl, inr,
}
use ccj.Sql.{update, first}

module _ {ℓ} {A : Type ℓ} where
  -- every row satisfies `P`
  abbrev pub All : (A → Type 0) → List A → Type 0
  All P [] = Unit
  All P (x ∷ xs) = P x × All P xs

  -- the two tables have the same rows, in order, each related to its successor by `R`
  abbrev pub Evolves : (A → A → Type 0) → List A → List A → Type 0
  Evolves R [] [] = Unit
  Evolves R [] (y ∷ ys) = ⊥
  Evolves R (x ∷ xs) [] = ⊥
  Evolves R (x ∷ xs) (y ∷ ys) = R x y × Evolves R xs ys

  pub All-update :
      (P : A → Type 0) (p : A → Bool) (f : A → A) (xs : List A)
      → ((x : A) → p x ≡ true → P x → P (f x))
      → All P xs
      → All P (update p f xs)
  unfolding update
  All-update P p f [] keep h = tt
  All-update P p f (x ∷ xs) keep h = elim (Bool-cases (p x)) [
    | inl e ↦ rw e (keep x e h.0, All-update P p f xs keep h.1)
    | inr e ↦ rw e (h.0, All-update P p f xs keep h.1)
  ]

  pub Evolves-update :
      (R : A → A → Type 0) (p : A → Bool) (f : A → A) (xs : List A)
      → ((x : A) → R x x)
      → ((x : A) → p x ≡ true → R x (f x))
      → Evolves R xs (update p f xs)
  unfolding update
  Evolves-update R p f [] r s = tt
  Evolves-update R p f (x ∷ xs) r s = elim (Bool-cases (p x)) [
    | inl e ↦ rw e (s x e, Evolves-update R p f xs r s)
    | inr e ↦ rw e (r x, Evolves-update R p f xs r s)
  ]

  pub Evolves-refl : (R : A → A → Type 0) (xs : List A) → ((x : A) → R x x) → Evolves R xs xs
  Evolves-refl R [] r = tt
  Evolves-refl R (x ∷ xs) r = (r x, Evolves-refl R xs r)

  pub Evolves-trans :
      (R : A → A → Type 0) (xs ys zs : List A)
      → ((x y z : A) → R x y → R y z → R x z)
      → Evolves R xs ys
      → Evolves R ys zs
      → Evolves R xs zs
  Evolves-trans R [] [] zs t h k = k
  Evolves-trans R [] (y ∷ ys) zs t h k = absurd h
  Evolves-trans R (x ∷ xs) [] zs t h k = absurd h
  Evolves-trans R (x ∷ xs) (y ∷ ys) [] t h k = k
  Evolves-trans R (x ∷ xs) (y ∷ ys) (z ∷ zs) t h k =
      (t x y z h.0 k.0, Evolves-trans R xs ys zs t h.1 k.1)

  -- two statements after one another, each with its own relation
  pub Evolves-comp :
      (R S T : A → A → Type 0) (xs ys zs : List A)
      → ((x y z : A) → R x y → S y z → T x z)
      → Evolves R xs ys
      → Evolves S ys zs
      → Evolves T xs zs
  Evolves-comp R S T [] [] [] t h k = tt
  Evolves-comp R S T [] [] (z ∷ zs) t h k = absurd k
  Evolves-comp R S T [] (y ∷ ys) zs t h k = absurd h
  Evolves-comp R S T (x ∷ xs) [] zs t h k = absurd h
  Evolves-comp R S T (x ∷ xs) (y ∷ ys) [] t h k = k
  Evolves-comp R S T (x ∷ xs) (y ∷ ys) (z ∷ zs) t h k =
      (t x y z h.0 k.0, Evolves-comp R S T xs ys zs t h.1 k.1)

  -- a row found by a key that `f` keeps is the updated row
  pub first-update :
      (q p : A → Bool) (f : A → A) (xs : List A) (x : A)
      → ((x : A) → q (f x) ≡ q x)
      → first q xs ≡ some x
      → first q (update p f xs) ≡ some (if p x then f x else x)
  unfolding first update
  first-update q p f [] x keep e = ground arith
  first-update q p f (y ∷ ys) x keep e = ground (arith, keep y, first-update q p f ys x keep)

  pub first-update-none :
      (q p : A → Bool) (f : A → A) (xs : List A)
      → ((x : A) → q (f x) ≡ q x)
      → first q xs ≡ none
      → first q (update p f xs) ≡ none
  unfolding first update
  first-update-none q p f [] keep e = refl
  first-update-none q p f (y ∷ ys) keep e = ground (arith, keep y, first-update-none q p f ys keep)

  pub first_holds : (q : A → Bool) (xs : List A) (x : A) → first q xs ≡ some x → q x ≡ true
  unfolding first
  first_holds q [] x e = ground arith
  first_holds q (y ∷ ys) x e = ground (arith, first_holds q ys x)

  -- what holds of all rows holds of the row found
  pub All-first :
      (P : A → Type 0) (q : A → Bool) (xs : List A) (x : A) → All P xs → first q xs ≡ some x → P x
  unfolding first
  All-first P q [] x h e = absurd (cc)
  All-first P q (y ∷ ys) x h e = elim (Bool-cases (q y)) [
    | inl t ↦ subst P (ground arith) h.0
    | inr f ↦ All-first P q ys x h.1 (ground arith)
  ]

  -- the same, for a statement that meets only rows that satisfy `Q`
  pub Evolves-update_within :
      (R : A → A → Type 0) (Q : A → Type 0) (p : A → Bool) (f : A → A) (xs : List A)
      → ((x : A) → R x x)
      → ((x : A) → p x ≡ true → Q x → R x (f x))
      → All Q xs
      → Evolves R xs (update p f xs)
  unfolding update
  Evolves-update_within R Q p f [] r s h = tt
  Evolves-update_within R Q p f (x ∷ xs) r s h = elim (Bool-cases (p x)) [
    | inl e ↦ rw e (s x e h.0, Evolves-update_within R Q p f xs r s h.1)
    | inr e ↦ rw e (r x, Evolves-update_within R Q p f xs r s h.1)
  ]

  -- what a relation carries over from row to row holds of the rows that went on
  pub Evolves-first :
      (R : A → A → Type 0) (q : A → Bool) (xs ys : List A) (x : A)
      → ((x y : A) → R x y → q y ≡ q x)
      → Evolves R xs ys
      → first q xs ≡ some x
      → (y : A) × (first q ys ≡ some y) × R x y
  unfolding first
  Evolves-first R q [] ys x k h e = absurd (cc)
  Evolves-first R q (z ∷ xs) [] x k h e = absurd h
  Evolves-first R q (z ∷ xs) (y ∷ ys) x k h e = elim (Bool-cases (q z)) [
    | inl t ↦ (y, ground (arith, k z y h.0), subst (λ w. R w y) (ground arith) h.0)
    | inr f ↦
        let (w, found, related) = Evolves-first R q xs ys x k h.1 (ground arith) in
        (w, ground (arith, k z y h.0), related)
  ]

  -- what holds of the written rows and of the passed ones
  pub All-updated :
      (Q : A → Type 0) (p : A → Bool) (f : A → A) (xs : List A)
      → ((x : A) → p x ≡ true → Q (f x))
      → ((x : A) → p x ≡ false → Q x)
      → All Q (update p f xs)
  unfolding update
  All-updated Q p f [] w k = tt
  All-updated Q p f (x ∷ xs) w k = elim (Bool-cases (p x)) [
    | inl e ↦ rw e (w x e, All-updated Q p f xs w k)
    | inr e ↦ rw e (k x e, All-updated Q p f xs w k)
  ]

  -- what follows, row by row, from two facts on all rows
  pub All-both :
      (P Q S : A → Type 0) (xs : List A)
      → ((x : A) → P x → Q x → S x)
      → All P xs
      → All Q xs
      → All S xs
  All-both P Q S [] k h g = tt
  All-both P Q S (x ∷ xs) k h g = (k x h.0 g.0, All-both P Q S xs k h.1 g.1)
