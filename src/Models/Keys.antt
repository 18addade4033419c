-- ===== src/Models/Keys.antt =====
-- The primary key of `deliveries`.
use ccj.Prelude.{
  ◌≡◌, ◌≢◌, refl, sym, subst, Bool, some, List, [], ◌∷◌, arith, Bool-cases, inl, inr, ◌==◌, ==_iff,
}
use ccj.Models.{Delivery}
use ccj.Sql.{first, update}
use ccj.Sql.Evolve.{All, Evolves, Evolves-update_within}

-- no two rows have one id
abbrev pub IsKeyed : List Delivery → Type 0
IsKeyed [] = Unit
IsKeyed (x ∷ xs) = All (λ y. y.id ≢ x.id) xs × IsKeyed xs

-- a row with the id of `x` is `x`
abbrev pub IsOnly : Delivery → Delivery → Type 0
IsOnly x d = d.id ≡ x.id → d ≡ x

others_differ : (x : Delivery) (xs : List Delivery) → All (λ y. y.id ≢ x.id) xs → All (IsOnly x) xs
others_differ x [] h = tt
others_differ x (y ∷ ys) h = ((λ e. absurd (h.0 e)), others_differ x ys h.1)

first_other :
    (y : Delivery) (q : Delivery → Bool) (xs : List Delivery) (x : Delivery)
    → All (λ z. z.id ≢ y.id) xs
    → first q xs ≡ some x
    → x.id ≢ y.id
unfolding first
first_other y q [] x h e = absurd (cc)
first_other y q (z ∷ xs) x h e = elim (Bool-cases (q z)) [
  | inl t ↦ λ p. h.0 (ground arith)
  | inr f ↦ first_other y q xs x h.1 (ground arith)
]

-- the row that a SELECT finds is the only one with its id
pub first-IsOnly :
    (q : Delivery → Bool) (xs : List Delivery) (x : Delivery)
    → IsKeyed xs
    → first q xs ≡ some x
    → All (IsOnly x) xs
unfolding first
first-IsOnly q [] x h e = tt
first-IsOnly q (y ∷ ys) x h e = elim (Bool-cases (q y)) [
  | inl t ↦
      let same : y ≡ x = ground arith in
      subst (λ z. All (IsOnly z) (y ∷ ys)) same ((λ p. refl), others_differ y ys h.0)
  | inr f ↦
      let rest : first q ys ≡ some x = ground arith in
      ((λ p. absurd (first_other y q ys x h.0 rest (sym p))), first-IsOnly q ys x h.1 rest)
]

-- UPDATE ... WHERE id = x.id, of a row that was read before
pub Evolves-update_only :
    (R : Delivery → Delivery → Type 0) (x : Delivery) (f : Delivery → Delivery) (xs : List Delivery)
    → ((d : Delivery) → R d d)
    → R x (f x)
    → All (IsOnly x) xs
    → Evolves R xs (update (λ d. d.id == x.id) f xs)
Evolves-update_only R x f xs r step only =
    Evolves-update_within R (IsOnly x) (λ d. d.id == x.id) f xs r
      (λ d e same.
        let eq : d ≡ x = same ((==_iff d.id x.id).0 e) in subst (λ z. R z (f z)) (sym eq) step)
      only

IsOnly-later :
    (x y : Delivery) (xs : List Delivery)
    → y.id ≢ x.id
    → All (IsOnly y) xs
    → All (IsOnly y) (x ∷ xs)
IsOnly-later x y xs n h = ((λ e. absurd (n (sym e))), h)

IsOnly-All :
    (x : Delivery) (xs ys : List Delivery)
    → All (λ y. y.id ≢ x.id) ys
    → All (λ y. All (IsOnly y) xs) ys
    → All (λ y. All (IsOnly y) (x ∷ xs)) ys
IsOnly-All x xs [] n h = tt
IsOnly-All x xs (y ∷ ys) n h = (IsOnly-later x y xs n.0 h.0, IsOnly-All x xs ys n.1 h.1)

-- each row of a keyed table is the only one with its id
pub IsKeyed-IsOnly : (xs : List Delivery) → IsKeyed xs → All (λ y. All (IsOnly y) xs) xs
IsKeyed-IsOnly [] k = tt
IsKeyed-IsOnly (x ∷ xs) k =
    (((λ p. refl), others_differ x xs k.0), IsOnly-All x xs xs k.0 (IsKeyed-IsOnly xs k.1))

ids_differ :
    (R : Delivery → Delivery → Type 0) (x x' : Delivery) (xs ys : List Delivery)
    → ((d d' : Delivery) → R d d' → d'.id ≡ d.id)
    → x'.id ≡ x.id
    → Evolves R xs ys
    → All (λ y. y.id ≢ x.id) xs
    → All (λ y. y.id ≢ x'.id) ys
ids_differ R x x' [] [] s e h k = tt
ids_differ R x x' [] (y ∷ ys) s e h k = absurd h
ids_differ R x x' (z ∷ zs) [] s e h k = absurd h
ids_differ R x x' (z ∷ zs) (y ∷ ys) s e h k =
    ((λ q. k.0 (ground (arith, s z y h.0))), ids_differ R x x' zs ys s e h.1 k.1)

-- statements that insert no row and change no id keep the key
pub Evolves-IsKeyed :
    (R : Delivery → Delivery → Type 0) (xs ys : List Delivery)
    → ((d d' : Delivery) → R d d' → d'.id ≡ d.id)
    → Evolves R xs ys
    → IsKeyed xs
    → IsKeyed ys
Evolves-IsKeyed R [] [] s h k = tt
Evolves-IsKeyed R [] (y ∷ ys) s h k = absurd h
Evolves-IsKeyed R (x ∷ xs) [] s h k = absurd h
Evolves-IsKeyed R (x ∷ xs) (y ∷ ys) s h k =
    (ids_differ R x y xs ys s (s x y h.0) h.1 k.0, Evolves-IsKeyed R xs ys s h.1 k.1)
