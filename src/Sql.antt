-- ===== src/Sql.antt =====
-- Tables as lists of rows, in the order in which the database meets them, and the statements that
-- the program runs on them.
pub mod Evolve
pub mod Select
use ccj.Prelude.{
  ℕ, zero, suc, ◌+◌, ◌≡◌, refl, Bool, true, false, Option, none, some, List, [], ◌∷◌, ◌++◌, arith,
  if◌then◌else◌,
}

module _ {ℓ} {A : Type ℓ} where
  -- UPDATE ... SET f WHERE p
  unfoldable pub update : (A → Bool) → (A → A) → List A → List A
  update p f [] = []
  update p f (x ∷ xs) = (if p x then f x else x) ∷ update p f xs

  -- the row count of a statement
  unfoldable pub count_where : (A → Bool) → List A → ℕ
  count_where p [] = 0
  count_where p (x ∷ xs) = if p x then suc (count_where p xs) else count_where p xs

  -- SELECT ... WHERE p, the first row
  unfoldable pub first : (A → Bool) → List A → Option A
  first p [] = none
  first p (x ∷ xs) = if p x then some x else first p xs

  -- EXISTS (SELECT 1 ... WHERE p)
  unfoldable pub exists : (A → Bool) → List A → Bool
  exists p [] = false
  exists p (x ∷ xs) = if p x then true else exists p xs

  -- SELECT ... WHERE p
  unfoldable pub where_rows : (A → Bool) → List A → List A
  where_rows p [] = []
  where_rows p (x ∷ xs) = let rest = where_rows p xs in if p x then x ∷ rest else rest

  -- puts a row before the first one that it precedes
  unfoldable pub place : (A → A → Bool) → A → List A → List A
  place before x [] = x ∷ []
  place before x (y ∷ ys) =
      let rest = place before x ys in if before x y then x ∷ y ∷ ys else y ∷ rest

  -- ORDER BY
  unfoldable pub order_by : (A → A → Bool) → List A → List A
  unfolding place
  order_by before [] = []
  order_by before (x ∷ xs) = place before x (order_by before xs)

  -- LIMIT
  unfoldable pub limit_rows : ℕ → List A → List A
  limit_rows n [] = []
  limit_rows zero (x ∷ xs) = []
  limit_rows (suc n) (x ∷ xs) = x ∷ limit_rows n xs

  -- the first row of a result
  abbrev pub head? : List A → Option A
  head? [] = none
  head? (x ∷ xs) = some x
