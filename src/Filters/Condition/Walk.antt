-- ===== src/Filters/Condition/Walk.antt =====
-- `walk` of env/app/subfilters.py, by induction on the submitted value.
use ccj.Prelude.{
  ℕ, ◌+◌, ◌≤◌, ◌≡◌, refl, subst, ap, sym, Bool, true, false, Option, some, arith, Bool-cases, inl,
  inr, if◌then◌else◌, [], ◌∷◌,
}
use ccj.Filters.Text.{Chars, codes, text_eq}
use ccj.Filters.Json.{Json, Items, Fields, is_object}
use ccj.Filters.Evaluate.{
  Key, key_text, evaluate, evaluate_key, evaluate_value, negated, and_then, or_then,
}
use ccj.Filters.Validate.{
  validate_leaf, shape, Walked, walked, refused, guarded, wrapped, wrap_one, wrap_list, is_nil,
  then_items, walk, walk_key, walk_value, walk_items, unexpected, FilterSpecError,
}
use ccj.Filters.Condition.{Condition, Conditions, satisfies, stored, nodes, Fits}
use ccj.Filters.Condition.Checked.{Reads, ReadsKey, ReadsItems, guarded-walked, node-Reads}

nodes_positive : (c : Condition) → 1 ≤ nodes c
unfolding nodes
nodes_positive (Condition.leaf l) = omega arith
nodes_positive (Condition.all cs) = omega arith
nodes_positive (Condition.any cs) = omega arith
nodes_positive (Condition.neg c) = omega arith

all-ReadsKey :
    (u : Chars) (xs : Items) (depth n m : ℕ) (ys : Items)
    → is_nil xs ≡ false
    → ReadsItems u xs (depth + 1) n m ys
    → ReadsKey u
        (λ payload. some (evaluate_value u Key.key_all (Json.array xs) payload))
        depth
        n
        m
        (wrapped Key.key_all (Json.array ys))
unfolding stored nodes Fits satisfies evaluate
all-ReadsKey u xs depth n m ys e r = record {
  condition = Condition.all r.conditions;
  is_stored = ap (λ (zs : Items). wrapped Key.key_all (Json.array zs)) r.is_stored;
  counted = omega (arith, r.counted);
  bounded = r.bounded;
  fits = λ d. (d, r.has_one e, r.fits);
  agrees = λ payload. ap some (r.all_agree payload);
}

any-ReadsKey :
    (u : Chars) (xs : Items) (depth n m : ℕ) (ys : Items)
    → is_nil xs ≡ false
    → ReadsItems u xs (depth + 1) n m ys
    → ReadsKey u
        (λ payload. some (evaluate_value u Key.key_any (Json.array xs) payload))
        depth
        n
        m
        (wrapped Key.key_any (Json.array ys))
unfolding stored nodes Fits satisfies evaluate
any-ReadsKey u xs depth n m ys e r = record {
  condition = Condition.any r.conditions;
  is_stored = ap (λ (zs : Items). wrapped Key.key_any (Json.array zs)) r.is_stored;
  counted = omega (arith, r.counted);
  bounded = r.bounded;
  fits = λ d. (d, r.has_one e, r.fits);
  agrees = λ payload. ap some (r.any_agree payload);
}

not-ReadsKey :
    (u : Chars) (fs : Fields) (depth n m : ℕ) (y : Json)
    → Reads u (Json.object fs) (depth + 1) n m y
    → ReadsKey u
        (λ payload. some (evaluate_value u Key.key_not (Json.object fs) payload))
        depth
        n
        m
        (wrapped Key.key_not y)
unfolding stored nodes Fits satisfies evaluate
not-ReadsKey u fs depth n m y r = record {
  condition = Condition.neg r.condition;
  is_stored = ap (wrapped Key.key_not) r.is_stored;
  counted = omega (arith, r.counted);
  bounded = λ b. r.bounded;
  fits = λ d. (d, r.fits);
  agrees = λ payload. ap (λ (o : Option Bool). some (negated o)) (r.agrees payload);
}

-- what the guards let through
not_walked :
    (extra : Bool) (w : Walked Json) (m : ℕ) (y : Json)
    → (if extra then refused FilterSpecError.extra_keys else wrap_one w) ≡ walked m y
    → (z : Json) × (w ≡ walked m z) × (y ≡ wrapped Key.key_not z)
not_walked true w m y e = absurd (cc)
not_walked false (walked k z) m y e = (z, ground arith, ground arith)
not_walked false (refused x) m y e = absurd (cc)

list_walked :
    (k : Key) (extra b : Bool) (w : Walked Items) (m : ℕ) (y : Json)
    → (if b
        then refused FilterSpecError.not_a_list
        else if extra
        then refused FilterSpecError.extra_keys
        else wrap_list k w)
      ≡ walked m y
    → (zs : Items) × (b ≡ false) × (w ≡ walked m zs) × (y ≡ wrapped k (Json.array zs))
list_walked k extra true w m y e = absurd (cc)
list_walked k true false w m y e = absurd (cc)
list_walked k false false (walked n zs) m y e = (zs, refl, ground arith, ground arith)
list_walked k false false (refused x) m y e = absurd (cc)

items_walked :
    (x : Json) (w : Walked Items) (m : ℕ) (ys : Items)
    → then_items x w ≡ walked m ys
    → (zs : Items) × (w ≡ walked m zs) × (ys ≡ Items.cons x zs)
items_walked x (walked n zs) m ys e = (zs, ground arith, ground arith)
items_walked x (refused y) m ys e = absurd (cc)

no_condition :
    (depth n m : ℕ) (y : Json) (x : FilterSpecError) → guarded depth n (refused x) ≡ walked m y → ⊥
no_condition depth n m y x e =
    let (a, b, c) = guarded-walked depth n m (refused x) y e in absurd (cc)

-- a condition that is taken is an object
taken-object :
    (u : Chars) (x : Json) (depth n m : ℕ) (y : Json)
    → walk u x depth n ≡ walked m y
    → is_object x ≡ true
unfolding walk
taken-object u (Json.object fs) depth n m y e = refl
taken-object u Json.null depth n m y e = absurd (no_condition depth (n + 1) m y _ e)
taken-object u (Json.boolean b) depth n m y e = absurd (no_condition depth (n + 1) m y _ e)
taken-object u (Json.number k) depth n m y e = absurd (no_condition depth (n + 1) m y _ e)
taken-object u (Json.string t) depth n m y e = absurd (no_condition depth (n + 1) m y _ e)
taken-object u (Json.array xs) depth n m y e = absurd (no_condition depth (n + 1) m y _ e)

nil-ReadsItems :
    (u : Chars) (depth n m : ℕ) (ys : Items)
    → walked n Items.nil ≡ walked m ys
    → ReadsItems u Items.nil depth n m ys
unfolding stored nodes Fits satisfies evaluate
nil-ReadsItems u depth n m ys e = record {
  conditions = Conditions.nil;
  is_stored = ground arith;
  counted = ground arith;
  bounded = λ b. ground arith;
  fits = tt;
  has_one = λ q. absurd (cc);
  all_agree = λ payload. refl;
  any_agree = λ payload. refl;
}

cons-ReadsItems :
    (u : Chars) (x : Json) (xs : Items) (depth n k m : ℕ) (y : Json) (ys : Items)
    → is_object x ≡ true
    → Reads u x depth n k y
    → ReadsItems u xs depth k m ys
    → ReadsItems u (Items.cons x xs) depth n m (Items.cons y ys)
unfolding stored nodes Fits satisfies evaluate
cons-ReadsItems u x xs depth n k m y ys o r rs = record {
  conditions = Conditions.cons r.condition rs.conditions;
  is_stored = λ i. Items.cons (r.is_stored i) (rs.is_stored i);
  counted = omega (arith, r.counted, rs.counted);
  bounded = λ b. rs.bounded r.bounded;
  fits = (r.fits, rs.fits);
  has_one = λ q. omega (arith, nodes_positive r.condition);
  all_agree = λ payload. rw o (λ i. and_then (r.agrees payload i) (rs.all_agree payload i));
  any_agree = λ payload. rw o (λ i. or_then (r.agrees payload i) (rs.any_agree payload i));
}

-- the step of `walk_items`, for a result of the first condition
abbrev after_item : Chars → Items → ℕ → Walked Json → Walked Items
after_item u xs depth (walked k y) = then_items y (walk_items u xs depth k)
after_item u xs depth (refused e) = refused e

item-ReadsItems :
    (u : Chars) (x : Json) (xs : Items) (depth n m : ℕ) (ys : Items) (w : Walked Json)
    → walk u x depth n ≡ w
    → ((k : ℕ) (y : Json) → walk u x depth n ≡ walked k y → Reads u x depth n k y)
    → ((k l : ℕ) (zs : Items)
        → walk_items u xs depth k ≡ walked l zs
        → ReadsItems u xs depth k l zs)
    → after_item u xs depth w ≡ walked m ys
    → ReadsItems u (Items.cons x xs) depth n m ys
item-ReadsItems u x xs depth n m ys (refused z) q r rs e = absurd (cc)
item-ReadsItems u x xs depth n m ys (walked k y) q r rs e =
    let (zs, t, same) = items_walked y _ m ys e in
    subst (ReadsItems u (Items.cons x xs) depth n m) (sym same) (
      cons-ReadsItems u x xs depth n k m y zs (taken-object u x depth n k y q) (r k y q)
        (rs k m zs t))

mutual
  unfolding walk evaluate

  pub walk-Reads :
      (u : Chars) (j : Json) (depth n m : ℕ) (y : Json)
      → walk u j depth n ≡ walked m y
      → Reads u j depth n m y
  walk-Reads u (Json.object fs) depth n m y e =
      node-Reads u fs depth n m y (shape fs) (validate_leaf u fs) _ _ _ refl refl
        (λ q. key-ReadsKey u Key.key_all (unexpected (codes "all" ∷ []) fs) fs depth (n + 1) m y q)
        (λ q. key-ReadsKey u Key.key_any (unexpected (codes "any" ∷ []) fs) fs depth (n + 1) m y q)
        (λ q. key-ReadsKey u Key.key_not (unexpected (codes "not" ∷ []) fs) fs depth (n + 1) m y q)
        e
  walk-Reads u Json.null depth n m y e = absurd (no_condition depth (n + 1) m y _ e)
  walk-Reads u (Json.boolean b) depth n m y e = absurd (no_condition depth (n + 1) m y _ e)
  walk-Reads u (Json.number k) depth n m y e = absurd (no_condition depth (n + 1) m y _ e)
  walk-Reads u (Json.string t) depth n m y e = absurd (no_condition depth (n + 1) m y _ e)
  walk-Reads u (Json.array xs) depth n m y e = absurd (no_condition depth (n + 1) m y _ e)

  key-ReadsKey :
      (u : Chars) (k : Key) (extra : Bool) (fs : Fields) (depth n m : ℕ) (y : Json)
      → walk_key u k extra fs depth n ≡ walked m y
      → ReadsKey u (λ payload. evaluate_key u k fs payload) depth n m y
  key-ReadsKey u k extra Fields.end depth n m y e = absurd (cc)
  key-ReadsKey u k extra (Fields.field j v fs) depth n m y e =
      elim (Bool-cases (text_eq j (key_text k))) [
        | inl t ↦ rw t (value-ReadsKey u k extra v depth n m y (rw t at e))
        | inr f ↦ rw f (key-ReadsKey u k extra fs depth n m y (rw f at e))
      ]

  value-ReadsKey :
      (u : Chars) (k : Key) (extra : Bool) (v : Json) (depth n m : ℕ) (y : Json)
      → walk_value u k extra v depth n ≡ walked m y
      → ReadsKey u (λ payload. some (evaluate_value u k v payload)) depth n m y
  value-ReadsKey u Key.key_not extra (Json.object fs) depth n m y e =
      let (z, q, same) = not_walked extra _ m y e in
      subst
        (ReadsKey u (λ payload. some (evaluate_value u Key.key_not (Json.object fs) payload)) depth
          n m)
        (sym same)
        (not-ReadsKey u fs depth n m z (
          node-Reads u fs (depth + 1) n m z (shape fs) (validate_leaf u fs) _ _ _ refl refl
            (λ q.
              key-ReadsKey u Key.key_all (unexpected (codes "all" ∷ []) fs) fs (depth + 1) (n + 1) m
                z q)
            (λ q.
              key-ReadsKey u Key.key_any (unexpected (codes "any" ∷ []) fs) fs (depth + 1) (n + 1) m
                z q)
            (λ q.
              key-ReadsKey u Key.key_not (unexpected (codes "not" ∷ []) fs) fs (depth + 1) (n + 1) m
                z q)
            q))
  value-ReadsKey u Key.key_all extra (Json.array xs) depth n m y e =
      let (zs, some_item, q, same) = list_walked Key.key_all extra (is_nil xs) _ m y e in
      subst
        (ReadsKey u (λ payload. some (evaluate_value u Key.key_all (Json.array xs) payload)) depth n
          m)
        (sym same)
        (all-ReadsKey u xs depth n m zs some_item (items-ReadsItems u xs (depth + 1) n m zs q))
  value-ReadsKey u Key.key_any extra (Json.array xs) depth n m y e =
      let (zs, some_item, q, same) = list_walked Key.key_any extra (is_nil xs) _ m y e in
      subst
        (ReadsKey u (λ payload. some (evaluate_value u Key.key_any (Json.array xs) payload)) depth n
          m)
        (sym same)
        (any-ReadsKey u xs depth n m zs some_item (items-ReadsItems u xs (depth + 1) n m zs q))
  value-ReadsKey u Key.key_not extra Json.null depth n m y e = absurd (cc)
  value-ReadsKey u Key.key_not extra (Json.boolean b) depth n m y e = absurd (cc)
  value-ReadsKey u Key.key_not extra (Json.number c) depth n m y e = absurd (cc)
  value-ReadsKey u Key.key_not extra (Json.string t) depth n m y e = absurd (cc)
  value-ReadsKey u Key.key_not extra (Json.array xs) depth n m y e = absurd (cc)
  value-ReadsKey u Key.key_all extra Json.null depth n m y e = absurd (cc)
  value-ReadsKey u Key.key_all extra (Json.boolean b) depth n m y e = absurd (cc)
  value-ReadsKey u Key.key_all extra (Json.number c) depth n m y e = absurd (cc)
  value-ReadsKey u Key.key_all extra (Json.string t) depth n m y e = absurd (cc)
  value-ReadsKey u Key.key_all extra (Json.object fs) depth n m y e = absurd (cc)
  value-ReadsKey u Key.key_any extra Json.null depth n m y e = absurd (cc)
  value-ReadsKey u Key.key_any extra (Json.boolean b) depth n m y e = absurd (cc)
  value-ReadsKey u Key.key_any extra (Json.number c) depth n m y e = absurd (cc)
  value-ReadsKey u Key.key_any extra (Json.string t) depth n m y e = absurd (cc)
  value-ReadsKey u Key.key_any extra (Json.object fs) depth n m y e = absurd (cc)

  items-ReadsItems :
      (u : Chars) (xs : Items) (depth n m : ℕ) (ys : Items)
      → walk_items u xs depth n ≡ walked m ys
      → ReadsItems u xs depth n m ys
  items-ReadsItems u Items.nil depth n m ys e = nil-ReadsItems u depth n m ys e
  items-ReadsItems u (Items.cons x xs) depth n m ys e =
      item-ReadsItems u x xs depth n m ys (walk u x depth n) refl (walk-Reads u x depth n)
        (items-ReadsItems u xs depth) e
