-- ===== src/Filters/Condition/Checked.antt =====
-- `validate_filter_spec` of env/app/subfilters.py: what a condition that it takes means.
use ccj.Prelude.{
  ℕ, suc, ◌+◌, ◌≤◌, ◌≡◌, refl, ◌∙◌, Bool, false, Option, none, some, arith, Bool-cases, inl, inr,
  ◌||◌,
}
use ccj.Filters.Text.{Chars, codes, text_eq}
use ccj.Filters.Json.{Json, Items, Fields, has}
use ccj.Filters.Evaluate.{
  Key, key_text, evaluate, evaluate_key, every, any_of, evaluate_leaf, branches,
}
use ccj.Filters.Validate.{
  Leaf, Valid, valid, invalid, validate_leaf, Shape, shape, shape_of, Walked, walked, guarded,
  of_leaf, by_shape, is_nil,
}
use ccj.Filters.Condition.{
  Condition, Conditions, satisfies, satisfies_all, satisfies_any, stored, stored_items, nodes,
  all_nodes, Fits, AllFit,
}
use ccj.Filters.Condition.Leaves.{validate_leaf-reads}

-- The condition `c` is what the submitted value `j` says, at this depth and after `n` conditions.
pub record Reads (u : Chars) (j : Json) (depth n m : ℕ) (y : Json) : Type 0 where
  pub condition : Condition
  pub is_stored : y ≡ stored condition
  pub counted : m ≡ n + nodes condition
  pub bounded : m ≤ 100
  pub fits : Fits u condition depth
  pub agrees : (payload : Json) → evaluate u j payload ≡ satisfies u condition payload

-- the same of the value under a key, where the condition itself is counted
pub record ReadsKey (u : Chars) (r : Json → Option (Option Bool)) (depth n m : ℕ) (y : Json)
    : Type 0 where
  pub condition : Condition
  pub is_stored : y ≡ stored condition
  pub counted : suc m ≡ n + nodes condition
  pub bounded : n ≤ 100 → m ≤ 100
  pub fits : depth ≤ 8 → Fits u condition depth
  pub agrees : (payload : Json) → r payload ≡ some (satisfies u condition payload)

pub record ReadsItems (u : Chars) (xs : Items) (depth n m : ℕ) (ys : Items) : Type 0 where
  pub conditions : Conditions
  pub is_stored : ys ≡ stored_items conditions
  pub counted : m ≡ n + all_nodes conditions
  pub bounded : n ≤ 100 → m ≤ 100
  pub fits : AllFit u conditions depth
  pub has_one : is_nil xs ≡ false → 1 ≤ all_nodes conditions
  pub all_agree : (payload : Json) → every u xs payload ≡ satisfies_all u conditions payload
  pub any_agree : (payload : Json) → any_of u xs payload ≡ satisfies_any u conditions payload

pub guarded-walked :
    (depth n m : ℕ) (r : Walked Json) (y : Json)
    → guarded depth n r ≡ walked m y
    → (n ≤ 100) × (depth ≤ 8) × (r ≡ walked m y)
guarded-walked depth n m r y e = ground arith

no_key :
    (u : Chars) (k : Key) (fs : Fields) (payload : Json)
    → has (key_text k) fs ≡ false
    → evaluate_key u k fs payload ≡ none
unfolding has evaluate
no_key u k Fields.end payload e = refl
no_key u k (Fields.field j v fs) payload e = elim (Bool-cases (text_eq j (key_text k))) [
  | inl t ↦ absurd (ground arith)
  | inr f ↦ rw f (no_key u k fs payload (rw f at e))
]

-- which keys a shape rules out, of those that `evaluate` looks for first
ruled_out :
    (l a o n : Bool)
    → ((shape_of l a o n ≡ Shape.leaf) → (a ≡ false) × (o ≡ false) × (n ≡ false))
      × ((shape_of l a o n ≡ Shape.wraps Key.key_any) → a ≡ false)
      × ((shape_of l a o n ≡ Shape.wraps Key.key_not) → (a ≡ false) × (o ≡ false))
ruled_out l a o n = ((λ e. ground arith), (λ e. ground arith), (λ e. ground arith))

shape_rules :
    (fs : Fields)
    → ((shape fs ≡ Shape.leaf)
        → (has (codes "all") fs ≡ false)
          × (has (codes "any") fs ≡ false)
          × (has (codes "not") fs ≡ false))
      × ((shape fs ≡ Shape.wraps Key.key_any) → has (codes "all") fs ≡ false)
      × ((shape fs ≡ Shape.wraps Key.key_not)
          → (has (codes "all") fs ≡ false) × (has (codes "any") fs ≡ false))
unfolding shape
shape_rules fs =
    ruled_out (has (codes "op") fs || has (codes "path") fs) (has (codes "all") fs)
      (has (codes "any") fs) (has (codes "not") fs)

evaluate_object :
    (u : Chars) (fs : Fields) (payload : Json)
    → evaluate u (Json.object fs) payload
      ≡ branches
          (evaluate_key u Key.key_all fs payload)
          (evaluate_key u Key.key_any fs payload)
          (evaluate_key u Key.key_not fs payload)
          (evaluate_leaf u fs payload)
unfolding evaluate
evaluate_object u fs payload = refl

leaf-Reads :
    (u : Chars) (fs : Fields) (depth n m : ℕ) (y : Json) (v : Valid Leaf)
    → n + 1 ≤ 100
    → depth ≤ 8
    → shape fs ≡ Shape.leaf
    → validate_leaf u fs ≡ v
    → of_leaf (n + 1) v ≡ walked m y
    → Reads u (Json.object fs) depth n m y
unfolding stored nodes Fits satisfies
leaf-Reads u fs depth n m y (invalid x) b d s q e = absurd (cc)
leaf-Reads u fs depth n m y (valid l) b d s q e =
    let (fits_, reads) = validate_leaf-reads u fs l q in
    let (a, o, ne) = (shape_rules fs).0 s in
    record {
      condition = Condition.leaf l;
      is_stored = ground arith;
      counted = ground arith;
      bounded = ground arith;
      fits = (d, fits_);
      agrees = λ payload.
          evaluate_object u fs payload
          ∙ rw
              (
                no_key u Key.key_all fs payload a,
                no_key u Key.key_any fs payload o,
                no_key u Key.key_not fs payload ne,
              )
              (reads payload);
    }

key_branch :
    (u : Chars) (k : Key) (fs : Fields) (payload : Json) (r : Option Bool)
    → shape fs ≡ Shape.wraps k
    → evaluate_key u k fs payload ≡ some r
    → branches
        (evaluate_key u Key.key_all fs payload)
        (evaluate_key u Key.key_any fs payload)
        (evaluate_key u Key.key_not fs payload)
        (evaluate_leaf u fs payload)
      ≡ r
key_branch u Key.key_all fs payload r s e = rw e refl
key_branch u Key.key_any fs payload r s e =
    rw (no_key u Key.key_all fs payload ((shape_rules fs).1 s), e) refl
key_branch u Key.key_not fs payload r s e =
    let (a, o) = (shape_rules fs).2 s in
    rw (no_key u Key.key_all fs payload a, no_key u Key.key_any fs payload o, e) refl

-- the keys of an object are read one after another
ReadsKey-Reads :
    (u : Chars) (k : Key) (fs : Fields) (depth n m : ℕ) (y : Json)
    → n + 1 ≤ 100
    → depth ≤ 8
    → shape fs ≡ Shape.wraps k
    → ReadsKey u (λ payload. evaluate_key u k fs payload) depth (n + 1) m y
    → Reads u (Json.object fs) depth n m y
ReadsKey-Reads u k fs depth n m y b d s r = record {
  condition = r.condition;
  is_stored = r.is_stored;
  counted = omega (arith, r.counted);
  bounded = r.bounded b;
  fits = r.fits d;
  agrees =
      λ payload. evaluate_object u fs payload ∙ key_branch u k fs payload _ s (r.agrees payload);
}

pub node-Reads :
    (u : Chars) (fs : Fields) (depth n m : ℕ) (y : Json) (s : Shape) (v : Valid Leaf)
    (all any neg : Walked Json)
    → shape fs ≡ s
    → validate_leaf u fs ≡ v
    → (all ≡ walked m y
        → ReadsKey u (λ payload. evaluate_key u Key.key_all fs payload) depth (n + 1) m y)
    → (any ≡ walked m y
        → ReadsKey u (λ payload. evaluate_key u Key.key_any fs payload) depth (n + 1) m y)
    → (neg ≡ walked m y
        → ReadsKey u (λ payload. evaluate_key u Key.key_not fs payload) depth (n + 1) m y)
    → guarded depth (n + 1) (by_shape s (of_leaf (n + 1) v) all any neg) ≡ walked m y
    → Reads u (Json.object fs) depth n m y
node-Reads u fs depth n m y Shape.leaf v all any neg s q ra ro rn e =
    let (b, d, r) = guarded-walked depth (n + 1) m _ y e in leaf-Reads u fs depth n m y v b d s q r
node-Reads u fs depth n m y (Shape.wraps Key.key_all) v all any neg s q ra ro rn e =
    let (b, d, r) = guarded-walked depth (n + 1) m _ y e in
    ReadsKey-Reads u Key.key_all fs depth n m y b d s (ra r)
node-Reads u fs depth n m y (Shape.wraps Key.key_any) v all any neg s q ra ro rn e =
    let (b, d, r) = guarded-walked depth (n + 1) m _ y e in
    ReadsKey-Reads u Key.key_any fs depth n m y b d s (ro r)
node-Reads u fs depth n m y (Shape.wraps Key.key_not) v all any neg s q ra ro rn e =
    let (b, d, r) = guarded-walked depth (n + 1) m _ y e in
    ReadsKey-Reads u Key.key_not fs depth n m y b d s (rn r)
node-Reads u fs depth n m y (Shape.malformed x) v all any neg s q ra ro rn e =
    let (b, d, r) = guarded-walked depth (n + 1) m _ y e in absurd (cc)
