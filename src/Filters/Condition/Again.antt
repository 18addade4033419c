-- ===== src/Filters/Condition/Again.antt =====
-- `walk` of env/app/subfilters.py on conditions that are already stored.
use ccj.Prelude.{ℕ, suc, ◌+◌, ◌≤◌, ◌≡◌, refl, ◌∙◌, true, false, Option, none, some, arith}
use ccj.Filters.Text.{Text, Chars, text_eq}
use ccj.Filters.Json.{Json, Items, is_object, lookup, has}
use ccj.Filters.Evaluate.{LeafOp, Key}
use ccj.Filters.Validate.{
  Leaf, leaf_json, validate_leaf, check_path, shape, Walked, walked, guarded, wrapped, wrap_one,
  wrap_list, is_nil, walk, walk_value, walk_items, unexpected,
}
use ccj.Filters.Condition.{
  Condition, Conditions, stored, stored_items, nodes, all_nodes, Fits, AllFit, FitsValue,
}
use ccj.Filters.Condition.Stored.{leaf_op-op_text, stored-object}

guarded_pass : (depth n : ℕ) (r : Walked Json) → n ≤ 100 → depth ≤ 8 → guarded depth n r ≡ r
guarded_pass depth n r a b = ground arith

walk-wrapped :
    (u : Chars) (k : Key) (v : Json) (depth n : ℕ)
    → walk u (wrapped k v) depth n ≡ guarded depth (n + 1) (walk_value u k false v depth (n + 1))
unfolding walk shape has text_eq unexpected
walk-wrapped u Key.key_all v depth n = refl
walk-wrapped u Key.key_any v depth n = refl
walk-wrapped u Key.key_not v depth n = refl

walk-leaf :
    (u : Chars) (path : Text) (op : LeafOp) (v : Option Json) (depth n : ℕ)
    → check_path u path ≡ none
    → FitsValue op v
    → let l : Leaf = record { path = path; op = op; value = v } in
      walk u (leaf_json l) depth n ≡ guarded depth (n + 1) (walked (n + 1) (leaf_json l))
unfolding walk shape has text_eq unexpected validate_leaf lookup
walk-leaf u path op none depth n a f = rw (a, leaf_op-op_text op, f) refl
walk-leaf u path op (some w) depth n a f = rw (a, leaf_op-op_text op, f.0, f.1) refl

not_again :
    (u : Chars) (v : Json) (depth n : ℕ)
    → is_object v ≡ true
    → walk_value u Key.key_not false v depth n ≡ wrap_one (walk u v (depth + 1) n)
unfolding walk
not_again u (Json.object fs) depth n e = refl
not_again u Json.null depth n e = absurd (cc)
not_again u (Json.boolean b) depth n e = absurd (cc)
not_again u (Json.number k) depth n e = absurd (cc)
not_again u (Json.string t) depth n e = absurd (cc)
not_again u (Json.array xs) depth n e = absurd (cc)

all_again :
    (u : Chars) (xs : Items) (depth n : ℕ)
    → is_nil xs ≡ false
    → walk_value u Key.key_all false (Json.array xs) depth n
      ≡ wrap_list Key.key_all (walk_items u xs (depth + 1) n)
unfolding walk
all_again u xs depth n e = rw e refl

any_again :
    (u : Chars) (xs : Items) (depth n : ℕ)
    → is_nil xs ≡ false
    → walk_value u Key.key_any false (Json.array xs) depth n
      ≡ wrap_list Key.key_any (walk_items u xs (depth + 1) n)
unfolding walk
any_again u xs depth n e = rw e refl

items_nil : (u : Chars) (depth n : ℕ) → walk_items u Items.nil depth n ≡ walked n Items.nil
unfolding walk
items_nil u depth n = refl

items_cons :
    (u : Chars) (x y : Json) (xs ys : Items) (depth n k m : ℕ)
    → walk u x depth n ≡ walked k y
    → walk_items u xs depth k ≡ walked m ys
    → walk_items u (Items.cons x xs) depth n ≡ walked m (Items.cons y ys)
unfolding walk
items_cons u x y xs ys depth n k m e f = rw (e, f) refl

some_stored : (cs : Conditions) → 1 ≤ all_nodes cs → is_nil (stored_items cs) ≡ false
unfolding stored nodes
some_stored Conditions.nil h = absurd (omega arith)
some_stored (Conditions.cons c cs) h = refl

wrapped_list :
    (k : Key) (w : Walked Items) (xs : Items) (m l : ℕ)
    → m ≡ l
    → w ≡ walked m xs
    → wrap_list k w ≡ walked l (wrapped k (Json.array xs))
wrapped_list k w xs m l e q = rw (q, e) refl

wrapped_one :
    (w : Walked Json) (y : Json) (m l : ℕ)
    → m ≡ l
    → w ≡ walked m y
    → wrap_one w ≡ walked l (wrapped Key.key_not y)
wrapped_one w y m l e q = rw (q, e) refl

renamed : (w : Walked Items) (xs : Items) (m l : ℕ) → m ≡ l → w ≡ walked m xs → w ≡ walked l xs
renamed w xs m l e q = rw (q, e) refl

mutual
  unfolding stored nodes Fits

  -- a condition that fits is taken as it stands
  pub walk-stored :
      (u : Chars) (c : Condition) (depth n : ℕ)
      → Fits u c depth
      → n + nodes c ≤ 100
      → walk u (stored c) depth n ≡ walked (n + nodes c) (stored c)
  walk-stored u (Condition.leaf l) depth n f b =
      walk-leaf u l.path l.op l.value depth n f.1.0 f.1.1
      ∙ guarded_pass depth (n + 1) _ (omega arith) f.0
  walk-stored u (Condition.all cs) depth n f b =
      walk-wrapped u Key.key_all (Json.array (stored_items cs)) depth n
      ∙ (guarded_pass depth (n + 1) _ (omega arith) f.0
          ∙ (all_again u (stored_items cs) depth (n + 1) (some_stored cs f.1)
              ∙ wrapped_list Key.key_all _ _ (n + 1 + all_nodes cs) (n + suc (all_nodes cs))
                  (omega arith) (walk_items-stored u cs (depth + 1) (n + 1) f.2 (omega arith))))
  walk-stored u (Condition.any cs) depth n f b =
      walk-wrapped u Key.key_any (Json.array (stored_items cs)) depth n
      ∙ (guarded_pass depth (n + 1) _ (omega arith) f.0
          ∙ (any_again u (stored_items cs) depth (n + 1) (some_stored cs f.1)
              ∙ wrapped_list Key.key_any _ _ (n + 1 + all_nodes cs) (n + suc (all_nodes cs))
                  (omega arith) (walk_items-stored u cs (depth + 1) (n + 1) f.2 (omega arith))))
  walk-stored u (Condition.neg c) depth n f b =
      walk-wrapped u Key.key_not (stored c) depth n
      ∙ (guarded_pass depth (n + 1) _ (omega arith) f.0
          ∙ (not_again u (stored c) depth (n + 1) (stored-object c)
              ∙ wrapped_one _ _ (n + 1 + nodes c) (n + suc (nodes c)) (omega arith)
                  (walk-stored u c (depth + 1) (n + 1) f.1 (omega arith))))

  walk_items-stored :
      (u : Chars) (cs : Conditions) (depth n : ℕ)
      → AllFit u cs depth
      → n + all_nodes cs ≤ 100
      → walk_items u (stored_items cs) depth n ≡ walked (n + all_nodes cs) (stored_items cs)
  walk_items-stored u Conditions.nil depth n f b =
      renamed _ _ n (n + 0) (omega arith) (items_nil u depth n)
  walk_items-stored u (Conditions.cons c cs) depth n f b =
      items_cons u (stored c) (stored c) (stored_items cs) (stored_items cs) depth n (n + nodes c)
        (n + (nodes c + all_nodes cs)) (walk-stored u c depth n f.0 (omega arith))
        (renamed _ _ (n + nodes c + all_nodes cs) (n + (nodes c + all_nodes cs)) (omega arith)
          (walk_items-stored u cs depth (n + nodes c) f.1 (omega arith)))
