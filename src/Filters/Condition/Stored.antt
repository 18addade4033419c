-- ===== src/Filters/Condition/Stored.antt =====
-- `evaluate` of env/app/subfilters.py on stored conditions.
use ccj.Prelude.{◌≡◌, refl, ◌∙◌, ap, true, false, Option, none, some}
use ccj.Filters.Text.{Text, Chars, text_eq}
use ccj.Filters.Json.{Json, Items, is_object, lookup}
use ccj.Filters.Evaluate.{
  LeafOp, Key, op_text, leaf_op, find_op, evaluate_leaf, leaf_matches, and_then, or_then, negated,
  evaluate, evaluate_value, every, any_of,
}
use ccj.Filters.Validate.{Leaf, leaf_json, wrapped}
use ccj.Filters.Condition.{
  Condition, Conditions, satisfies, satisfies_all, satisfies_any, stored, stored_items,
}

pub leaf_op-op_text : (o : LeafOp) → leaf_op (op_text o) ≡ some o
unfolding leaf_op find_op text_eq
leaf_op-op_text LeafOp.op_eq = refl
leaf_op-op_text LeafOp.op_ne = refl
leaf_op-op_text LeafOp.op_gt = refl
leaf_op-op_text LeafOp.op_gte = refl
leaf_op-op_text LeafOp.op_lt = refl
leaf_op-op_text LeafOp.op_lte = refl
leaf_op-op_text LeafOp.op_in = refl
leaf_op-op_text LeafOp.op_exists = refl
leaf_op-op_text LeafOp.op_starts_with = refl
leaf_op-op_text LeafOp.op_ends_with = refl
leaf_op-op_text LeafOp.op_contains = refl

pub stored-object : (c : Condition) → is_object (stored c) ≡ true
unfolding stored
stored-object (Condition.leaf l) = refl
stored-object (Condition.all cs) = refl
stored-object (Condition.any cs) = refl
stored-object (Condition.neg c) = refl

not_value :
    (u : Chars) (v payload : Json)
    → is_object v ≡ true
    → evaluate_value u Key.key_not v payload ≡ negated (evaluate u v payload)
unfolding evaluate
not_value u (Json.object fs) payload e = refl
not_value u Json.null payload e = absurd (cc)
not_value u (Json.boolean b) payload e = absurd (cc)
not_value u (Json.number n) payload e = absurd (cc)
not_value u (Json.string t) payload e = absurd (cc)
not_value u (Json.array xs) payload e = absurd (cc)

-- one wrapper
evaluate-wrapped :
    (u : Chars) (k : Key) (v payload : Json)
    → evaluate u (wrapped k v) payload ≡ evaluate_value u k v payload
unfolding evaluate text_eq
evaluate-wrapped u Key.key_all v payload = refl
evaluate-wrapped u Key.key_any v payload = refl
evaluate-wrapped u Key.key_not v payload = refl

leaf_fields-stored :
    (u : Chars) (path : Text) (op : LeafOp) (v : Option Json) (payload : Json)
    → evaluate u (leaf_json (record { path = path; op = op; value = v })) payload
      ≡ leaf_matches u op path v payload
unfolding evaluate text_eq evaluate_leaf lookup
leaf_fields-stored u path op none payload = rw (leaf_op-op_text op) refl
leaf_fields-stored u path op (some w) payload = rw (leaf_op-op_text op) refl

leaf-stored :
    (u : Chars) (l : Leaf) (payload : Json)
    → evaluate u (leaf_json l) payload ≡ leaf_matches u l.op l.path l.value payload
leaf-stored u l payload = leaf_fields-stored u l.path l.op l.value payload

every-nil : (u : Chars) (payload : Json) → every u Items.nil payload ≡ some true
unfolding evaluate
every-nil u payload = refl

every-cons :
    (u : Chars) (x : Json) (xs : Items) (payload : Json)
    → is_object x ≡ true
    → every u (Items.cons x xs) payload ≡ and_then (evaluate u x payload) (every u xs payload)
unfolding evaluate
every-cons u x xs payload e = rw e refl

any_of-nil : (u : Chars) (payload : Json) → any_of u Items.nil payload ≡ some false
unfolding evaluate
any_of-nil u payload = refl

any_of-cons :
    (u : Chars) (x : Json) (xs : Items) (payload : Json)
    → is_object x ≡ true
    → any_of u (Items.cons x xs) payload ≡ or_then (evaluate u x payload) (any_of u xs payload)
unfolding evaluate
any_of-cons u x xs payload e = rw e refl

all_value :
    (u : Chars) (xs : Items) (payload : Json)
    → evaluate_value u Key.key_all (Json.array xs) payload ≡ every u xs payload
unfolding evaluate
all_value u xs payload = refl

any_value :
    (u : Chars) (xs : Items) (payload : Json)
    → evaluate_value u Key.key_any (Json.array xs) payload ≡ any_of u xs payload
unfolding evaluate
any_value u xs payload = refl

mutual
  unfolding satisfies stored

  -- Evaluating the stored form of a condition gives what the condition means.
  pub evaluate-stored :
      (u : Chars) (c : Condition) (payload : Json)
      → evaluate u (stored c) payload ≡ satisfies u c payload
  evaluate-stored u (Condition.leaf l) payload = leaf-stored u l payload
  evaluate-stored u (Condition.all cs) payload =
      evaluate-wrapped u Key.key_all (Json.array (stored_items cs)) payload
      ∙ (all_value u (stored_items cs) payload ∙ every-stored u cs payload)
  evaluate-stored u (Condition.any cs) payload =
      evaluate-wrapped u Key.key_any (Json.array (stored_items cs)) payload
      ∙ (any_value u (stored_items cs) payload ∙ any_of-stored u cs payload)
  evaluate-stored u (Condition.neg c) payload =
      evaluate-wrapped u Key.key_not (stored c) payload
      ∙ (not_value u (stored c) payload (stored-object c)
          ∙ ap negated (evaluate-stored u c payload))

  every-stored :
      (u : Chars) (cs : Conditions) (payload : Json)
      → every u (stored_items cs) payload ≡ satisfies_all u cs payload
  every-stored u Conditions.nil payload = every-nil u payload
  every-stored u (Conditions.cons c cs) payload =
      every-cons u (stored c) (stored_items cs) payload (stored-object c)
      ∙ (λ i. and_then (evaluate-stored u c payload i) (every-stored u cs payload i))

  any_of-stored :
      (u : Chars) (cs : Conditions) (payload : Json)
      → any_of u (stored_items cs) payload ≡ satisfies_any u cs payload
  any_of-stored u Conditions.nil payload = any_of-nil u payload
  any_of-stored u (Conditions.cons c cs) payload =
      any_of-cons u (stored c) (stored_items cs) payload (stored-object c)
      ∙ (λ i. or_then (evaluate-stored u c payload i) (any_of-stored u cs payload i))
