-- ===== src/Filters/Evaluate.antt =====
-- `evaluate` of env/app/subfilters.py, with `_leaf_matches` and `_resolve_path`. A result `none` is that
-- the call raises.
use ccj.Prelude.{
  ℕ, zero, suc, Bool, true, false, Option, none, some, List, [], ◌∷◌, ◌||◌, not, if◌then◌else◌,
}
use ccj.Filters.Text.{
  Text, codes, Chars, text_eq, text_lt, starts_with, ends_with, contains, split, isdigit, to_int,
}
use ccj.Filters.Json.{Json, Items, Fields, is_object, lookup, json_equal, num_lt, num_eq}

-- LEAF_OPS
pub data LeafOp : Type 0 where
  op_eq op_ne op_gt op_gte op_lt op_lte op_in op_exists : LeafOp
  op_starts_with op_ends_with op_contains : LeafOp

abbrev pub op_text : LeafOp → Text
op_text LeafOp.op_eq = codes "eq"
op_text LeafOp.op_ne = codes "ne"
op_text LeafOp.op_gt = codes "gt"
op_text LeafOp.op_gte = codes "gte"
op_text LeafOp.op_lt = codes "lt"
op_text LeafOp.op_lte = codes "lte"
op_text LeafOp.op_in = codes "in"
op_text LeafOp.op_exists = codes "exists"
op_text LeafOp.op_starts_with = codes "starts_with"
op_text LeafOp.op_ends_with = codes "ends_with"
op_text LeafOp.op_contains = codes "contains"

abbrev leaf_ops : List LeafOp
leaf_ops =
    LeafOp.op_eq ∷ LeafOp.op_ne ∷ LeafOp.op_gt ∷ LeafOp.op_gte ∷ LeafOp.op_lt ∷ LeafOp.op_lte
    ∷ LeafOp.op_in ∷ LeafOp.op_exists ∷ LeafOp.op_starts_with ∷ LeafOp.op_ends_with
    ∷ LeafOp.op_contains ∷ []

unfoldable pub find_op : Text → List LeafOp → Option LeafOp
find_op t [] = none
find_op t (o ∷ os) = if text_eq t (op_text o) then some o else find_op t os

-- the op of this name, if it is in LEAF_OPS
unfoldable pub leaf_op : Text → Option LeafOp
unfolding find_op
leaf_op t = find_op t leaf_ops

abbrev pub item : ℕ → Items → Option Json
item n Items.nil = none
item zero (Items.cons x xs) = some x
item (suc n) (Items.cons x xs) = item n xs

-- What a path leads to.
pub data Found : Type 0 where
  found : Json → Found
  missing : Found
  raised : Found

abbrev pub of_lookup : Option Json → Found
of_lookup none = Found.missing
of_lookup (some v) = Found.found v

abbrev pub at_index : Items → Option ℕ → Found
at_index xs none = Found.raised
at_index xs (some n) = of_lookup (item n xs)

-- one round of the loop
unfoldable pub descend : Chars → Text → Json → Found
unfolding lookup
descend u segment (Json.object fs) = of_lookup (lookup segment fs)
descend u segment (Json.array xs) =
    if isdigit u segment then at_index xs (to_int u segment 0) else Found.missing
descend u segment _ = Found.missing

unfoldable pub resolve : Chars → List Text → Json → Found
unfolding descend
resolve u [] v = Found.found v
resolve u (s ∷ ss) v = elim (descend u s v) [
  | found w ↦ resolve u ss w
  | missing ↦ Found.missing
  | raised ↦ Found.raised
]

-- `_resolve_path`
unfoldable pub resolve_path : Chars → Json → Text → Found
unfolding resolve split
resolve_path u payload path = resolve u (split path) payload

-- the four orders, of two values that the code compares
abbrev pub compare_numbers : LeafOp → Bool → Bool → Bool → Bool
compare_numbers LeafOp.op_gt lt eq gt = gt
compare_numbers LeafOp.op_gte lt eq gt = gt || eq
compare_numbers LeafOp.op_lt lt eq gt = lt
compare_numbers _ lt eq gt = lt || eq

unfoldable pub ordered : LeafOp → Json → Json → Bool
unfolding num_lt num_eq text_lt text_eq
ordered op (Json.number m) (Json.number n) =
    compare_numbers op (num_lt m n) (num_eq m n) (num_lt n m)
ordered op (Json.string s) (Json.string t) =
    compare_numbers op (text_lt s t) (text_eq s t) (text_lt t s)
ordered op _ _ = false

unfoldable pub any_equal : Json → Items → Bool
unfolding json_equal
any_equal v Items.nil = false
any_equal v (Items.cons x xs) = json_equal v x || any_equal v xs

unfoldable pub any_char : Json → Text → Bool
unfolding json_equal
any_char v [] = false
any_char v (c ∷ s) = json_equal v (Json.string (c ∷ [])) || any_char v s

unfoldable pub any_key : Json → Fields → Bool
unfolding json_equal
any_key v Fields.end = false
any_key v (Fields.field k w fs) = json_equal v (Json.string k) || any_key v fs

-- any(json_equal(actual, member) for member in operand)
unfoldable pub in_operand : Json → Json → Option Bool
unfolding any_equal any_char any_key
in_operand v (Json.array xs) = some (any_equal v xs)
in_operand v (Json.string t) = some (any_char v t)
in_operand v (Json.object fs) = some (any_key v fs)
in_operand v _ = none

abbrev by_text : (Text → Text → Bool) → Json → Json → Bool
by_text test (Json.string s) (Json.string t) = test s t
by_text test _ _ = false

-- the tests of `_leaf_matches` on a value that is there
unfoldable pub value_matches : LeafOp → Json → Json → Option Bool
unfolding json_equal ordered in_operand starts_with ends_with contains
value_matches LeafOp.op_exists v w = some true
value_matches LeafOp.op_eq v w = some (json_equal v w)
value_matches LeafOp.op_ne v w = some (not (json_equal v w))
value_matches LeafOp.op_gt v w = some (ordered LeafOp.op_gt v w)
value_matches LeafOp.op_gte v w = some (ordered LeafOp.op_gte v w)
value_matches LeafOp.op_lt v w = some (ordered LeafOp.op_lt v w)
value_matches LeafOp.op_lte v w = some (ordered LeafOp.op_lte v w)
value_matches LeafOp.op_in v w = in_operand v w
value_matches LeafOp.op_starts_with v w = some (by_text starts_with v w)
value_matches LeafOp.op_ends_with v w = some (by_text ends_with v w)
value_matches LeafOp.op_contains v w = some (by_text contains v w)

-- node.get("value")
abbrev pub operand_of : Option Json → Json
operand_of none = Json.null
operand_of (some w) = w

abbrev pub found_matches : LeafOp → Json → Found → Option Bool
found_matches op w (Found.found v) = value_matches op v w
found_matches op w Found.missing = some false
found_matches op w Found.raised = none

-- `_leaf_matches`
unfoldable pub leaf_matches : Chars → LeafOp → Text → Option Json → Json → Option Bool
unfolding resolve_path value_matches
leaf_matches u op path operand payload =
    found_matches op (operand_of operand) (resolve_path u payload path)

-- `spec.get("op") in LEAF_OPS and isinstance(spec.get("path"), str)`, and the leaf
abbrev leaf_with : Chars → LeafOp → Option Json → Option Json → Json → Option Bool
leaf_with u op (some (Json.string path)) operand payload = leaf_matches u op path operand payload
leaf_with u op _ operand payload = some false

abbrev pub leaf_named : Chars → Option LeafOp → Option Json → Option Json → Json → Option Bool
leaf_named u none path operand payload = some false
leaf_named u (some op) path operand payload = leaf_with u op path operand payload

-- a list or a dict has no hash
abbrev pub leaf_of : Chars → Option Json → Option Json → Option Json → Json → Option Bool
leaf_of u (some (Json.string op)) path operand payload =
    leaf_named u (leaf_op op) path operand payload
leaf_of u (some (Json.array xs)) path operand payload = none
leaf_of u (some (Json.object fs)) path operand payload = none
leaf_of u _ path operand payload = some false

unfoldable pub evaluate_leaf : Chars → Fields → Json → Option Bool
unfolding leaf_matches leaf_op lookup
evaluate_leaf u fs payload =
    leaf_of u (lookup (codes "op") fs) (lookup (codes "path") fs) (lookup (codes "value") fs)
      payload

-- COMBINATOR_KEYS
pub data Key : Type 0 where
  key_all key_any key_not : Key

abbrev pub key_text : Key → Text
key_text Key.key_all = codes "all"
key_text Key.key_any = codes "any"
key_text Key.key_not = codes "not"

-- a and b(), a or b(), not a
abbrev pub and_then : Option Bool → Option Bool → Option Bool
and_then none r = none
and_then (some false) r = some false
and_then (some true) r = r

abbrev pub or_then : Option Bool → Option Bool → Option Bool
or_then none r = none
or_then (some true) r = some true
or_then (some false) r = r

abbrev pub negated : Option Bool → Option Bool
negated none = none
negated (some b) = some (not b)

abbrev pub first_of : Option (Option Bool) → Option Bool → Option Bool
first_of none r = r
first_of (some r) s = r

-- the branches of `evaluate`, in order
abbrev pub branches :
    Option (Option Bool) → Option (Option Bool) → Option (Option Bool) → Option Bool → Option Bool
branches all any neg leaf = first_of all (first_of any (first_of neg leaf))

unfoldable mutual
  unfolding evaluate_leaf

  pub evaluate : Chars → Json → Json → Option Bool
  evaluate u (Json.object fs) payload =
      branches (evaluate_key u Key.key_all fs payload) (evaluate_key u Key.key_any fs payload)
        (evaluate_key u Key.key_not fs payload) (evaluate_leaf u fs payload)
  evaluate u _ payload = some false

  -- what the value under the key gives, if the key is there
  pub evaluate_key : Chars → Key → Fields → Json → Option (Option Bool)
  evaluate_key u k Fields.end payload = none
  evaluate_key u k (Fields.field j v fs) payload =
      if text_eq j (key_text k)
      then some (evaluate_value u k v payload)
      else evaluate_key u k fs payload

  pub evaluate_value : Chars → Key → Json → Json → Option Bool
  evaluate_value u Key.key_all (Json.array xs) payload = every u xs payload
  evaluate_value u Key.key_any (Json.array xs) payload = any_of u xs payload
  evaluate_value u Key.key_not (Json.object fs) payload = negated (
      branches (evaluate_key u Key.key_all fs payload) (evaluate_key u Key.key_any fs payload)
        (evaluate_key u Key.key_not fs payload) (evaluate_leaf u fs payload))
  evaluate_value u _ _ payload = some false

  pub every : Chars → Items → Json → Option Bool
  every u Items.nil payload = some true
  every u (Items.cons x xs) payload =
      if is_object x then and_then (evaluate u x payload) (every u xs payload) else some false

  pub any_of : Chars → Items → Json → Option Bool
  any_of u Items.nil payload = some false
  any_of u (Items.cons x xs) payload =
      if is_object x
      then or_then (evaluate u x payload) (any_of u xs payload)
      else any_of u xs payload
