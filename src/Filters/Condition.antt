-- ===== src/Filters/Condition.antt =====
-- What a stored condition means, apart from how it is written: a tree of leaves under `all`, `any` and
-- `not`. env/app/subfilters.py describes it in its first comment.
pub mod Stored
pub mod Leaves
pub mod Checked
pub mod Walk
pub mod Again
pub mod Validated
pub mod Total
use ccj.Prelude.{ℕ, zero, suc, ◌+◌, ◌≤◌, ◌≡◌, Bool, true, false, Option, none, some, ◌&&◌, ◌||◌}
use ccj.Filters.Text.{Text, Chars}
use ccj.Filters.Json.{Json, Items}
use ccj.Filters.Evaluate.{LeafOp, Key, leaf_matches, and_then, or_then, negated}
use ccj.Filters.Validate.{Leaf, leaf_json, wrapped, check_path, check_value, is_exists}

mutual
  pub data Condition : Type 0 where
    leaf : Leaf → Condition
    all : Conditions → Condition
    any : Conditions → Condition
    neg : Condition → Condition

  pub data Conditions : Type 0 where
    nil : Conditions
    cons : Condition → Conditions → Conditions

-- whether a body satisfies a condition
unfoldable mutual
  unfolding leaf_matches

  pub satisfies : Chars → Condition → Json → Option Bool
  satisfies u (Condition.leaf l) payload = leaf_matches u l.op l.path l.value payload
  satisfies u (Condition.all cs) payload = satisfies_all u cs payload
  satisfies u (Condition.any cs) payload = satisfies_any u cs payload
  satisfies u (Condition.neg c) payload = negated (satisfies u c payload)

  pub satisfies_all : Chars → Conditions → Json → Option Bool
  satisfies_all u Conditions.nil payload = some true
  satisfies_all u (Conditions.cons c cs) payload =
      and_then (satisfies u c payload) (satisfies_all u cs payload)

  pub satisfies_any : Chars → Conditions → Json → Option Bool
  satisfies_any u Conditions.nil payload = some false
  satisfies_any u (Conditions.cons c cs) payload =
      or_then (satisfies u c payload) (satisfies_any u cs payload)

-- how a condition is stored
unfoldable mutual
  pub stored : Condition → Json
  stored (Condition.leaf l) = leaf_json l
  stored (Condition.all cs) = wrapped Key.key_all (Json.array (stored_items cs))
  stored (Condition.any cs) = wrapped Key.key_any (Json.array (stored_items cs))
  stored (Condition.neg c) = wrapped Key.key_not (stored c)

  pub stored_items : Conditions → Items
  stored_items Conditions.nil = Items.nil
  stored_items (Conditions.cons c cs) = Items.cons (stored c) (stored_items cs)

unfoldable mutual
  -- the number of conditions in a condition
  pub nodes : Condition → ℕ
  nodes (Condition.leaf l) = 1
  nodes (Condition.all cs) = suc (all_nodes cs)
  nodes (Condition.any cs) = suc (all_nodes cs)
  nodes (Condition.neg c) = suc (nodes c)

  pub all_nodes : Conditions → ℕ
  all_nodes Conditions.nil = 0
  all_nodes (Conditions.cons c cs) = nodes c + all_nodes cs

abbrev pub FitsValue : LeafOp → Option Json → Type 0
FitsValue op none = is_exists op ≡ true
FitsValue op (some v) = (is_exists op ≡ false) × (check_value op v ≡ none)

abbrev pub FitsLeaf : Chars → Leaf → Type 0
FitsLeaf u l = (check_path u l.path ≡ none) × FitsValue l.op l.value

-- Which conditions may be stored: each leaf is checked, each list has a member, and no condition stands
-- deeper than `max_nesting_depth`.
unfoldable mutual
  unfolding check_path check_value all_nodes

  pub Fits : Chars → Condition → ℕ → Type 0
  Fits u (Condition.leaf l) depth = (depth ≤ 8) × FitsLeaf u l
  Fits u (Condition.all cs) depth = (depth ≤ 8) × (1 ≤ all_nodes cs) × AllFit u cs (depth + 1)
  Fits u (Condition.any cs) depth = (depth ≤ 8) × (1 ≤ all_nodes cs) × AllFit u cs (depth + 1)
  Fits u (Condition.neg c) depth = (depth ≤ 8) × Fits u c (depth + 1)

  pub AllFit : Chars → Conditions → ℕ → Type 0
  AllFit u Conditions.nil depth = Unit
  AllFit u (Conditions.cons c cs) depth = Fits u c depth × AllFit u cs depth
