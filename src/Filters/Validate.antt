-- ===== src/Filters/Validate.antt =====
-- `validate_filter_spec` of env/app/subfilters.py, with `_validate_leaf` and `_ensure_json_value`.
use ccj.Prelude.{
  ℕ, suc, ◌+◌, Bool, true, false, Option, none, some, List, [], ◌∷◌, ◌&&◌, ◌||◌, not, ltb,
  if◌then◌else◌, length,
}
use ccj.Filters.Text.{Text, codes, Chars, text_eq, split, is_blank, is_empty}
use ccj.Filters.Json.{Json, Items, Fields, is_finite, lookup, has}
use ccj.Filters.Evaluate.{LeafOp, op_text, leaf_op, Key, key_text}

abbrev pub max_nesting_depth : ℕ
max_nesting_depth = 8

abbrev pub max_nodes : ℕ
max_nodes = 100

abbrev pub max_path_length : ℕ
max_path_length = 512

abbrev pub max_in_list : ℕ
max_in_list = 100

abbrev pub max_string_operand_length : ℕ
max_string_operand_length = 4096

-- The places that raise FilterSpecError.
pub data FilterSpecError : Type 0 where
  too_complex nested_too_deeply not_an_object both_kinds neither_kind several_keys : FilterSpecError
  not_one_condition not_a_list extra_keys unknown_fields no_path path_too_long : FilterSpecError
  empty_segment unknown_op no_value not_finite not_comparable not_a_choice : FilterSpecError
  too_many_choices not_a_string string_too_long : FilterSpecError

unfoldable mutual
  -- `_ensure_json_value`: the keys of an object are always strings here
  pub ensure_json_value : Json → Bool
  ensure_json_value (Json.number n) = is_finite n
  ensure_json_value (Json.array xs) = ensure_items xs
  ensure_json_value (Json.object fs) = ensure_fields fs
  ensure_json_value _ = true

  pub ensure_items : Items → Bool
  ensure_items Items.nil = true
  ensure_items (Items.cons x xs) = ensure_json_value x && ensure_items xs

  pub ensure_fields : Fields → Bool
  ensure_fields Fields.end = true
  ensure_fields (Fields.field k v fs) = ensure_json_value v && ensure_fields fs

abbrev pub item_count : Items → ℕ
item_count Items.nil = 0
item_count (Items.cons x xs) = suc (item_count xs)

abbrev check_in : Items → Option FilterSpecError
check_in Items.nil = some FilterSpecError.not_a_choice
check_in (Items.cons x xs) =
    if ltb max_in_list (suc (item_count xs))
    then some FilterSpecError.too_many_choices
    else if ensure_items (Items.cons x xs)
    then none
    else some FilterSpecError.not_finite

abbrev pub value_op : LeafOp → Json → Option FilterSpecError
value_op LeafOp.op_exists v = none
value_op LeafOp.op_eq v = if ensure_json_value v then none else some FilterSpecError.not_finite
value_op LeafOp.op_ne v = if ensure_json_value v then none else some FilterSpecError.not_finite
value_op LeafOp.op_in (Json.array xs) = check_in xs
value_op LeafOp.op_in v = some FilterSpecError.not_a_choice
value_op LeafOp.op_starts_with (Json.string t) =
    if ltb max_string_operand_length (length t) then some FilterSpecError.string_too_long else none
value_op LeafOp.op_ends_with (Json.string t) =
    if ltb max_string_operand_length (length t) then some FilterSpecError.string_too_long else none
value_op LeafOp.op_contains (Json.string t) =
    if ltb max_string_operand_length (length t) then some FilterSpecError.string_too_long else none
value_op LeafOp.op_starts_with v = some FilterSpecError.not_a_string
value_op LeafOp.op_ends_with v = some FilterSpecError.not_a_string
value_op LeafOp.op_contains v = some FilterSpecError.not_a_string
value_op _ (Json.number n) = none
value_op _ (Json.string t) = none
value_op _ v = some FilterSpecError.not_comparable

-- the checks of a leaf's value
unfoldable pub check_value : LeafOp → Json → Option FilterSpecError
unfolding ensure_json_value
check_value op v = value_op op v

abbrev pub is_exists : LeafOp → Bool
is_exists LeafOp.op_exists = true
is_exists _ = false

abbrev pub listed : Text → List Text → Bool
listed k [] = false
listed k (j ∷ js) = text_eq k j || listed k js

-- set(node) - keys, if it is not empty
unfoldable pub unexpected : List Text → Fields → Bool
unfolding text_eq
unexpected keys Fields.end = false
unexpected keys (Fields.field k v fs) = not (listed k keys) || unexpected keys fs

-- What a check gives, or raises.
pub data Valid {ℓ} (A : Type ℓ) : Type ℓ where
  valid : A → Valid A
  invalid : FilterSpecError → Valid A

-- `path`, `op` and `value` of a leaf that is stored; a condition `exists` has no value
pub record Leaf : Type 0 where
  pub path : Text
  pub op : LeafOp
  pub value : Option Json

abbrev any_empty : List Text → Bool
any_empty [] = false
any_empty (s ∷ ss) = is_empty s || any_empty ss

-- the checks of a path that is a text
unfoldable pub check_path : Chars → Text → Option FilterSpecError
unfolding is_blank split
check_path u path =
    if is_blank u path
    then some FilterSpecError.no_path
    else if ltb max_path_length (length path)
    then some FilterSpecError.path_too_long
    else if any_empty (split path)
    then some FilterSpecError.empty_segment
    else none

abbrev pub checked_leaf : Text → LeafOp → Json → Option FilterSpecError → Valid Leaf
checked_leaf path op v (some e) = invalid e
checked_leaf path op v none = valid (record { path = path; op = op; value = some v })

abbrev pub leaf_value : Text → LeafOp → Option Json → Valid Leaf
leaf_value path op none = invalid FilterSpecError.no_value
leaf_value path op (some v) = checked_leaf path op v (check_value op v)

abbrev pub leaf_op_value : Text → Option LeafOp → Option Json → Valid Leaf
leaf_op_value path none v = invalid FilterSpecError.unknown_op
leaf_op_value path (some op) v =
    if is_exists op
    then valid (record { path = path; op = op; value = none })
    else leaf_value path op v

abbrev pub op_named : Option Json → Option LeafOp
op_named (some (Json.string t)) = leaf_op t
op_named _ = none

abbrev pub leaf_path : Text → Option FilterSpecError → Option LeafOp → Option Json → Valid Leaf
leaf_path path (some e) op v = invalid e
leaf_path path none op v = leaf_op_value path op v

abbrev pub leaf_fields : Chars → Option Json → Option Json → Option Json → Valid Leaf
leaf_fields u (some (Json.string path)) op v = leaf_path path (check_path u path) (op_named op) v
leaf_fields u _ op v = invalid FilterSpecError.no_path

abbrev pub leaf_keys : List Text
leaf_keys = codes "path" ∷ codes "op" ∷ codes "value" ∷ []

-- `_validate_leaf`
unfoldable pub validate_leaf : Chars → Fields → Valid Leaf
unfolding unexpected check_path leaf_op check_value lookup
validate_leaf u fs =
    if unexpected leaf_keys fs
    then invalid FilterSpecError.unknown_fields
    else leaf_fields u (lookup (codes "path") fs) (lookup (codes "op") fs)
        (lookup (codes "value") fs)

abbrev value_field : Option Json → Fields
value_field none = Fields.end
value_field (some v) = Fields.field (codes "value") v Fields.end

-- the value that `_validate_leaf` returns
abbrev pub leaf_json : Leaf → Json
leaf_json l = Json.object (
    Fields.field (codes "path") (Json.string l.path)
      (Fields.field (codes "op") (Json.string (op_text l.op)) (value_field l.value)))

-- The kind of a condition, by its keys.
pub data Shape : Type 0 where
  leaf : Shape
  wraps : Key → Shape
  malformed : FilterSpecError → Shape

abbrev pub shape_of : Bool → Bool → Bool → Bool → Shape
shape_of true false false false = Shape.leaf
shape_of true _ _ _ = Shape.malformed FilterSpecError.both_kinds
shape_of false false false false = Shape.malformed FilterSpecError.neither_kind
shape_of false true false false = Shape.wraps Key.key_all
shape_of false false true false = Shape.wraps Key.key_any
shape_of false false false true = Shape.wraps Key.key_not
shape_of false _ _ _ = Shape.malformed FilterSpecError.several_keys

unfoldable pub shape : Fields → Shape
unfolding has
shape fs =
    shape_of (has (codes "op") fs || has (codes "path") fs) (has (codes "all") fs)
      (has (codes "any") fs) (has (codes "not") fs)

-- `walk` threads `node_count`.
pub data Walked {ℓ} (A : Type ℓ) : Type ℓ where
  walked : ℕ → A → Walked A
  refused : FilterSpecError → Walked A

abbrev pub guarded {ℓ} : {A : Type ℓ} → ℕ → ℕ → Walked A → Walked A
guarded depth n r =
    if ltb max_nodes n
    then refused FilterSpecError.too_complex
    else if ltb max_nesting_depth depth
    then refused FilterSpecError.nested_too_deeply
    else r

abbrev pub of_leaf : ℕ → Valid Leaf → Walked Json
of_leaf n (valid l) = walked n (leaf_json l)
of_leaf n (invalid e) = refused e

-- the branches of `walk`, for the results of its parts
abbrev pub by_shape : Shape → Walked Json → Walked Json → Walked Json → Walked Json → Walked Json
by_shape Shape.leaf l a o n = l
by_shape (Shape.wraps Key.key_all) l a o n = a
by_shape (Shape.wraps Key.key_any) l a o n = o
by_shape (Shape.wraps Key.key_not) l a o n = n
by_shape (Shape.malformed e) l a o n = refused e

abbrev pub wrapped : Key → Json → Json
wrapped k v = Json.object (Fields.field (key_text k) v Fields.end)

abbrev pub wrap_one : Walked Json → Walked Json
wrap_one (walked n v) = walked n (wrapped Key.key_not v)
wrap_one (refused e) = refused e

abbrev pub wrap_list : Key → Walked Items → Walked Json
wrap_list k (walked n xs) = walked n (wrapped k (Json.array xs))
wrap_list k (refused e) = refused e

abbrev pub is_nil : Items → Bool
is_nil Items.nil = true
is_nil (Items.cons x xs) = false

abbrev pub list_guard : Bool → Items → Walked Json → Walked Json
list_guard extra xs r =
    if is_nil xs
    then refused FilterSpecError.not_a_list
    else if extra
    then refused FilterSpecError.extra_keys
    else r

abbrev pub then_items : Json → Walked Items → Walked Items
then_items y (walked n ys) = walked n (Items.cons y ys)
then_items y (refused e) = refused e

unfoldable mutual
  unfolding shape validate_leaf unexpected text_eq

  -- `walk`, of a condition at this depth, after `n` conditions
  pub walk : Chars → Json → ℕ → ℕ → Walked Json
  walk u (Json.object fs) depth n = guarded depth (n + 1) (
      by_shape (shape fs) (of_leaf (n + 1) (validate_leaf u fs))
        (walk_key u Key.key_all (unexpected (codes "all" ∷ []) fs) fs depth (n + 1))
        (walk_key u Key.key_any (unexpected (codes "any" ∷ []) fs) fs depth (n + 1))
        (walk_key u Key.key_not (unexpected (codes "not" ∷ []) fs) fs depth (n + 1)))
  walk u _ depth n = guarded depth (n + 1) (refused FilterSpecError.not_an_object)

  -- the value under the key
  pub walk_key : Chars → Key → Bool → Fields → ℕ → ℕ → Walked Json
  walk_key u k extra Fields.end depth n = refused FilterSpecError.neither_kind
  walk_key u k extra (Fields.field j v fs) depth n =
      if text_eq j (key_text k)
      then walk_value u k extra v depth n
      else walk_key u k extra fs depth n

  pub walk_value : Chars → Key → Bool → Json → ℕ → ℕ → Walked Json
  walk_value u Key.key_not extra (Json.object fs) depth n =
      if extra
      then refused FilterSpecError.extra_keys
      else wrap_one (
          guarded (depth + 1) (n + 1) (
            by_shape (shape fs) (of_leaf (n + 1) (validate_leaf u fs))
              (walk_key u Key.key_all (unexpected (codes "all" ∷ []) fs) fs (depth + 1) (n + 1))
              (walk_key u Key.key_any (unexpected (codes "any" ∷ []) fs) fs (depth + 1) (n + 1))
              (walk_key u Key.key_not (unexpected (codes "not" ∷ []) fs) fs (depth + 1) (n + 1))))
  walk_value u Key.key_not extra v depth n = refused FilterSpecError.not_one_condition
  walk_value u Key.key_all extra (Json.array xs) depth n =
      list_guard extra xs (wrap_list Key.key_all (walk_items u xs (depth + 1) n))
  walk_value u Key.key_any extra (Json.array xs) depth n =
      list_guard extra xs (wrap_list Key.key_any (walk_items u xs (depth + 1) n))
  walk_value u k extra v depth n = refused FilterSpecError.not_a_list

  pub walk_items : Chars → Items → ℕ → ℕ → Walked Items
  walk_items u Items.nil depth n = walked n Items.nil
  walk_items u (Items.cons x xs) depth n = elim (walk u x depth n) [
    | walked m y ↦ then_items y (walk_items u xs depth m)
    | refused e ↦ refused e
  ]

abbrev pub of_walk : Walked Json → Valid Json
of_walk (walked n v) = valid v
of_walk (refused e) = invalid e

-- `validate_filter_spec`
unfoldable pub validate_filter_spec : Chars → Json → Valid Json
unfolding walk
validate_filter_spec u spec = of_walk (walk u spec 1 0)
