-- ===== src/Filters/Condition/Leaves.antt =====
-- `_validate_leaf` of env/app/subfilters.py: what a leaf that it takes means.
use ccj.Prelude.{
  ◌≡◌, refl, subst, sym, true, false, Option, none, some, arith, Bool-cases, inl, inr,
}
use ccj.Filters.Text.{Text, Chars, codes}
use ccj.Filters.Json.{Json, Fields, lookup}
use ccj.Filters.Evaluate.{
  LeafOp, leaf_op, evaluate_leaf, leaf_matches, leaf_of, leaf_named, found_matches, value_matches,
  operand_of, resolve_path, Found,
}
use ccj.Filters.Validate.{
  Leaf, valid, validate_leaf, leaf_fields, leaf_path, leaf_op_value, leaf_value, checked_leaf,
  op_named, check_path, check_value, is_exists, unexpected, leaf_keys, FilterSpecError,
}
use ccj.Filters.Condition.{FitsLeaf}

exists_found :
    (v w : Json) (f : Found)
    → found_matches LeafOp.op_exists v f ≡ found_matches LeafOp.op_exists w f
unfolding value_matches
exists_found v w (Found.found x) = refl
exists_found v w Found.missing = refl
exists_found v w Found.raised = refl

-- the operand of `exists` is not looked at
exists_operand :
    (u : Chars) (op : LeafOp) (path : Text) (v w : Option Json) (payload : Json)
    → is_exists op ≡ true
    → leaf_matches u op path v payload ≡ leaf_matches u op path w payload
unfolding leaf_matches value_matches
exists_operand u LeafOp.op_exists path v w payload e =
    exists_found (operand_of v) (operand_of w) (resolve_path u payload path)
exists_operand u LeafOp.op_eq path v w payload e = absurd (cc)
exists_operand u LeafOp.op_ne path v w payload e = absurd (cc)
exists_operand u LeafOp.op_gt path v w payload e = absurd (cc)
exists_operand u LeafOp.op_gte path v w payload e = absurd (cc)
exists_operand u LeafOp.op_lt path v w payload e = absurd (cc)
exists_operand u LeafOp.op_lte path v w payload e = absurd (cc)
exists_operand u LeafOp.op_in path v w payload e = absurd (cc)
exists_operand u LeafOp.op_starts_with path v w payload e = absurd (cc)
exists_operand u LeafOp.op_ends_with path v w payload e = absurd (cc)
exists_operand u LeafOp.op_contains path v w payload e = absurd (cc)

-- a leaf and how the conditions read it
abbrev ReadsLeaf : Chars → Option Json → Option Json → Option Json → Leaf → Type 0
ReadsLeaf u o p v l =
    FitsLeaf u l
    × ((payload : Json) → leaf_of u o p v payload ≡ leaf_matches u l.op l.path l.value payload)

valued_reads :
    (u : Chars) (op : LeafOp) (path : Text) (w : Json) (c : Option FilterSpecError) (l : Leaf)
    → check_path u path ≡ none
    → is_exists op ≡ false
    → check_value op w ≡ c
    → checked_leaf path op w c ≡ valid l
    → FitsLeaf u l
      × ((payload : Json)
          → leaf_matches u op path (some w) payload ≡ leaf_matches u l.op l.path l.value payload)
valued_reads u op path w none l a b c e = ground arith
valued_reads u op path w (some x) l a b c e = absurd (cc)

valued_by :
    (u : Chars) (op : LeafOp) (path : Text) (v : Option Json) (l : Leaf)
    → check_path u path ≡ none
    → is_exists op ≡ false
    → leaf_value path op v ≡ valid l
    → FitsLeaf u l
      × ((payload : Json)
          → leaf_matches u op path v payload ≡ leaf_matches u l.op l.path l.value payload)
valued_by u op path none l a f e = absurd (cc)
valued_by u op path (some w) l a f e = valued_reads u op path w (check_value op w) l a f refl e

no_op :
    (u : Chars) (path : Text) (v : Option Json) (l : Leaf) (c : Option FilterSpecError)
    → leaf_path path c none v ≡ valid l
    → ⊥
no_op u path v l none e = absurd (cc)
no_op u path v l (some x) e = absurd (cc)

named_reads :
    (u : Chars) (op : LeafOp) (path : Text) (v : Option Json) (l : Leaf)
    → check_path u path ≡ none
    → leaf_op_value path (some op) v ≡ valid l
    → FitsLeaf u l
      × ((payload : Json)
          → leaf_matches u op path v payload ≡ leaf_matches u l.op l.path l.value payload)
named_reads u op path v l a e = elim (Bool-cases (is_exists op)) [
  | inl t ↦
      let same : l ≡ record { path = path; op = op; value = none } = ground arith in
      subst
        (λ (l : Leaf).
          FitsLeaf u l
          × ((payload : Json)
              → leaf_matches u op path v payload ≡ leaf_matches u l.op l.path l.value payload))
        (sym same) ((a, t), (λ payload. exists_operand u op path v none payload t))
  | inr f ↦ valued_by u op path v l a f (ground arith)
]

path_reads :
    (u : Chars) (o : Option LeafOp) (path : Text) (v : Option Json) (l : Leaf)
    (c : Option FilterSpecError)
    → check_path u path ≡ c
    → leaf_path path c o v ≡ valid l
    → FitsLeaf u l
      × ((payload : Json)
          → leaf_named u o (some (Json.string path)) v payload
            ≡ leaf_matches u l.op l.path l.value payload)
path_reads u o path v l (some x) a e = absurd (cc)
path_reads u none path v l none a e = absurd (cc)
path_reads u (some op) path v l none a e = named_reads u op path v l a e

text_reads :
    (u : Chars) (o : Option Json) (path : Text) (v : Option Json) (l : Leaf)
    → leaf_path path (check_path u path) (op_named o) v ≡ valid l
    → ReadsLeaf u o (some (Json.string path)) v l
text_reads u (some (Json.string t)) path v l e =
    path_reads u (leaf_op t) path v l (check_path u path) refl e
text_reads u none path v l e = absurd (no_op u path v l (check_path u path) e)
text_reads u (some Json.null) path v l e = absurd (no_op u path v l (check_path u path) e)
text_reads u (some (Json.boolean b)) path v l e = absurd (no_op u path v l (check_path u path) e)
text_reads u (some (Json.number n)) path v l e = absurd (no_op u path v l (check_path u path) e)
text_reads u (some (Json.array xs)) path v l e = absurd (no_op u path v l (check_path u path) e)
text_reads u (some (Json.object fs)) path v l e = absurd (no_op u path v l (check_path u path) e)

fields_read :
    (u : Chars) (p o v : Option Json) (l : Leaf)
    → leaf_fields u p o v ≡ valid l
    → ReadsLeaf u o p v l
fields_read u (some (Json.string path)) o v l e = text_reads u o path v l e
fields_read u none o v l e = absurd (cc)
fields_read u (some Json.null) o v l e = absurd (cc)
fields_read u (some (Json.boolean b)) o v l e = absurd (cc)
fields_read u (some (Json.number n)) o v l e = absurd (cc)
fields_read u (some (Json.array xs)) o v l e = absurd (cc)
fields_read u (some (Json.object fs)) o v l e = absurd (cc)

-- a leaf that is taken can be stored, and is read as before
pub validate_leaf-reads :
    (u : Chars) (fs : Fields) (l : Leaf)
    → validate_leaf u fs ≡ valid l
    → FitsLeaf u l
      × ((payload : Json) → evaluate_leaf u fs payload ≡ leaf_matches u l.op l.path l.value payload)
unfolding validate_leaf evaluate_leaf
validate_leaf-reads u fs l e =
    fields_read u (lookup (codes "path") fs) (lookup (codes "op") fs) (lookup (codes "value") fs) l
      (elim (Bool-cases (unexpected leaf_keys fs)) [
        | inl t ↦ absurd (ground arith)
        | inr f ↦ rw f at e
      ])
