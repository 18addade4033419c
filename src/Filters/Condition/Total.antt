-- ===== src/Filters/Condition/Total.antt =====
-- When `evaluate` of env/app/subfilters.py raises on a condition that `validate_filter_spec` took.
use ccj.Prelude.{
  ℕ, ◌+◌, ◌*◌, ◌≡◌, ◌≢◌, refl, arith, some, none, Option, Bool, true, false, subst, sym, not, ◌||◌,
  ◌&&◌, ◌==◌, is_some, List, [], ◌∷◌, Bool-cases, inl, inr,
}
use ccj.Sql.Evolve.{All}
use ccj.Filters.Text.{put, codes, text_eq, Text, Chars, Digit, isdigit, all_digits, to_int, split}
use ccj.Filters.Json.{Json, Items, Fields, lookup}
use ccj.Filters.Evaluate.{
  Key, LeafOp, Found, item, descend, resolve, resolve_path, evaluate, value_matches, in_operand,
  leaf_matches, found_matches, operand_of, and_then, or_then, negated, of_lookup, at_index,
}
use ccj.Filters.Validate.{wrapped, valid, validate_filter_spec, Leaf, check_value}
use ccj.Filters.Condition.{
  Condition, Conditions, stored, stored_items, satisfies, satisfies_all, satisfies_any, Fits,
  AllFit, FitsValue,
}
use ccj.Filters.Condition.Validated.{validate_filter_spec-IsChecked}

abbrev pub int_reads : Digit → Bool
int_reads Digit.other_digit = false
int_reads _ = true

-- no character of the text is a digit for `str.isdigit` that `int` refuses, as a superscript two is
abbrev pub is_plain : Chars → Text → Bool
is_plain u [] = true
is_plain u (c ∷ s) = int_reads (u.digit c) && is_plain u s

abbrev pub is_plain_path : Chars → Text → Json → Bool
is_plain_path u k (Json.string s) = not (text_eq k (codes "path")) || is_plain u s
is_plain_path u k _ = true

-- whether each text that is stored under "path" is plain
unfoldable mutual
  unfolding text_eq

  pub has_plain_paths : Chars → Json → Bool
  has_plain_paths u (Json.array xs) = items_plain u xs
  has_plain_paths u (Json.object fs) = fields_plain u fs
  has_plain_paths u _ = true

  pub items_plain : Chars → Items → Bool
  items_plain u Items.nil = true
  items_plain u (Items.cons x xs) = has_plain_paths u x && items_plain u xs

  pub fields_plain : Chars → Fields → Bool
  fields_plain u Fields.end = true
  fields_plain u (Fields.field k v fs) =
      is_plain_path u k v && (has_plain_paths u v && fields_plain u fs)

abbrev ArePlain : Chars → List Text → Type 0
ArePlain u ss = All (λ (s : Text). is_plain u s ≡ true) ss

put-ArePlain :
    (u : Chars) (c : ℕ) (ss : List Text)
    → int_reads (u.digit c) ≡ true
    → ArePlain u ss
    → ArePlain u (put c ss)
put-ArePlain u c [] h a = (ground arith, tt)
put-ArePlain u c (s ∷ ss) h a = (let p = a.0 in ground arith, a.1)

split-ArePlain : (u : Chars) (s : Text) → is_plain u s ≡ true → ArePlain u (split s)
unfolding split
split-ArePlain u [] h = (refl, tt)
split-ArePlain u (c ∷ s) h =
    let rest = split-ArePlain u s (ground arith) in
    elim (Bool-cases (c == b'.')) [
      | inl e ↦ rw e (refl, rest)
      | inr e ↦ rw e (put-ArePlain u c (split s) (ground arith) rest)
    ]

-- the call returned
abbrev pub Returns : Option Bool → Type 0
Returns r = is_some r ≡ true

abbrev digit_value : Digit → ℕ
digit_value (Digit.decimal n) = n
digit_value _ = 0

to_int_lem :
    (u : Chars) (s : Text) (acc : ℕ)
    → is_plain u s ≡ true
    → all_digits u s ≡ true
    → is_some (to_int u s acc) ≡ true
unfolding to_int all_digits
to_int_lem u [] acc o e = refl
to_int_lem u (c ∷ s) acc o e = ground (arith, to_int_lem u s (10 * acc + digit_value (u.digit c)))

-- the path led somewhere or was missing
abbrev Leads : Found → Type 0
Leads f = f ≢ Found.raised

found_Leads : (o : Option Json) → Leads (of_lookup o)
found_Leads none e = absurd (cc)
found_Leads (some v) e = absurd (cc)

index_Leads : (xs : Items) (o : Option ℕ) → is_some o ≡ true → Leads (at_index xs o)
index_Leads xs none e = absurd (cc)
index_Leads xs (some n) e = found_Leads (item n xs)

isdigit_lem :
    (u : Chars) (s : Text)
    → is_plain u s ≡ true
    → isdigit u s ≡ true
    → is_some (to_int u s 0) ≡ true
isdigit_lem u [] o e = absurd (cc)
isdigit_lem u (c ∷ s) o e = to_int_lem u (c ∷ s) 0 o e

descend-Leads : (u : Chars) (s : Text) (v : Json) → is_plain u s ≡ true → Leads (descend u s v)
unfolding descend
descend-Leads u s (Json.object fs) o = found_Leads (lookup s fs)
descend-Leads u s (Json.array xs) o = elim (Bool-cases (isdigit u s)) [
  | inl t ↦ rw t (index_Leads xs (to_int u s 0) (isdigit_lem u s o t))
  | inr f ↦ rw f (λ e. absurd (cc))
]
descend-Leads u s Json.null o = λ e. absurd (cc)
descend-Leads u s (Json.boolean b) o = λ e. absurd (cc)
descend-Leads u s (Json.number n) o = λ e. absurd (cc)
descend-Leads u s (Json.string t) o = λ e. absurd (cc)

resolve_step :
    (u : Chars) (ss : List Text) (f : Found)
    → Leads f
    → ((w : Json) → Leads (resolve u ss w))
    → Leads (elim f [
      | Found.found w ↦ resolve u ss w
      | Found.missing ↦ Found.missing
      | Found.raised ↦ Found.raised
    ])
resolve_step u ss (Found.found w) l k = k w
resolve_step u ss Found.missing l k = λ e. absurd (cc)
resolve_step u ss Found.raised l k = absurd (l refl)

resolve-Leads : (u : Chars) (ss : List Text) (v : Json) → ArePlain u ss → Leads (resolve u ss v)
unfolding resolve
resolve-Leads u [] v o = λ e. absurd (cc)
resolve-Leads u (s ∷ ss) v o =
    resolve_step u ss (descend u s v) (descend-Leads u s v o.0) (λ w. resolve-Leads u ss w o.1)

in_Returns : (op : LeafOp) (v w : Json) → FitsValue op (some w) → Returns (value_matches op v w)
unfolding value_matches check_value in_operand
in_Returns op v w f = ground arith

found_Returns :
    (op : LeafOp) (v : Option Json) (f : Found)
    → FitsValue op v
    → Leads f
    → Returns (found_matches op (operand_of v) f)
found_Returns op v Found.missing h l = refl
found_Returns op v Found.raised h l = absurd (l refl)
found_Returns op none (Found.found x) h l = unfold value_matches in ground arith
found_Returns op (some w) (Found.found x) h l = in_Returns op x w h

leaf_Returns :
    (u : Chars) (l : Leaf) (payload : Json)
    → is_plain u l.path ≡ true
    → FitsValue l.op l.value
    → Returns (leaf_matches u l.op l.path l.value payload)
unfolding leaf_matches resolve_path
leaf_Returns u l payload o f =
    found_Returns l.op l.value (resolve_path u payload l.path) f
      (resolve-Leads u (split l.path) payload (split-ArePlain u l.path o))

and_Returns : (a b : Option Bool) → Returns a → Returns b → Returns (and_then a b)
and_Returns a b p q = ground arith

or_Returns : (a b : Option Bool) → Returns a → Returns b → Returns (or_then a b)
or_Returns a b p q = ground arith

not_Returns : (a : Option Bool) → Returns a → Returns (negated a)
not_Returns a p = ground arith

both_true : (a b : Bool) → (a && b) ≡ true → (a ≡ true) × (b ≡ true)
both_true a b h = ground arith

neg_plain :
    (u : Chars) (v : Json)
    → has_plain_paths u (wrapped Key.key_not v) ≡ true
    → has_plain_paths u v ≡ true
unfolding has_plain_paths text_eq
neg_plain u (Json.string s) h = refl
neg_plain u (Json.array xs) h = (both_true (items_plain u xs) true h).0
neg_plain u (Json.object fs) h = (both_true (fields_plain u fs) true h).0
neg_plain u Json.null h = refl
neg_plain u (Json.boolean b) h = refl
neg_plain u (Json.number n) h = refl

mutual
  unfolding satisfies Fits stored has_plain_paths text_eq

  satisfies-Returns :
      (u : Chars) (c : Condition) (depth : ℕ) (payload : Json)
      → has_plain_paths u (stored c) ≡ true
      → Fits u c depth
      → Returns (satisfies u c payload)
  satisfies-Returns u (Condition.leaf l) depth payload o f =
      leaf_Returns u l payload (both_true (is_plain u l.path) _ o).0 f.1.1
  satisfies-Returns u (Condition.all cs) depth payload o f =
      all-Return u cs (depth + 1) payload (both_true (items_plain u (stored_items cs)) true o).0 f.2
  satisfies-Returns u (Condition.any cs) depth payload o f =
      any-Return u cs (depth + 1) payload (both_true (items_plain u (stored_items cs)) true o).0 f.2
  satisfies-Returns u (Condition.neg c) depth payload o f =
      not_Returns (satisfies u c payload)
        (satisfies-Returns u c (depth + 1) payload (neg_plain u (stored c) o) f.1)

  all-Return :
      (u : Chars) (cs : Conditions) (depth : ℕ) (payload : Json)
      → items_plain u (stored_items cs) ≡ true
      → AllFit u cs depth
      → Returns (satisfies_all u cs payload)
  all-Return u Conditions.nil depth payload o f = refl
  all-Return u (Conditions.cons c cs) depth payload o f =
      let (p, q) = both_true (has_plain_paths u (stored c)) (items_plain u (stored_items cs)) o in
      and_Returns (satisfies u c payload) (satisfies_all u cs payload)
        (satisfies-Returns u c depth payload p f.0) (all-Return u cs depth payload q f.1)

  any-Return :
      (u : Chars) (cs : Conditions) (depth : ℕ) (payload : Json)
      → items_plain u (stored_items cs) ≡ true
      → AllFit u cs depth
      → Returns (satisfies_any u cs payload)
  any-Return u Conditions.nil depth payload o f = refl
  any-Return u (Conditions.cons c cs) depth payload o f =
      let (p, q) = both_true (has_plain_paths u (stored c)) (items_plain u (stored_items cs)) o in
      or_Returns (satisfies u c payload) (satisfies_any u cs payload)
        (satisfies-Returns u c depth payload p f.0) (any-Return u cs depth payload q f.1)

-- A condition that `validate_filter_spec` took gives a verdict on every body, without an exception, where
-- no path in what is stored has a character that `str.isdigit` takes and `int` refuses.
pub validate_filter_spec-Returns :
    (u : Chars) (spec y payload : Json)
    → has_plain_paths u y ≡ true
    → validate_filter_spec u spec ≡ valid y
    → Returns (evaluate u y payload)
validate_filter_spec-Returns u spec y payload o e =
    let r = validate_filter_spec-IsChecked u spec y e in
    subst Returns (sym (r.means payload)) (
      satisfies-Returns u r.condition 1 payload
        (subst (λ (z : Json). has_plain_paths u z ≡ true) r.is_stored o) r.fits)
