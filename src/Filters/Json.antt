-- ===== src/Filters/Json.antt =====
-- JSON values as Python holds them, and `json_equal` of env/app/subfilters.py.
use ccj.Prelude.{
  ℕ, suc, ◌*◌, Bool, true, false, Option, none, some, ◌&&◌, ◌||◌, not, ◌==◌, ltb, if◌then◌else◌,
}
use ccj.Filters.Text.{Text, text_eq}

-- An `int` or a `float`: the sign, the numerator and the denominator less one of its value, or what is
-- not finite.
pub data Number : Type 0 where
  ratio : Bool → ℕ → ℕ → Number
  infinite : Bool → Number
  nan : Number

abbrev pub is_finite : Number → Bool
is_finite (Number.ratio s n d) = true
is_finite _ = false

abbrev bool_eq : Bool → Bool → Bool
bool_eq true b = b
bool_eq false b = not b

abbrev same_sign : Bool → ℕ → Bool → ℕ → Bool
same_sign s n t m = bool_eq s t || (n == 0 && m == 0)

-- left == right; a `true` sign is that of a negative number
unfoldable pub num_eq : Number → Number → Bool
num_eq (Number.ratio s n d) (Number.ratio t m e) = same_sign s n t m && n * suc e == m * suc d
num_eq (Number.infinite s) (Number.infinite t) = bool_eq s t
num_eq _ _ = false

abbrev ratio_lt : Bool → ℕ → ℕ → Bool → ℕ → ℕ → Bool
ratio_lt false n d false m e = ltb (n * suc e) (m * suc d)
ratio_lt true n d true m e = ltb (m * suc d) (n * suc e)
ratio_lt true n d false m e = ltb 0 n || ltb 0 m
ratio_lt false n d true m e = false

-- left < right
unfoldable pub num_lt : Number → Number → Bool
num_lt (Number.ratio s n d) (Number.ratio t m e) = ratio_lt s n d t m e
num_lt (Number.ratio s n d) (Number.infinite t) = not t
num_lt (Number.infinite s) (Number.ratio t m e) = s
num_lt (Number.infinite s) (Number.infinite t) = s && not t
num_lt _ _ = false

mutual
  pub data Json : Type 0 where
    null : Json
    boolean : Bool → Json
    number : Number → Json
    string : Text → Json
    array : Items → Json
    object : Fields → Json

  pub data Items : Type 0 where
    nil : Items
    cons : Json → Items → Items

  -- a `dict`: no key stands twice, and the first is the one that is read
  pub data Fields : Type 0 where
    end : Fields
    field : Text → Json → Fields → Fields

abbrev pub is_object : Json → Bool
is_object (Json.object fs) = true
is_object _ = false

unfoldable pub lookup : Text → Fields → Option Json
lookup k Fields.end = none
lookup k (Fields.field j v fs) = if text_eq j k then some v else lookup k fs

-- k in fs
unfoldable pub has : Text → Fields → Bool
has k Fields.end = false
has k (Fields.field j v fs) = text_eq j k || has k fs

-- each key of the first is one of the second
unfoldable pub keys_in : Fields → Fields → Bool
unfolding has
keys_in Fields.end gs = true
keys_in (Fields.field j v fs) gs = has j gs && keys_in fs gs

unfoldable mutual
  unfolding text_eq num_eq keys_in lookup

  pub json_equal : Json → Json → Bool
  json_equal Json.null Json.null = true
  json_equal (Json.boolean b) (Json.boolean c) = bool_eq b c
  json_equal (Json.number m) (Json.number n) = num_eq m n
  json_equal (Json.string s) (Json.string t) = text_eq s t
  json_equal (Json.array xs) (Json.array ys) = items_equal xs ys
  json_equal (Json.object fs) (Json.object gs) =
      keys_in fs gs && (keys_in gs fs && fields_equal fs gs)
  json_equal _ _ = false

  pub items_equal : Items → Items → Bool
  items_equal Items.nil Items.nil = true
  items_equal Items.nil (Items.cons y ys) = false
  items_equal (Items.cons x xs) Items.nil = false
  items_equal (Items.cons x xs) (Items.cons y ys) = json_equal x y && items_equal xs ys

  -- all(json_equal(left[key], right[key]) for key in left), for a right side that has the keys
  pub fields_equal : Fields → Fields → Bool
  fields_equal Fields.end gs = true
  fields_equal (Fields.field k v fs) gs =
      elim (lookup k gs) [ none ↦ false | some w ↦ json_equal v w ] && fields_equal fs gs
