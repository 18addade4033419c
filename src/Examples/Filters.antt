-- ===== src/Examples/Filters.antt =====
-- A condition on the body of an order: an amount of at least 100, and no `test` field.
use ccj.Prelude.{
  ℕ, ◌-◌, ◌≡◌, ◌&&◌, ◌∷◌, [], none, refl, false, true, some, leb, ◌||◌, if◌then◌else◌, ◌==◌,
}
use ccj.Filters.Text.{Chars, Digit, codes, all_digits, to_int}
use ccj.Filters.Json.{Json, Items, Fields, Number}
use ccj.Filters.Evaluate.{evaluate}
use ccj.Filters.Validate.{valid, validate_filter_spec}
use ccj.Filters.Condition.Validated.{
  IsChecked, validate_filter_spec-IsChecked, validate_filter_spec_idem,
}
use ccj.Filters.Condition.Total.{has_plain_paths, Returns, validate_filter_spec-Returns}

-- some characters of Latin-1: `str.isdigit` holds of the superscripts, and `int` refuses them
abbrev latin : Chars
latin = record {
  digit = λ c.
      if leb b'0' c && leb c b'9'
      then Digit.decimal (c - b'0')
      else if c == 178 || (c == 179 || c == 185)
      then Digit.other_digit
      else Digit.no_digit;
  is_space = λ c. c == b' ';
}

abbrev amount : Json
amount = Json.object (
    Fields.field (codes "op") (Json.string (codes "gte")) (
      Fields.field (codes "path") (Json.string (codes "order.amount"))
        (Fields.field (codes "value") (Json.number (Number.ratio false 100 0)) Fields.end)))

-- with a value, which is not stored
abbrev is_test : Json
is_test = Json.object (
    Fields.field (codes "path") (Json.string (codes "test")) (
      Fields.field (codes "op") (Json.string (codes "exists"))
        (Fields.field (codes "value") Json.null Fields.end)))

abbrev under : Json → Json → Json
under a b = Json.object (
    Fields.field (codes "all")
      (Json.array (
        Items.cons a
          (Items.cons (Json.object (Fields.field (codes "not") b Fields.end)) Items.nil)))
      Fields.end)

abbrev spec : Json
spec = under amount is_test

abbrev canonical : Json
canonical =
    under
      (Json.object (
        Fields.field (codes "path") (Json.string (codes "order.amount")) (
          Fields.field (codes "op") (Json.string (codes "gte"))
            (Fields.field (codes "value") (Json.number (Number.ratio false 100 0)) Fields.end))))
      (Json.object (
        Fields.field (codes "path") (Json.string (codes "test"))
          (Fields.field (codes "op") (Json.string (codes "exists")) Fields.end)))

taken : validate_filter_spec latin spec ≡ valid canonical
unfolding validate_filter_spec
taken = refl

validate_filter_spec-IsChecked_example : IsChecked latin spec canonical
validate_filter_spec-IsChecked_example = validate_filter_spec-IsChecked latin spec canonical taken

validate_filter_spec_idem_example : validate_filter_spec latin canonical ≡ valid canonical
validate_filter_spec_idem_example = validate_filter_spec_idem latin spec canonical taken

abbrev body : ℕ → Json
body n = Json.object (
    Fields.field (codes "order")
      (Json.object
        (Fields.field (codes "amount") (Json.number (Number.ratio false n 0)) Fields.end))
      Fields.end)

plain : has_plain_paths latin canonical ≡ true
unfolding has_plain_paths
plain = refl

-- a path that is taken, and on which `evaluate` raises at a list
abbrev superscript : Json
superscript = Json.object (
    Fields.field (codes "path") (Json.string (178 ∷ []))
      (Fields.field (codes "op") (Json.string (codes "exists")) Fields.end))

superscript_taken : validate_filter_spec latin superscript ≡ valid superscript
unfolding validate_filter_spec
superscript_taken = refl

superscript_raises : evaluate latin superscript (Json.array Items.nil) ≡ none
unfolding evaluate all_digits to_int
superscript_raises = refl

validate_filter_spec-Returns_example : Returns (evaluate latin canonical (body 150))
validate_filter_spec-Returns_example =
    validate_filter_spec-Returns latin spec canonical (body 150) plain taken

large_order : evaluate latin canonical (body 150) ≡ some true
unfolding evaluate
large_order = refl

small_order : evaluate latin canonical (body 99) ≡ some false
unfolding evaluate
small_order = refl
