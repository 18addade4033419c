-- ===== src/Filters/Condition/Validated.antt =====
-- What `validate_filter_spec` of env/app/subfilters.py promises of the conditions that it takes.
use ccj.Prelude.{◌≡◌, ◌≤◌, refl, ◌∙◌, sym, ap, subst, arith, ℕ}
use ccj.Filters.Text.{Chars}
use ccj.Filters.Json.{Json}
use ccj.Filters.Evaluate.{evaluate}
use ccj.Filters.Validate.{valid, Walked, walked, refused, walk, validate_filter_spec, of_walk}
use ccj.Filters.Condition.{Condition, satisfies, stored, nodes, Fits}
use ccj.Filters.Condition.Stored.{evaluate-stored}
use ccj.Filters.Condition.Checked.{Reads}
use ccj.Filters.Condition.Walk.{walk-Reads}
use ccj.Filters.Condition.Again.{walk-stored}

-- What is stored for a submitted condition: the written form of a condition with at most 100 parts,
-- none of them deeper than 8, and checked leaves.
pub record IsChecked (u : Chars) (spec stored_spec : Json) : Type 0 where
  pub condition : Condition
  pub is_stored : stored_spec ≡ stored condition
  pub bounded : nodes condition ≤ 100
  pub fits : Fits u condition 1
  pub means : (payload : Json) → evaluate u stored_spec payload ≡ satisfies u condition payload
  pub agrees : (payload : Json) → evaluate u stored_spec payload ≡ evaluate u spec payload

valid-walked : (w : Walked Json) (y : Json) → of_walk w ≡ valid y → (n : ℕ) × (w ≡ walked n y)
valid-walked (walked n z) y e = (n, ground arith)
valid-walked (refused x) y e = absurd (cc)

Reads-IsChecked : (u : Chars) (j y : Json) (m : ℕ) → Reads u j 1 0 m y → IsChecked u j y
Reads-IsChecked u j y m r =
    let same = λ (payload : Json).
      ap (λ (z : Json). evaluate u z payload) r.is_stored ∙ evaluate-stored u r.condition payload in
    record {
      condition = r.condition;
      is_stored = r.is_stored;
      bounded = omega (arith, r.bounded, r.counted);
      fits = r.fits;
      means = same;
      agrees = λ payload. same payload ∙ sym (r.agrees payload);
    }

-- Whatever `validate_filter_spec` takes, it stores the written form of a condition: a tree of checked
-- leaves under non-empty `all` and `any` lists and `not`, with at most 100 parts, none of them deeper
-- than 8. On every body, evaluating what is stored gives the meaning of that tree, and the same as
-- evaluating what was submitted, whether that is a verdict or an exception.
pub validate_filter_spec-IsChecked :
    (u : Chars) (spec y : Json) → validate_filter_spec u spec ≡ valid y → IsChecked u spec y
unfolding validate_filter_spec
validate_filter_spec-IsChecked u spec y e =
    let (n, w) = valid-walked (walk u spec 1 0) y e in
    Reads-IsChecked u spec y n (walk-Reads u spec 1 0 n y w)

-- Each checked condition with at most 100 parts can be submitted in its written form, and is stored as
-- it was submitted.
pub validate_filter_spec-stored :
    (u : Chars) (c : Condition)
    → Fits u c 1
    → nodes c ≤ 100
    → validate_filter_spec u (stored c) ≡ valid (stored c)
unfolding validate_filter_spec
validate_filter_spec-stored u c f b = rw (walk-stored u c 1 0 f (omega (arith, b))) refl

-- Validating a stored condition again changes nothing.
pub validate_filter_spec_idem :
    (u : Chars) (spec y : Json)
    → validate_filter_spec u spec ≡ valid y
    → validate_filter_spec u y ≡ valid y
validate_filter_spec_idem u spec y e =
    let r = validate_filter_spec-IsChecked u spec y e in
    subst (λ z. validate_filter_spec u z ≡ valid z) (sym r.is_stored)
      (validate_filter_spec-stored u r.condition r.fits r.bounded)
