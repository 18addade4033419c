-- ===== src/Filters/Text.antt =====
-- Python's `str` as its code points, with the methods that env/app/subfilters.py
-- calls, and the test of `compare_digest` in env/app/ingest_auth.py and env/app/confirmation.py.
use Prim.Native.Char.{code}
use ccj.Prelude.{
  ℕ, ◌+◌, ◌*◌, String, Bool, true, false, Option, none, some, List, [], ◌∷◌, ◌&&◌, ◌||◌, ◌==◌, ltb,
  if◌then◌else◌,
}

abbrev pub Text : Type 0
Text = List ℕ

-- a literal
abbrev pub codes : String → Text
codes String.[] = []
codes (String.◌∷◌ c s) = code c ∷ codes s

abbrev pub all_ascii : Text → Bool
all_ascii [] = true
all_ascii (c ∷ s) = ltb c 128 && all_ascii s

-- `encode("ascii")` and `compare_digest` raise on any other text
unfoldable pub is_ascii : String → Bool
is_ascii s = all_ascii (codes s)

unfoldable pub text_eq : Text → Text → Bool
text_eq [] [] = true
text_eq [] (b ∷ t) = false
text_eq (a ∷ s) [] = false
text_eq (a ∷ s) (b ∷ t) = a == b && text_eq s t

-- s < t, by code points
unfoldable pub text_lt : Text → Text → Bool
text_lt [] [] = false
text_lt [] (b ∷ t) = true
text_lt (a ∷ s) [] = false
text_lt (a ∷ s) (b ∷ t) = ltb a b || (a == b && text_lt s t)

-- s.startswith(t)
unfoldable pub starts_with : Text → Text → Bool
starts_with s [] = true
starts_with [] (b ∷ t) = false
starts_with (a ∷ s) (b ∷ t) = a == b && starts_with s t

-- s.endswith(t)
unfoldable pub ends_with : Text → Text → Bool
unfolding text_eq
ends_with [] t = text_eq [] t
ends_with (a ∷ s) t = text_eq (a ∷ s) t || ends_with s t

-- t in s
unfoldable pub contains : Text → Text → Bool
unfolding starts_with
contains [] t = starts_with [] t
contains (a ∷ s) t = starts_with (a ∷ s) t || contains s t

abbrev pub put : ℕ → List Text → List Text
put c [] = (c ∷ []) ∷ []
put c (s ∷ ss) = (c ∷ s) ∷ ss

-- s.split("."): never the empty list
unfoldable pub split : Text → List Text
split [] = [] ∷ []
split (c ∷ s) = let rest = split s in if c == b'.' then [] ∷ rest else put c rest

-- What Python's character tables say of a code point. `str.isdigit` holds of `decimal` and `other_digit`,
-- and `int` reads `decimal` only.
pub data Digit : Type 0 where
  no_digit : Digit
  decimal : ℕ → Digit
  other_digit : Digit

pub record Chars : Type 0 where
  pub digit : ℕ → Digit
  pub is_space : ℕ → Bool

abbrev pub is_digit : Digit → Bool
is_digit Digit.no_digit = false
is_digit _ = true

-- no character of the text is none of the digits
unfoldable pub all_digits : Chars → Text → Bool
all_digits u [] = true
all_digits u (c ∷ s) = is_digit (u.digit c) && all_digits u s

abbrev pub is_empty : Text → Bool
is_empty [] = true
is_empty (c ∷ s) = false

-- s.isdigit()
abbrev pub isdigit : Chars → Text → Bool
isdigit u [] = false
isdigit u (c ∷ s) = all_digits u (c ∷ s)

abbrev push : Digit → ℕ → Option ℕ
push (Digit.decimal n) acc = some (10 * acc + n)
push _ acc = none

-- int(s) of a text of digits; `none` is that it raises
unfoldable pub to_int : Chars → Text → ℕ → Option ℕ
to_int u [] acc = some acc
to_int u (c ∷ s) acc = elim (push (u.digit c) acc) [ none ↦ none | some n ↦ to_int u s n ]

-- not s.strip()
unfoldable pub is_blank : Chars → Text → Bool
is_blank u [] = true
is_blank u (c ∷ s) = u.is_space c && is_blank u s
