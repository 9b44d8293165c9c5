-- ===== src/Text.antt =====
-- Go strings as lists of code points, with what the sources use of package `strings`.
-- A string is taken to be valid UTF-8: search, replacement and splitting then agree with the
-- byte-wise operations, and the byte order is the order of the code points.
pub mod Fields
pub mod Counts
pub mod Decimal
pub mod Split
pub mod Replace
pub mod Trim
use Prim.Native.Char.{code}
use Prim.Native.String.{String}
pub use relica.Prelude.Maps.{text_eq}
use relica.Prelude.{
  ℕ, zero, suc, ◌==◌, leb, ltb, if◌then◌else◌, Bool, true, false, not, ◌&&◌, ◌||◌, List, [], ◌∷◌,
  ◌++◌, Option, none, some, length,
}

abbrev pub Text : Type 0
Text = List ℕ

abbrev pub codes : String → Text
codes String.[] = []
codes (String.◌∷◌ c s) = code c ∷ codes s

abbrev pub question : ℕ
question = b'?'

abbrev pub is_empty : Text → Bool
is_empty [] = true
is_empty (c ∷ s) = false

-- `strings.Contains(s, c)` for a text of one character.
abbrev pub contains_char : ℕ → Text → Bool
contains_char c [] = false
contains_char c (x ∷ s) = x == c || contains_char c s

-- The text behind a prefix, if it is one.
abbrev pub strip_prefix : Text → Text → Option Text
strip_prefix [] s = some s
strip_prefix (p ∷ ps) [] = none
strip_prefix (p ∷ ps) (c ∷ s) = if p == c then strip_prefix ps s else none

abbrev pub has_prefix : Text → Text → Bool
has_prefix p s = elim (strip_prefix p s) [ none ↦ false | some _ ↦ true ]

-- `strings.Contains`.
unfoldable pub contains : Text → Text → Bool
contains [] p = is_empty p
contains (c ∷ s) p = has_prefix p (c ∷ s) || contains s p

-- `strings.Join`.
abbrev pub join : Text → List Text → Text
join sep [] = []
join sep (p ∷ []) = p
join sep (p ∷ q ∷ ps) = p ++ (sep ++ join sep (q ∷ ps))

-- `strings.ReplaceAll` for a pattern of one character.
abbrev pub replace_char : ℕ → Text → Text → Text
replace_char c by [] = []
replace_char c by (x ∷ s) = if x == c then by ++ replace_char c by s else x ∷ replace_char c by s

-- `strings.Replace(s, "?", by, 1)`.
abbrev pub replace_first : ℕ → Text → Text → Text
replace_first c by [] = []
replace_first c by (x ∷ s) = if x == c then by ++ s else x ∷ replace_first c by s

-- `strings.Split` for a separator of one character: never empty.
split_onto : ℕ → Text → Text → List Text
split_onto c cur [] = cur ∷ []
split_onto c cur (x ∷ s) = elim (x == c) [
  | true ↦ cur ∷ split_onto c [] s
  | false ↦ split_onto c (cur ++ x ∷ []) s
]

unfoldable pub split : ℕ → Text → List Text
unfolding split_onto
split c s = split_onto c [] s

-- A new text before each character and at the end: `ReplaceAll` of the empty string.
intersperse : Text → Text → Text
intersperse by [] = by
intersperse by (x ∷ s) = by ++ x ∷ intersperse by s

-- The scan of `ReplaceAll` for `p ∷ ps`: the number counts the characters of a match still to
-- be passed over.
replace_from : ℕ → Text → Text → ℕ → Text → Text
replace_from p ps by k [] = []
replace_from p ps by (suc k) (x ∷ s) = replace_from p ps by k s
replace_from p ps by zero (x ∷ s) = elim (has_prefix (p ∷ ps) (x ∷ s)) [
  | true ↦ by ++ replace_from p ps by (length ps) s
  | false ↦ x ∷ replace_from p ps by zero s
]

-- `strings.ReplaceAll(s, old, by)`.
unfoldable pub replace_all : Text → Text → Text → Text
unfolding intersperse replace_from
replace_all [] by s = intersperse by s
replace_all (p ∷ ps) by s = replace_from p ps by zero s
