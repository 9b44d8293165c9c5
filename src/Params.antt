-- ===== src/Params.antt =====
-- `bindParams` of internal/core/params.go, and `resolveNamedParams` of internal/core/builder.go: named
-- placeholders `{:name}`.
mod Tests
pub mod Scan
pub mod Bind
use relica.Prelude.{
  ℕ, zero, suc, ◌+◌, ◌==◌, leb, ◌≡◌, Bool, true, false, ◌&&◌, ◌||◌, List, [], ◌∷◌, ◌++◌,
  if◌then◌else◌, Option, none, some, length,
}
use relica.Prelude.Maps.{lookup, lookup_or}
use relica.Text.{Text, codes, is_empty}
use relica.Exp.{View, nil, text, params, slice, exp, query, other, Dynamic, view_of}

-- `\w`.
abbrev pub is_word : ℕ → Bool
is_word c =
    (leb b'0' c && leb c b'9')
    || ((leb b'A' c && leb c b'Z') || ((leb b'a' c && leb c b'z') || c == b'_'))

-- The longest run of word characters at the front, if `}` stands behind it.
read_word : Text → Option Text
read_word [] = none
read_word (c ∷ s) = elim (is_word c) [
  | true ↦ elim (read_word s) [ none ↦ none | some w ↦ some (c ∷ w) ]
  | false ↦ if c == b'}' then some [] else none
]

non_empty : Option Text → Option Text
non_empty none = none
non_empty (some []) = none
non_empty (some (c ∷ w)) = some (c ∷ w)

-- A match of `\{:(\w+)\}` at the front: the name.
match_named : Text → Option Text
unfolding read_word non_empty
match_named [] = none
match_named (a ∷ []) = none
match_named (a ∷ b ∷ s) = if a == b'{' && b == b':' then non_empty (read_word s) else none

-- A text cut at its named placeholders.
pub data Piece : Type 0 where
  plain : ℕ → Piece
  named : Text → Piece

-- The matches from left to right, which do not overlap: the number counts the characters of a
-- match still to be passed over.
scan_from : ℕ → Text → List Piece
unfolding match_named
scan_from k [] = []
scan_from (suc k) (c ∷ s) = scan_from k s
scan_from zero (c ∷ s) = elim (match_named (c ∷ s)) [
  | none ↦ plain c ∷ scan_from zero s
  | some name ↦ named name ∷ scan_from (length name + 2) s
]

unfoldable pub scan : Text → List Piece
unfolding scan_from
scan s = scan_from 0 s

-- The names, in the order of the text.
abbrev pub names : List Piece → List Text
names [] = []
names (plain c ∷ ps) = names ps
names (named n ∷ ps) = n ∷ names ps

-- Each placeholder replaced by `?`.
abbrev pub with_questions : List Piece → Text
with_questions [] = []
with_questions (plain c ∷ ps) = c ∷ with_questions ps
with_questions (named n ∷ ps) = b'?' ∷ with_questions ps

pub data Resolved (V : Type 0) : Type 0 where
  ok : Text → List V → Resolved V
  missing : List Text → Resolved V

module _ {V : Type 0} where
  -- The names that the map lacks.
  abbrev pub missing_names : List (Text × V) → List Text → List Text
  missing_names p [] = []
  missing_names p (n ∷ ns) = elim (lookup n p) [
    | none ↦ n ∷ missing_names p ns
    | some v ↦ missing_names p ns
  ]

  -- `values, err` of `bindParams`: the error is the first missing name.
  unfoldable pub bind_params : List (Text × V) → List Text → Option (List V)
  bind_params p [] = some []
  bind_params p (n ∷ ns) = elim (lookup n p) [
    | none ↦ none
    | some v ↦ elim (bind_params p ns) [ none ↦ none | some vs ↦ some (v ∷ vs) ]
  ]

module _ {V : Type 0} ⦃dyn : Dynamic V⦄ where
  -- `orderedArgs` of the callback.
  abbrev pub ordered_args : List (Text × V) → List Text → List V
  ordered_args p [] = []
  ordered_args p (n ∷ ns) = lookup_or dyn.null n p ∷ ordered_args p ns

  check_missing : List Text → Text → List V → Resolved V
  check_missing [] sql args = ok sql args
  check_missing (n ∷ ns) sql args = missing (n ∷ ns)

  resolve_with : Text → List V → List (Text × V) → Resolved V
  unfolding check_missing
  resolve_with condition args p =
      check_missing (missing_names p (names (scan condition))) (with_questions (scan condition))
        (ordered_args p (names (scan condition)))

  resolve_view : Text → List V → View V → Resolved V
  unfolding resolve_with
  resolve_view condition args (params p) = resolve_with condition args p
  resolve_view condition args other_view = ok condition args

  -- The tests for one argument of type `Params`.
  resolve_args : Text → List V → Resolved V
  unfolding resolve_view
  resolve_args condition [] = ok condition []
  resolve_args condition (v ∷ []) = resolve_view condition (v ∷ []) (view_of v)
  resolve_args condition (v ∷ w ∷ vs) = ok condition (v ∷ w ∷ vs)

  resolve_names : List Text → Text → List V → Resolved V
  unfolding resolve_args
  resolve_names [] condition args = ok condition args
  resolve_names (n ∷ ns) condition args = resolve_args condition args

  unfoldable pub resolve_named_params : Text → List V → Resolved V
  unfolding resolve_names
  resolve_named_params condition args = resolve_names (names (scan condition)) condition args
