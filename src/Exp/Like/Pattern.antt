-- ===== src/Exp/Like/Pattern.antt =====
-- What the default escape characters make of a value.
use relica.Prelude.{
  ℕ, ◌==◌, ◌&&◌, ◌≡◌, refl, Bool, true, false, List, [], ◌∷◌, ◌++◌, if◌then◌else◌, Option, none,
  some, arith, append-nil,
}
use relica.Dialect.{Dialect, postgres, mysql, sqlite}
use relica.Text.{Text, codes, replace_char}
use relica.Text.Replace.{replace_all-replace_char}
use relica.Exp.Like.{LikeExp, default_like_escape, escape_value, like_pattern}

-- Whether `\` escapes in a LIKE pattern without an ESCAPE clause, as it does in PostgreSQL and
-- MySQL. SQLite has no escape character then.
abbrev pub has_escape : Dialect → Bool
has_escape postgres = true
has_escape mysql = true
has_escape sqlite = false

-- How a database reads a LIKE pattern.
pub data Token : Type 0 where
  any_run any_one : Token
  literal : ℕ → Token

abbrev pub add_token : Token → Option (List Token) → Option (List Token)
add_token t none = none
add_token t (some ts) = some (t ∷ ts)

-- The flag says that the last character was an escape.
unfoldable pub read_pattern : Dialect → Bool → Text → Option (List Token)
read_pattern d true [] = none
read_pattern d false [] = some []
read_pattern d true (c ∷ s) = add_token (literal c) (read_pattern d false s)
read_pattern d false (c ∷ s) = elim (c == b'\\' && has_escape d) [
  | true ↦ read_pattern d true s
  | false ↦
      add_token (if c == b'%' then any_run else if c == b'_' then any_one else literal c)
        (read_pattern d false s)
]

-- The three replacements at once.
hide : Text → Text
hide [] = []
hide (c ∷ s) =
    (if c == b'\\'
      then b'\\' ∷ b'\\' ∷ []
      else if c == b'%'
      then b'\\' ∷ b'%' ∷ []
      else if c == b'_'
      then b'\\' ∷ b'_' ∷ []
      else c ∷ [])
    ++ hide s

replace_three :
    (s : Text)
    → replace_char b'_'
        (codes "\\_")
        (replace_char b'%' (codes "\\%") (replace_char b'\\' (codes "\\\\") s))
      ≡ hide s
unfolding hide
replace_three [] = refl
replace_three (c ∷ s) = ground (arith, replace_three s)

escape_value-hide : (s : Text) → escape_value default_like_escape s ≡ hide s
unfolding escape_value
escape_value-hide s = simp replace_all-replace_char (replace_three s)

abbrev pub literals : Text → List Token
literals [] = []
literals (c ∷ s) = literal c ∷ literals s

read_pattern-hide :
    (d : Dialect) (s rest : Text) (ts : List Token)
    → has_escape d ≡ true
    → read_pattern d false rest ≡ some ts
    → read_pattern d false (hide s ++ rest) ≡ some (literals s ++ ts)
unfolding read_pattern hide
read_pattern-hide d [] rest ts e h = h
read_pattern-hide d (c ∷ s) rest ts e h = ground (arith, read_pattern-hide d s rest ts e h)

abbrev pub wildcard : Bool → List Token
wildcard on = if on then any_run ∷ [] else []

-- In a database where `\` escapes, which PostgreSQL and MySQL are, the parameter with the default
-- escape characters matches the value literally: the database reads the value's own characters,
-- wildcards and backslashes included, between the wildcards that `Match` asks for and no others.
pub read_pattern-like_pattern :
    (d : Dialect) (e : LikeExp) (val : Text)
    → has_escape d ≡ true
    → e.escape ≡ default_like_escape
    → read_pattern d false (like_pattern e val)
      ≡ some (wildcard e.left ++ (literals val ++ wildcard e.right))
unfolding like_pattern read_pattern
read_pattern-like_pattern d e val b h =
    rw (h, escape_value-hide)
      (ground (
        arith,
        append-nil (hide val),
        read_pattern-hide d val (codes "%") (any_run ∷ []) b (ground (arith, b)),
        read_pattern-hide d val [] [] b refl,
      ))
