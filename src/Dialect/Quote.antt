-- ===== src/Dialect/Quote.antt =====
-- What a quoted identifier is read back as.
use relica.Prelude.{
  All, subst, refl, Bool-cases, inl, inr, ℕ, zero, suc, length, ◌<◌, ◌==◌, ◌≡◌, ◌≢◌, refl, arith,
  if◌then◌else◌, Bool, true, false, List, [], ◌∷◌, ◌++◌, append_assoc, Option, none, some, map,
  Bool-cases, inl, inr,
}
use relica.Text.Split.{split-ne-nil, join-split, split-All}
use relica.Text.{Text, join, replace_char, contains_char}
use relica.Dialect.{
  Dialect, postgres, mysql, sqlite, quote_char, strip_nul, quote_with, quote_identifier,
  quote_column, dot, open_paren,
}

-- Puts a character in front of what was read.
abbrev pub push : ℕ → Option (Text × Text) → Option (Text × Text)
push c none = none
push c (some (word, rest)) = some (c ∷ word, rest)

abbrev pub put_first : Text → Option (List Text × Text) → Option (List Text × Text)
put_first word none = none
put_first word (some (words, rest)) = some (word ∷ words, rest)

-- How SQL reads the text behind an opening quote: a doubled quote stands for one, a single one
-- ends the identifier. The flag says that the last character was a quote.
unfoldable pub read_body : ℕ → Bool → Text → Option (Text × Text)
read_body q true [] = some ([], [])
read_body q false [] = none
read_body q true (c ∷ s) = elim (c == q) [
  | true ↦ push q (read_body q false s)
  | false ↦ some ([], c ∷ s)
]
read_body q false (c ∷ s) = elim (c == q) [
  | true ↦ read_body q true s
  | false ↦ push c (read_body q false s)
]

-- One quoted identifier, and what follows it.
unfoldable pub read_identifier : ℕ → Text → Option (Text × Text)
unfolding read_body
read_identifier q [] = none
read_identifier q (c ∷ s) = if c == q then read_body q false s else none

-- The text does not begin with the character.
abbrev pub NotAtHead : ℕ → Text → Type 0
NotAtHead q [] = Unit
NotAtHead q (c ∷ s) = c ≢ q

read_body-quote :
    (q : ℕ) (s rest : Text)
    → NotAtHead q rest
    → read_body q false (replace_char q (q ∷ q ∷ []) s ++ q ∷ rest) ≡ some (s, rest)
unfolding read_body
read_body-quote q [] [] h = ground arith
read_body-quote q [] (c ∷ rest) h = ground arith
read_body-quote q (x ∷ s) rest h = ground (arith, read_body-quote q s rest h)

read_identifier-quote_with :
    (q : ℕ) (s rest : Text)
    → NotAtHead q rest
    → read_identifier q (quote_with q s ++ rest) ≡ some (strip_nul s, rest)
unfolding read_identifier
read_identifier-quote_with q s rest h = ground (
  arith,
  read_body-quote q (strip_nul s) rest h,
  append_assoc (replace_char q (q ∷ q ∷ []) (strip_nul s)) (q ∷ []) rest,
)

-- Whatever the identifier holds, the quoted text is read back as that identifier without its
-- NUL characters, and nothing of it is left over; this is so in front of every text that does
-- not begin with the dialect's quote.
pub read_identifier-quote_identifier :
    (d : Dialect) (s rest : Text)
    → NotAtHead (quote_char d) rest
    → read_identifier (quote_char d) (quote_identifier d s ++ rest) ≡ some (strip_nul s, rest)
unfolding quote_identifier
read_identifier-quote_identifier postgres s rest h = read_identifier-quote_with b'"' s rest h
read_identifier-quote_identifier mysql s rest h = read_identifier-quote_with b'`' s rest h
read_identifier-quote_identifier sqlite s rest h = read_identifier-quote_with b'"' s rest h

-- A dotted path of quoted identifiers; the fuel bounds the number of parts.
unfoldable pub read_path : ℕ → ℕ → Text → Option (List Text × Text)
unfolding read_identifier
read_path zero q s = none
read_path (suc f) q s = elim (read_identifier q s) [
  | none ↦ none
  | some (word, []) ↦ some (word ∷ [], [])
  | some (word, c ∷ r) ↦ elim (c == dot) [
    | true ↦ put_first word (read_path f q r)
    | false ↦ some (word ∷ [], c ∷ r)
  ]
]

quote_char-ne-dot : (d : Dialect) → NotAtHead (quote_char d) (dot ∷ [])
quote_char-ne-dot postgres = omega arith
quote_char-ne-dot mysql = omega arith
quote_char-ne-dot sqlite = omega arith

read_path-join :
    (d : Dialect) (f : ℕ) (p : Text) (ps : List Text) (rest : Text)
    → length ps < f
    → NotAtHead (quote_char d) rest
    → NotAtHead dot rest
    → read_path f (quote_char d) (join (dot ∷ []) (map (quote_identifier d) (p ∷ ps)) ++ rest)
      ≡ some (map strip_nul (p ∷ ps), rest)
unfolding read_path
read_path-join d zero p ps rest lt hq hd = absurd (omega arith)
read_path-join d (suc f) p [] [] lt hq hd =
    rw (read_identifier-quote_identifier d p [] hq, read_path)
read_path-join d (suc f) p [] (c ∷ rest) lt hq hd =
    rw (read_identifier-quote_identifier d p (c ∷ rest) hq, read_path) (ground arith)
read_path-join d (suc f) p (p' ∷ ps) rest lt hq hd = rw (
  append_assoc,
  read_identifier-quote_identifier d p _ (quote_char-ne-dot d),
  read_path,
  read_path-join d f p' ps rest (omega arith) hq hd,
)

-- A column name without an opening parenthesis is quoted part by part: it is read back as a
-- dotted path, whose parts hold no dot and together spell the name, each without its NUL
-- characters, and nothing is left over.
pub read_path-quote_column :
    (d : Dialect) (col rest : Text)
    → contains_char open_paren col ≡ false
    → NotAtHead (quote_char d) rest
    → NotAtHead dot rest
    → (parts : List Text) × (join (dot ∷ []) parts ≡ col)
      × All (λ p. contains_char dot p ≡ false) parts
      × (read_path (length parts) (quote_char d) (quote_column col d ++ rest)
          ≡ some (map strip_nul parts, rest))
unfolding quote_column
read_path-quote_column d col rest h hq hd = elim (Bool-cases (contains_char dot col)) [
  | inl dotted ↦
      let (p, ps, e) = split-ne-nil dot col in
      (
        p ∷ ps,
        subst (λ parts. join (dot ∷ []) parts ≡ col) e (join-split dot col),
        subst (All _) e (split-All dot col),
        rw (h, dotted, e) (read_path-join d (length (p ∷ ps)) p ps rest (omega arith) hq hd),
      )
  | inr plain ↦ (
    col ∷ [],
    refl,
    (plain, tt),
    rw (h, plain) (read_path-join d 1 col [] rest (omega arith) hq hd),
  )
]
