-- ===== src/Params/Scan.antt =====
-- The scan for named placeholders.
use relica.Prelude.{
  ℕ, zero, suc, ◌+◌, ◌≡◌, refl, ap, true, List, [], ◌∷◌, ◌++◌, some, length, length-append, arith,
  Option-cases, inl, inr, Bool-cases, ◌<◌, All, ◌≢◌,
}
use relica.Text.{Text}
use relica.Params.{is_word, read_word, non_empty, match_named, Piece, plain, named, scan_from, scan}

-- The text that the pieces stand for.
abbrev pub spell : List Piece → Text
spell [] = []
spell (plain c ∷ ps) = c ∷ spell ps
spell (named n ∷ ps) = b'{' ∷ b':' ∷ (n ++ b'}' ∷ spell ps)

read_word-spells :
    (s w : Text)
    → read_word s ≡ some w
    → (rest : Text) × (s ≡ w ++ b'}' ∷ rest) × All (λ c. is_word c ≡ true) w
unfolding read_word
read_word-spells [] w h = cc
read_word-spells (c ∷ s) w h = elim (Bool-cases (is_word c)) [
  | inl word ↦ elim (Option-cases (read_word s)) [
    | inl e ↦ absurd (ground arith)
    | inr (v, e) ↦
        let (rest, spelt, words) = read_word-spells s v e in
        let split : w ≡ c ∷ v = ground arith in rw split (rest, ap (◌∷◌ c) spelt, (word, words))
  ]
  | inr stop ↦ let empty : w ≡ [] = ground arith in rw empty (s, ground arith, tt)
]

match_named-spells :
    (s name : Text)
    → match_named s ≡ some name
    → (rest : Text) × (s ≡ b'{' ∷ b':' ∷ (name ++ b'}' ∷ rest))
      × All (λ c. is_word c ≡ true) name
      × (name ≢ [])
unfolding match_named non_empty
match_named-spells [] name h = cc
match_named-spells (a ∷ []) name h = cc
match_named-spells (a ∷ b ∷ s) name h = elim (Option-cases (read_word s)) [
  | inl e ↦ absurd (ground arith)
  | inr (w, e) ↦
      let (rest, spelt, words) = read_word-spells s w e in
      let same : name ≡ w = ground arith in rw same (rest, ground arith, words, ground arith)
]

scan_from-skip :
    (w : Text) (c : ℕ) (s : Text) → scan_from (suc (length w)) (w ++ c ∷ s) ≡ scan_from zero s
unfolding scan_from
scan_from-skip [] c s = refl
scan_from-skip (x ∷ w) c s = scan_from-skip w c s

-- What is passed over is the rest of the match.
scan_from-match :
    (name rest : Text)
    → scan_from (length name + 2) (b':' ∷ (name ++ b'}' ∷ rest)) ≡ scan_from zero rest
unfolding scan_from
scan_from-match name rest =
    let e : length name + 2 ≡ suc (suc (length name)) = omega arith in
    rw e (scan_from-skip name b'}' rest)

-- The length bounds the recursion.
spell-scan_from : (n : ℕ) (s : Text) → length s < n → spell (scan_from zero s) ≡ s
unfolding scan_from
spell-scan_from zero s lt = absurd (omega arith)
spell-scan_from (suc n) [] lt = refl
spell-scan_from (suc n) (c ∷ s) lt = elim (Option-cases (match_named (c ∷ s))) [
  | inl e ↦ rw (e, scan_from) (ap (◌∷◌ c) (spell-scan_from n s (omega arith)))
  | inr (name, e) ↦
      let (rest, spelt, words, ne) = match_named-spells (c ∷ s) name e in
      let tail : s ≡ b':' ∷ (name ++ b'}' ∷ rest) = cc in
      let short : length rest < n =
        omega (arith, ap length spelt, length-append name (b'}' ∷ rest)) in
      rw (e, scan_from)
        (cc (
          scan_from-match name rest,
          spell-scan_from n rest short,
          ap (scan_from (length name + 2)) tail,
        ))
]

-- The pieces of a text spell it: no character is lost, moved or made up by the scan.
pub spell-scan : (s : Text) → spell (scan s) ≡ s
unfolding scan
spell-scan s = spell-scan_from (suc (length s)) s (omega arith)
