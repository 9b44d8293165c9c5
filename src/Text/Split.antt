-- ===== src/Text/Split.antt =====
-- `strings.Split` and `strings.Join` undo one another.
use relica.Prelude.{
  ℕ, ◌==◌, ◌≡◌, refl, sym, arith, false, List, [], ◌∷◌, ◌++◌, append-nil, append_assoc, Bool-cases,
  inl, inr, All,
}
use relica.Text.{Text, join, contains_char, split, split_onto}

split_onto-ne-nil :
    (c : ℕ) (cur s : Text) → (p : Text) × (ps : List Text) × (split_onto c cur s ≡ p ∷ ps)
unfolding split_onto
split_onto-ne-nil c cur [] = (cur, [], refl)
split_onto-ne-nil c cur (x ∷ s) = elim (Bool-cases (x == c)) [
  | inl e ↦ (cur, split_onto c [] s, rw (e, split_onto))
  | inr e ↦ let (p, ps, h) = split_onto-ne-nil c (cur ++ x ∷ []) s in (p, ps, rw (e, split_onto) h)
]

join-cons :
    (sep p q : Text) (qs ps : List Text)
    → ps ≡ q ∷ qs
    → join sep (p ∷ ps) ≡ p ++ (sep ++ join sep ps)
join-cons sep p q qs ps e = rw e

join-split_onto : (c : ℕ) (cur s : Text) → join (c ∷ []) (split_onto c cur s) ≡ cur ++ s
unfolding split_onto
join-split_onto c cur [] = sym (append-nil cur)
join-split_onto c cur (x ∷ s) =
    let (q, qs, e) = split_onto-ne-nil c [] s in
    ground (
      arith,
      join-cons (c ∷ []) cur q qs (split_onto c [] s) e,
      join-split_onto c [] s,
      join-split_onto c (cur ++ x ∷ []) s,
      append_assoc cur (x ∷ []) s,
    )

contains_char-append :
    (c : ℕ) (s t : Text)
    → contains_char c s ≡ false
    → contains_char c t ≡ false
    → contains_char c (s ++ t) ≡ false
contains_char-append c [] t h k = k
contains_char-append c (x ∷ s) t h k = ground (arith, contains_char-append c s t)

split_onto-All :
    (c : ℕ) (cur s : Text)
    → contains_char c cur ≡ false
    → All (λ p. contains_char c p ≡ false) (split_onto c cur s)
unfolding split_onto
split_onto-All c cur [] h = (h, tt)
split_onto-All c cur (x ∷ s) h = elim (Bool-cases (x == c)) [
  | inl e ↦ rw (e, split_onto) (h, split_onto-All c [] s refl)
  | inr e ↦
      rw (e, split_onto)
        (split_onto-All c (cur ++ x ∷ []) s (contains_char-append c cur (x ∷ []) h (rw e)))
]

pub split-ne-nil : (c : ℕ) (s : Text) → (p : Text) × (ps : List Text) × (split c s ≡ p ∷ ps)
unfolding split
split-ne-nil c s = split_onto-ne-nil c [] s

pub join-split : (c : ℕ) (s : Text) → join (c ∷ []) (split c s) ≡ s
unfolding split
join-split c s = join-split_onto c [] s

pub split-All : (c : ℕ) (s : Text) → All (λ p. contains_char c p ≡ false) (split c s)
unfolding split
split-All c s = split_onto-All c [] s refl
