-- ===== src/Query/Takes.antt =====
-- How many parameters a piece of a statement takes, and from which index on.
use relica.Prelude.{
  ℕ, zero, suc, ◌+◌, ◌≡◌, refl, ap, ◌∙◌, false, List, [], ◌∷◌, ◌++◌, arith, append_assoc,
}
use relica.Text.{Text, codes, question, join}
use relica.Text.Counts.{count-append}
use relica.Dialect.{Dialect, postgres, mysql, sqlite, placeholder, quote_identifier}
use relica.Dialect.Holes.{holes, count-quote_identifier, holes-quote_identifier, IsOrdinary}
use relica.Query.{renumber}
use relica.Query.Number.{renumber-number, holes-number, holes-placeholder}
use relica.Query.Slots.{
  slots, up_from, IsClear, is_digit_head, dollar, dollars, slots-number, slots-plain,
  slots-placeholder,
}

-- The numbered text has no `?` left, and its indices are the `n` from `start` on.
abbrev pub IsNumbered : ℕ → ℕ → Text → Type 0
IsNumbered start n s =
    (holes s ≡ 0)
    × ((t : Text) → is_digit_head t ≡ false → slots (s ++ t) ≡ up_from start n ++ slots t)

pub renumber-IsNumbered :
    (start n : ℕ) (s : Text)
    → holes s ≡ n
    → IsClear s
    → IsNumbered start n (renumber postgres start n s)
renumber-IsNumbered start n s e h =
    rw (← e, renumber-number start (holes s) s)
      (omega (arith, holes-number start (holes s) s), λ t k. slots-number start s t h k)

-- The piece takes `n` parameters from index `k` on.
abbrev pub Takes : Dialect → ℕ → ℕ → Text → Type 0
Takes postgres k n s = IsNumbered k n s
Takes mysql k n s = holes s ≡ n
Takes sqlite k n s = holes s ≡ n

-- What stands in front of it cannot run into its first character.
abbrev pub StartsClear : Text → Type 0
StartsClear s = (u : Text) → is_digit_head u ≡ false → is_digit_head (s ++ u) ≡ false

-- Neither `?` nor `$`.
abbrev pub IsQuiet : Text → Type 0
IsQuiet s = (holes s ≡ 0) × (dollars s ≡ 0)

up_from-append : (k m n : ℕ) → up_from k (m + n) ≡ up_from k m ++ up_from (k + m) n
up_from-append k zero n =
    let e : k + zero ≡ k = omega arith in let f : zero + n ≡ n = omega arith in rw (e, f)
up_from-append k (suc m) n =
    let e : k + suc m ≡ suc k + m = omega arith in
    let f : suc m + n ≡ suc (m + n) = omega arith in
    rw (e, f) (ap (◌∷◌ k) (up_from-append (suc k) m n))

pub Takes-append :
    (d : Dialect) (k m n : ℕ) (s t : Text)
    → Takes d k m s
    → Takes d (k + m) n t
    → StartsClear t
    → Takes d k (m + n) (s ++ t)
Takes-append mysql k m n s t h h' c = omega (arith, count-append question s t)
Takes-append sqlite k m n s t h h' c = omega (arith, count-append question s t)
Takes-append postgres k m n s t h h' c = (
  omega (arith, count-append question s t, h.0, h'.0),
  λ u e.
      rw
        (
          append_assoc s t u,
          up_from-append k m n,
          append_assoc (up_from k m) (up_from (k + m) n) (slots u),
        )
        (h.1 (t ++ u) (c u e) ∙ ap (◌++◌ (up_from k m)) (h'.1 u e)),
)

pub Takes-quiet : (d : Dialect) (k : ℕ) (s : Text) → IsQuiet s → Takes d k 0 s
Takes-quiet mysql k s h = h.0
Takes-quiet sqlite k s h = h.0
Takes-quiet postgres k s h = (h.0, λ t e. slots-plain s t h.1)

-- A quiet piece in front changes nothing.
pub Takes-after :
    (d : Dialect) (k n : ℕ) (s t : Text) → IsQuiet s → Takes d k n t → Takes d k n (s ++ t)
Takes-after mysql k n s t q h = omega (arith, count-append question s t, q.0)
Takes-after sqlite k n s t q h = omega (arith, count-append question s t, q.0)
Takes-after postgres k n s t q h = (
  omega (arith, count-append question s t, q.0, h.0),
  λ u e. rw (append_assoc s t u) (slots-plain s (t ++ u) q.1 ∙ h.1 u e),
)

-- Nor does a quiet piece behind, if it begins with no digit.
pub Takes-before :
    (d : Dialect) (k n : ℕ) (s t : Text)
    → Takes d k n s
    → IsQuiet t
    → StartsClear t
    → Takes d k n (s ++ t)
Takes-before mysql k n s t h q c = omega (arith, count-append question s t, q.0)
Takes-before sqlite k n s t h q c = omega (arith, count-append question s t, q.0)
Takes-before postgres k n s t h q c = (
  omega (arith, count-append question s t, q.0, h.0),
  λ u e.
      rw (append_assoc s t u)
        (h.1 (t ++ u) (c u e) ∙ ap (◌++◌ (up_from k n)) (slots-plain t u q.1)),
)

pub Takes-placeholder : (d : Dialect) (k : ℕ) → Takes d k 1 (placeholder d k)
unfolding placeholder
Takes-placeholder mysql k = refl
Takes-placeholder sqlite k = refl
Takes-placeholder postgres k = (holes-placeholder k, λ t e. slots-placeholder k t e)

dollar-IsOrdinary : IsOrdinary dollar
dollar-IsOrdinary = record { not_nul = refl; not_double = refl; not_back = refl }

-- Quoting a quiet name keeps it quiet.
pub quote_identifier-IsQuiet : (d : Dialect) (s : Text) → IsQuiet s → IsQuiet (quote_identifier d s)
quote_identifier-IsQuiet d s q =
    (holes-quote_identifier d s ∙ q.0, count-quote_identifier dollar d s dollar-IsOrdinary ∙ q.1)

pub append-IsQuiet : (s t : Text) → IsQuiet s → IsQuiet t → IsQuiet (s ++ t)
append-IsQuiet s t h k = (
  omega (arith, count-append question s t, h.0, k.0),
  omega (arith, count-append dollar s t, h.1, k.1),
)

-- Pieces that take their parameters one after the other.
abbrev pub TakesAll : Dialect → ℕ → ℕ → List Text → Type 0
TakesAll d k n [] = n ≡ 0
TakesAll d k n (p ∷ ps) = (m r : ℕ) × (n ≡ m + r) × Takes d k m p × TakesAll d (k + m) r ps

pub join-Takes :
    (d : Dialect) (k n : ℕ) (ps : List Text)
    → TakesAll d k n ps
    → Takes d k n (join (codes ", ") ps)
join-Takes d k n [] h = rw h (Takes-quiet d k [] (refl, refl))
join-Takes d k n (p ∷ []) (m, r, e, h, last) = let same : n ≡ m = omega arith in rw same h
join-Takes d k n (p ∷ q ∷ ps) (m, r, e, h, rest) = rw e (
    Takes-append d k m r p (codes ", " ++ join (codes ", ") (q ∷ ps)) h
      (Takes-after d (k + m) r (codes ", ") (join (codes ", ") (q ∷ ps)) (refl, refl)
        (join-Takes d (k + m) r (q ∷ ps) rest))
      (λ u c. refl))
