-- ===== src/Db/Named/Bound.antt =====
-- What `processSQL` and `BindParams` bind.
use relica.Prelude.{
  ℕ, suc, ◌+◌, ◌==◌, ◌≡◌, ◌≢◌, ◌↔◌, refl, ap, Bool, false, List, [], ◌∷◌, map, All, All-append,
  none, some, length, arith, Option-cases, inl, inr,
}
use relica.Prelude.Maps.{lookup}
use relica.Text.{Text, question}
use relica.Dialect.{Dialect, placeholder, postgres, mysql, sqlite}
use relica.Params.{Piece, plain, named, scan, names, bind_params}
use relica.Query.Slots.{is_digit, dollar}
use relica.Query.Takes.{
  Takes, Takes-append, Takes-after, Takes-placeholder, Takes-quiet, StartsClear,
}
use relica.Text.Decimal.{decimal, decimal-All, IsDigit}
use relica.Db.Named.{
  with_placeholders, process_sql, bind_named, match_mark, quote_from, quote_marks,
}
use relica.Db.{DbQuery, Failure}

abbrev digit_first : List Piece → Bool
digit_first [] = false
digit_first (plain c ∷ ps) = is_digit c
digit_first (named n ∷ ps) = false

-- Outside the named placeholders there is neither `?` nor `$`, and behind none of them a digit.
abbrev pub IsNamedOnly : List Piece → Type 0
IsNamedOnly [] = Unit
IsNamedOnly (plain c ∷ ps) = (c == question ≡ false) × (c == dollar ≡ false) × IsNamedOnly ps
IsNamedOnly (named n ∷ ps) = (digit_first ps ≡ false) × IsNamedOnly ps

starts_clear :
    (d : Dialect) (k : ℕ) (ps : List Piece)
    → digit_first ps ≡ false
    → StartsClear (with_placeholders d k ps)
unfolding placeholder
starts_clear d k [] h = λ u e. e
starts_clear d k (plain c ∷ ps) h = λ u e. h
starts_clear postgres k (named n ∷ ps) h = λ u e. refl
starts_clear mysql k (named n ∷ ps) h = λ u e. refl
starts_clear sqlite k (named n ∷ ps) h = λ u e. refl

-- The placeholders that step 1 puts in take, in the order of the names, the parameters from
-- index `k` on, as many as there are names, repeated ones included.
pub with_placeholders-Takes :
    (d : Dialect) (k : ℕ) (ps : List Piece)
    → IsNamedOnly ps
    → Takes d k (length (names ps)) (with_placeholders d k ps)
with_placeholders-Takes d k [] h = Takes-quiet d k [] (refl, refl)
with_placeholders-Takes d k (plain c ∷ ps) h =
    Takes-after d k (length (names ps)) (c ∷ []) (with_placeholders d k ps)
      (rw (h.0) refl, rw (h.1) refl) (with_placeholders-Takes d k ps h.2)
with_placeholders-Takes d k (named n ∷ ps) h =
    let rest = with_placeholders-Takes d (suc k) ps h.1 in
    let e : k + 1 ≡ suc k = omega arith in
    let f : suc (length (names ps)) ≡ 1 + length (names ps) = omega arith in
    rw f (
      Takes-append d k 1 (length (names ps)) (placeholder d k) (with_placeholders d (suc k) ps)
        (Takes-placeholder d k) (rw e rest) (starts_clear d (suc k) ps h.0))

-- No mark for a quoted name can begin at the character.
abbrev pub IsNoMark : ℕ → Type 0
IsNoMark c = (c == b'{' ≡ false) × (c == b'[' ≡ false)

-- Outside the named placeholders there is neither `{` nor `[`.
abbrev pub HasNoMarks : List Piece → Type 0
HasNoMarks [] = Unit
HasNoMarks (plain c ∷ ps) = IsNoMark c × HasNoMarks ps
HasNoMarks (named n ∷ ps) = HasNoMarks ps

match_mark-none : (c : ℕ) (s : Text) → IsNoMark c → match_mark (c ∷ s) ≡ none
unfolding match_mark
match_mark-none c [] h = refl
match_mark-none c (x ∷ s) h = rw (h.0, h.1) refl

quote_from-plain : (d : Dialect) (s : Text) → All IsNoMark s → quote_from d 0 s ≡ s
unfolding quote_from
quote_from-plain d [] h = refl
quote_from-plain d (c ∷ s) h =
    rw (quote_from, match_mark-none c s h.0) (ap (◌∷◌ c) (quote_from-plain d s h.1))

digits-IsNoMark : (s : Text) → All IsDigit s → All IsNoMark s
digits-IsNoMark [] h = tt
digits-IsNoMark (c ∷ s) h = ((ground (arith, h.0), ground (arith, h.0)), digits-IsNoMark s h.1)

placeholder-IsNoMark : (d : Dialect) (k : ℕ) → All IsNoMark (placeholder d k)
unfolding placeholder
placeholder-IsNoMark postgres k = ((refl, refl), digits-IsNoMark (decimal k) (decimal-All k))
placeholder-IsNoMark mysql k = ((refl, refl), tt)
placeholder-IsNoMark sqlite k = ((refl, refl), tt)

with_placeholders-IsNoMark :
    (d : Dialect) (k : ℕ) (ps : List Piece)
    → HasNoMarks ps
    → All IsNoMark (with_placeholders d k ps)
with_placeholders-IsNoMark d k [] h = tt
with_placeholders-IsNoMark d k (plain c ∷ ps) h = (h.0, with_placeholders-IsNoMark d k ps h.1)
with_placeholders-IsNoMark d k (named n ∷ ps) h =
    All-append IsNoMark (placeholder d k) (with_placeholders d (suc k) ps)
      (placeholder-IsNoMark d k) (with_placeholders-IsNoMark d (suc k) ps h)

-- What `processSQL` makes of a text without marks for quoted names, `{{name}}` and `[[name]]`, which
-- holds neither `?` nor `$` outside its named placeholders and no digit behind one: it lists the
-- names in the order of the text, repeated ones included, and the new text takes exactly as many
-- parameters, the i-th placeholder for the i-th name.
pub process_sql-Takes :
    (d : Dialect) (sql : Text)
    → IsNamedOnly (scan sql)
    → HasNoMarks (scan sql)
    → ((process_sql d sql).1 ≡ names (scan sql))
      × Takes d 1 (length (process_sql d sql).1) (process_sql d sql).0
unfolding process_sql quote_marks
process_sql-Takes d sql h m = (
  refl,
  rw (quote_from-plain d _ (with_placeholders-IsNoMark d 1 (scan sql) m))
      (with_placeholders-Takes d 1 (scan sql) h),
)

-- The map has the name.
abbrev pub Has : {V : Type 0} → List (Text × V) → Text → Type 0
Has p n = lookup n p ≢ none

module _ {V : Type 0} where
  -- Parameters bound to names: the i-th is the value of the i-th name.
  pub bind_params-values :
      (p : List (Text × V)) (ns : List Text) (vs : List V)
      → bind_params p ns ≡ some vs
      → map (λ n. lookup n p) ns ≡ map some vs
  unfolding bind_params
  bind_params-values p [] [] h = refl
  bind_params-values p [] (v ∷ vs) h = cc
  bind_params-values p (n ∷ ns) vs h = elim (Option-cases (lookup n p)) [
    | inl e ↦ let bad = rw (bind_params, e) at h in cc
    | inr (v, e) ↦ elim (Option-cases (bind_params p ns)) [
      | inl f ↦ let bad = rw (bind_params, e, f) at h in cc
      | inr (ws, f) ↦
          let same : v ∷ ws ≡ vs = ground (arith) in
          rw (← same, e) (ap (◌∷◌ (some v)) (bind_params-values p ns ws f))
    ]
  ]

  bind_params-none :
      (p : List (Text × V)) (ns : List Text) → (bind_params p ns ≡ none) ↔ (¬ All (Has p) ns)
  unfolding bind_params
  bind_params-none p [] = (λ h. cc, λ h. absurd (h tt))
  bind_params-none p (n ∷ ns) = elim (Option-cases (lookup n p)) [
    | inl e ↦ (λ h k. k.0 e, λ h. rw (bind_params, e))
    | inr (v, e) ↦ elim (Option-cases (bind_params p ns)) [
      | inl f ↦ (λ h k. (bind_params-none p ns).0 f k.1, λ h. rw (bind_params, e, f))
      | inr (ws, f) ↦ (
        λ h. let bad = rw (bind_params, e, f) at h in cc,
        λ h. let g = (bind_params-none p ns).1 (λ k. h (λ z. cc, k)) in cc,
      )
    ]
  ]

module _ {S X E V : Type 0} (d : Dialect) (p : List (Text × V)) (q : DbQuery S X E V) where
  -- `BindParams` of a query without an error stores one exactly if the map lacks a name of the
  -- text.
  pub bind_named-prep_err :
      q.prep_err ≡ none
      → ((bind_named d p q).prep_err ≢ none) ↔ (¬ All (Has p) (names (scan q.sql)))
  unfolding bind_named process_sql
  bind_named-prep_err h = elim (Option-cases (bind_params p (names (scan q.sql)))) [
    | inl e ↦
        (λ k. (bind_params-none p (names (scan q.sql))).0 e, λ k. rw (bind_named, e) (λ z. cc))
    | inr (vs, e) ↦ (
      λ k. absurd (k (rw (bind_named, e) h)),
      λ k. let f = (bind_params-none p (names (scan q.sql))).1 k in cc,
    )
  ]

  -- Where `BindParams` leaves no error, the query's parameters are the values of the names of its
  -- text, in the order of the text.
  pub bind_named-values :
      (bind_named d p q).prep_err ≡ none
      → map (λ n. lookup n p) (names (scan q.sql)) ≡ map some (bind_named d p q).params
  unfolding bind_named process_sql
  bind_named-values h = elim (Option-cases (bind_params p (names (scan q.sql)))) [
    | inl e ↦ let bad = rw (bind_named, e) at h in cc
    | inr (vs, e) ↦ rw (bind_named, e) (bind_params-values p (names (scan q.sql)) vs e)
  ]

  -- An error that is stored stays: a later `BindParams` does not make the query run.
  pub bind_named-keeps_error :
      (f : Failure E) → q.prep_err ≡ some f → (bind_named d p q).prep_err ≢ none
  unfolding bind_named process_sql
  bind_named-keeps_error f h = ground arith

  -- A query whose text has no names, as after an earlier `BindParams`, has no parameters then.
  pub bind_named-no_names : names (scan q.sql) ≡ [] → (bind_named d p q).params ≡ []
  unfolding bind_named process_sql bind_params
  bind_named-no_names h = rw (bind_named, h) refl
