-- ===== src/Params/Bind.antt =====
-- The two ways to bind named parameters agree, and bind every `?`.
use relica.Prelude.{
  suc, ◌+◌, ◌≤◌, ◌≡◌, ◌≢◌, ◌↔◌, ◌⊎◌, refl, ap, List, [], ◌∷◌, none, some, length, arith,
  Option-cases, inl, inr,
}
use relica.Prelude.Maps.{lookup}
use relica.Text.{Text, question}
use relica.Text.Counts.{count-append, count_all}
use relica.Dialect.Holes.{holes}
use relica.Exp.{params, Dynamic, view_of, IsBalanced}
use relica.Params.{
  Piece, plain, named, scan, names, with_questions, ok, missing_names, bind_params, ordered_args,
  resolve_with, resolve_view, resolve_names, resolve_named_params,
}
use relica.Params.Scan.{spell, spell-scan}

module _ {V : Type 0} ⦃dyn : Dynamic V⦄ where
  -- Either no name is missing and both bind alike, or `bind_params` fails.
  bind_cases :
      (p : List (Text × V)) (ns : List Text)
      → ((missing_names p ns ≡ []) × (bind_params p ns ≡ some (ordered_args p ns)))
        ⊎ ((m : Text) × (ms : List Text) × (missing_names p ns ≡ m ∷ ms)
            × (bind_params p ns ≡ none))
  unfolding bind_params
  bind_cases p [] = inl (refl, refl)
  bind_cases p (n ∷ ns) = elim (Option-cases (lookup n p)) [
    | inl e ↦ inr (n, missing_names p ns, ground arith, ground arith)
    | inr (v, e) ↦ elim (bind_cases p ns) [
      | inl (h, k) ↦ inl (ground arith, ground arith)
      | inr (m, ms, h, k) ↦ inr (m, ms, ground arith, ground arith)
    ]
  ]

  length-ordered_args :
      (p : List (Text × V)) (ns : List Text) → length (ordered_args p ns) ≡ length ns
  length-ordered_args p [] = refl
  length-ordered_args p (n ∷ ns) = ap suc (length-ordered_args p ns)

  resolve-resolve_with :
      (s : Text) (v : V) (p : List (Text × V))
      → view_of v ≡ params p
      → names (scan s) ≢ []
      → resolve_named_params s (v ∷ []) ≡ resolve_with s (v ∷ []) p
  unfolding resolve_named_params
  resolve-resolve_with s v p e h = go (names (scan s)) h
    where
      go : (ns : List Text) → ns ≢ [] → resolve_names ns s (v ∷ []) ≡ resolve_with s (v ∷ []) p
      go [] ne = absurd (ne refl)
      go (n ∷ ns) ne = rw (e, resolve_view)

  -- For a condition with named placeholders and one map of parameters, `resolveNamedParams`
  -- succeeds exactly when `bindParams` does on the names of the condition, and with the same
  -- parameters in the same order.
  pub resolve-bind_params :
      (s : Text) (v : V) (p : List (Text × V)) (args : List V)
      → view_of v ≡ params p
      → names (scan s) ≢ []
      → (resolve_named_params s (v ∷ []) ≡ ok (with_questions (scan s)) args)
        ↔ (bind_params p (names (scan s)) ≡ some args)
  unfolding resolve_with
  resolve-bind_params s v p args e h = elim (bind_cases p (names (scan s))) [
    | inl (all, bound) ↦
        let r = resolve-resolve_with s v p e h in (λ k. ground arith, λ k. ground arith)
    | inr (m, ms, lacks, bound) ↦
        let r = resolve-resolve_with s v p e h in (λ k. ground arith, λ k. ground arith)
  ]

count-spell :
    (ps : List Piece)
    → holes (with_questions ps) + count_all question (names ps)
      ≡ holes (spell ps) + length (names ps)
count-spell [] = refl
count-spell (plain c ∷ ps) = ground (arith, count-spell ps)
count-spell (named n ∷ ps) =
    omega (arith, count-spell ps, count-append question n (b'}' ∷ spell ps))

count_names-le : (ps : List Piece) → count_all question (names ps) ≤ holes (spell ps)
count_names-le [] = omega arith
count_names-le (plain c ∷ ps) = ground (arith, count_names-le ps)
count_names-le (named n ∷ ps) =
    omega (arith, count_names-le ps, count-append question n (b'}' ∷ spell ps))

module _ {V : Type 0} ⦃dyn : Dynamic V⦄ where
  -- A condition that holds no `?` of its own has one for each parameter after its names are
  -- resolved.
  pub resolve-IsBalanced :
      (s : Text) (v : V) (p : List (Text × V)) {sql : Text} {args : List V}
      → view_of v ≡ params p
      → names (scan s) ≢ []
      → holes s ≡ 0
      → resolve_named_params s (v ∷ []) ≡ ok sql args
      → IsBalanced (sql, args)
  unfolding resolve_with
  resolve-IsBalanced s v p {sql} {args} e h none_before k = elim (bind_cases p (names (scan s))) [
    | inl (all, bound) ↦
        let same_sql : sql ≡ with_questions (scan s) =
          ground (arith, resolve-resolve_with s v p e h) in
        let same_args : args ≡ ordered_args p (names (scan s)) =
          ground (arith, resolve-resolve_with s v p e h) in
        omega (
          arith,
          ap holes same_sql,
          ap length same_args,
          length-ordered_args p (names (scan s)),
          count-spell (scan s),
          count_names-le (scan s),
          ap holes (spell-scan s),
        )
    | inr (m, ms, lacks, bound) ↦ absurd (ground (arith, resolve-resolve_with s v p e h))
  ]

  -- What is resolved is the condition with `?` for its names.
  pub resolve-text :
      (s : Text) (v : V) (p : List (Text × V)) {sql : Text} {args : List V}
      → view_of v ≡ params p
      → names (scan s) ≢ []
      → resolve_named_params s (v ∷ []) ≡ ok sql args
      → sql ≡ with_questions (scan s)
  unfolding resolve_with
  resolve-text s v p e h k = elim (bind_cases p (names (scan s))) [
    | inl (all, bound) ↦ ground (arith, resolve-resolve_with s v p e h)
    | inr (m, ms, lacks, bound) ↦ absurd (ground (arith, resolve-resolve_with s v p e h))
  ]
