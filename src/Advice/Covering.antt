-- ===== src/Advice/Covering.antt =====
-- internal/optimizer/covering.go: the columns of a covering index, without duplicates.
use relica.Prelude.{
  ℕ, ◌≤◌, ◌<◌, ◌≡◌, refl, sym, ◌∙◌, ap, Bool, true, false, ◌||◌, List, [], ◌∷◌, ◌++◌, arith, length,
  Bool-cases, inl, inr, ltb, leb, ◌&&◌, append-nil, append_assoc,
}
use relica.Prelude.Maps.{text_eq→≡}
use relica.Text.{Text, text_eq}
use relica.Advice.{seen_in, add_columns, combine_columns, analyze_covering, is_star}

-- No text occurs twice.
abbrev pub Distinct : List Text → Type 0
Distinct [] = Unit
Distinct (c ∷ cs) = (seen_in cs c ≡ false) × Distinct cs

text_eq_sym : (a b : Text) → text_eq a b ≡ text_eq b a
text_eq_sym [] [] = refl
text_eq_sym [] (y ∷ b) = refl
text_eq_sym (x ∷ a) [] = refl
text_eq_sym (x ∷ a) (y ∷ b) = ground (arith, text_eq_sym a b)

seen_in-append :
    (xs ys : List Text) (c : Text) → seen_in (xs ++ ys) c ≡ (seen_in xs c || seen_in ys c)
seen_in-append [] ys c = refl
seen_in-append (x ∷ xs) ys c = ground (arith, seen_in-append xs ys c)

Distinct-append_one :
    (xs : List Text) (c : Text) → Distinct xs → seen_in xs c ≡ false → Distinct (xs ++ c ∷ [])
Distinct-append_one [] c h n = (refl, tt)
Distinct-append_one (x ∷ xs) c (fresh, h) n = (
  ground (arith, seen_in-append xs (c ∷ []) x, text_eq_sym c x),
  Distinct-append_one xs c h (ground arith),
)

-- The set of a loop has the columns of its result, which are distinct.
abbrev IsInStep : List Text × List Text → Type 0
IsInStep (seen, result) = Distinct result × ((c : Text) → seen_in seen c ≡ seen_in result c)

step-added :
    (c : Text) (seen result : List Text)
    → IsInStep (seen, result)
    → seen_in seen c ≡ false
    → IsInStep (c ∷ seen, result ++ c ∷ [])
step-added c seen result (h, same) n = (
  Distinct-append_one result c h (sym (same c) ∙ n),
  λ x. ground (arith, same x, seen_in-append result (c ∷ []) x),
)

add_columns-IsInStep :
    (cs : List Text) (acc : List Text × List Text) → IsInStep acc → IsInStep (add_columns cs acc)
add_columns-IsInStep [] acc h = h
add_columns-IsInStep (c ∷ cs) (seen, result) h = elim (Bool-cases (seen_in seen c)) [
  | inl e ↦ rw e (add_columns-IsInStep cs (seen, result) h)
  | inr e ↦
      rw e (add_columns-IsInStep cs (c ∷ seen, result ++ c ∷ []) (step-added c seen result h e))
]

seen_in-eq : (xs : List Text) (c x : Text) → text_eq c x ≡ true → seen_in xs c ≡ seen_in xs x
seen_in-eq xs c x e = ap (seen_in xs) (text_eq→≡ c x e)

-- A column that is there adds nothing.
seen_again :
    (c x : Text) (result cs : List Text)
    → seen_in result c ≡ true
    → (seen_in result x || seen_in cs x) ≡ (seen_in result x || seen_in (c ∷ cs) x)
seen_again c x result cs h = elim (Bool-cases (text_eq c x)) [
  | inl e ↦ ground (arith, seen_in-eq result c x e)
  | inr e ↦ rw e refl
]

add_columns-seen :
    (cs : List Text) (acc : List Text × List Text) (x : Text)
    → IsInStep acc
    → seen_in (add_columns cs acc).1 x ≡ (seen_in acc.1 x || seen_in cs x)
add_columns-seen [] (seen, result) x h = ground arith
add_columns-seen (c ∷ cs) (seen, result) x h = elim (Bool-cases (seen_in seen c)) [
  | inl e ↦
      rw e (add_columns-seen cs (seen, result) x h ∙ seen_again c x result cs (sym (h.1 c) ∙ e))
  | inr e ↦ rw e (
      add_columns-seen cs (c ∷ seen, result ++ c ∷ []) x (step-added c seen result h e)
      ∙ ground (arith, seen_in-append result (c ∷ []) x))
]

-- The result of a loop begins with what it found.
add_columns-prefix :
    (cs : List Text) (acc : List Text × List Text)
    → (rest : List Text) × ((add_columns cs acc).1 ≡ acc.1 ++ rest)
add_columns-prefix [] (seen, result) = ([], sym (append-nil result))
add_columns-prefix (c ∷ cs) (seen, result) = elim (Bool-cases (seen_in seen c)) [
  | inl e ↦ rw e (add_columns-prefix cs (seen, result))
  | inr e ↦ rw e (
      let (rest, p) = add_columns-prefix cs (c ∷ seen, result ++ c ∷ []) in
      (c ∷ rest, p ∙ append_assoc result (c ∷ []) rest))
]

-- The columns of WHERE, each once, and then what else SELECT has, without duplicates.
pub record IsCombined (where_cols select_cols result : List Text) : Type 0 where
  pub distinct : Distinct result
  pub complete : (c : Text) → seen_in result c ≡ (seen_in where_cols c || seen_in select_cols c)
  pub others : List Text
  pub where_first : result ≡ combine_columns where_cols [] ++ others

empty_step : IsInStep ([], [])
empty_step = (tt, λ c. refl)

-- combineColumns returns exactly the columns of its two lists, each once, and first those of WHERE.
pub combine_columns-IsCombined :
    (where_cols select_cols : List Text)
    → IsCombined where_cols select_cols (combine_columns where_cols select_cols)
unfolding combine_columns
combine_columns-IsCombined ws ss =
    let first = add_columns-IsInStep ws ([], []) empty_step in
    let (rest, p) = add_columns-prefix ss (add_columns ws ([], [])) in
    record {
      distinct = (add_columns-IsInStep ss (add_columns ws ([], [])) first).0;
      complete = λ c.
          add_columns-seen ss (add_columns ws ([], [])) c first
          ∙ ap (λ b. b || seen_in ss c) (add_columns-seen ws ([], []) c empty_step);
      others = rest;
      where_first = p;
    }

-- What a recommended covering index promises.
pub record IsCovering (where_cols select_cols columns : List Text) : Type 0 where
  pub filters : 0 < length where_cols
  pub enough : 2 ≤ length columns
  pub narrow : length columns ≤ 5
  pub combined : IsCombined where_cols select_cols columns

abbrev in_range : ℕ → ℕ → Bool
in_range filters n = ltb 0 filters && leb 2 n && leb n 5

recommended-passed :
    (ws ss : List Text)
    → (analyze_covering ws ss).recommended ≡ true
    → (is_star ss ≡ false) × (in_range (length ws) (length (combine_columns ws ss)) ≡ true)
unfolding analyze_covering
recommended-passed ws ss h = ground arith

range_bounds : (w n : ℕ) → in_range w n ≡ true → (0 < w) × (2 ≤ n) × (n ≤ 5)
range_bounds w n h = ground arith

-- A covering index that AnalyzeCoveringIndex recommends has two to five columns, which are those of
-- WHERE and SELECT, each once and those of WHERE first; and the query has a condition.
pub analyze_covering-IsCovering :
    (where_cols select_cols : List Text)
    → (analyze_covering where_cols select_cols).recommended ≡ true
    → IsCovering where_cols select_cols (analyze_covering where_cols select_cols).columns
unfolding analyze_covering
analyze_covering-IsCovering ws ss h =
    let (star, range) = recommended-passed ws ss h in
    let (w, low, high) = range_bounds (length ws) (length (combine_columns ws ss)) range in
    rw (star, range)
      record {
        filters = w;
        enough = low;
        narrow = high;
        combined = combine_columns-IsCombined ws ss;
      }
