-- ===== src/Query/BatchUpdate/Binding.antt =====
-- The parameters of a batch UPDATE.
use relica.Prelude.{
  ℕ, suc, ◌+◌, ◌≡◌, ◌≢◌, refl, ap, map, none, some, List, [], ◌∷◌, ◌++◌, arith, length,
  length-append, All, Option-cases, inl, inr,
}
use relica.Prelude.Maps.{lookup}
use relica.Text.{Text, codes, join}
use relica.Dialect.{Dialect, placeholder, quote_identifier}
use relica.Query.Binds.{Binds, binds}
use relica.Query.Takes.{
  Takes, TakesAll, join-Takes, Takes-after, Takes-append, Takes-before, Takes-quiet,
  Takes-placeholder, StartsClear, IsQuiet, quote_identifier-IsQuiet, append-IsQuiet,
}
use relica.Query.BatchUpdate.{
  BatchUpdateRow, BatchUpdateQuery, columns_of, case_clause, add_when, whens, add_set, set_parts,
  key_values, key_places, finish, build_updates, build_batch_update,
}

module _ {V : Type 0} where
  -- The text takes the collected parameters, and the index behind it is the next free one.
  abbrev IsStep : Dialect → ℕ → Text × List V × ℕ → Type 0
  IsStep d i (s, args, next) = Takes d i (length args) s × StartsClear s × (next ≡ i + length args)

  add_when-IsStep :
      (d : Dialect) (i : ℕ) (key v : V) (w : Text × List V × ℕ)
      → IsStep d (i + 2) w
      → IsStep d i (add_when d i key v w)
  unfolding add_when
  add_when-IsStep d i key v (s, args, next) (h, c, e) =
      let n = length args in
      let two : i + 2 ≡ i + 1 + 1 = omega arith in
      let count : suc (suc n) ≡ 1 + (1 + n) = omega arith in
      let tail : Takes d (i + 1) (1 + n) (placeholder d (i + 1) ++ s) =
        Takes-append d (i + 1) 1 n (placeholder d (i + 1)) s (Takes-placeholder d (i + 1))
          (rw two at h) c in
      (
        rw count (
            Takes-after d i (1 + (1 + n)) (codes " WHEN ")
              (placeholder d i ++ (codes " THEN " ++ (placeholder d (i + 1) ++ s))) (refl, refl)
              (Takes-append d i 1 (1 + n) (placeholder d i)
                (codes " THEN " ++ (placeholder d (i + 1) ++ s)) (Takes-placeholder d i)
                (Takes-after d (i + 1) (1 + n) (codes " THEN ") (placeholder d (i + 1) ++ s)
                  (refl, refl) tail)
                (λ u k. refl))),
        λ u k. refl,
        omega arith,
      )

  whens-IsStep :
      (d : Dialect) (col : Text) (i : ℕ) (us : List (BatchUpdateRow V))
      → IsStep d i (whens d col i us)
  unfolding whens
  whens-IsStep d col i [] = (Takes-quiet d i [] (refl, refl), λ u k. k, omega arith)
  whens-IsStep d col i (u ∷ us) = elim (Option-cases (lookup col u.values)) [
    | inl e ↦ rw (e, whens) (whens-IsStep d col i us)
    | inr (v, e) ↦
        rw (e, whens)
          (add_when-IsStep d i u.key_value v (whens d col (i + 2) us)
            (whens-IsStep d col (i + 2) us))
  ]

case_clause-Takes :
    (d : Dialect) (i n : ℕ) (key col inner : Text)
    → IsQuiet key
    → IsQuiet col
    → Takes d i n inner
    → Takes d i n (case_clause d key col inner)
unfolding case_clause
case_clause-Takes d i n key col inner hk hc h =
    let qc = quote_identifier d col in
    let end_ = codes " ELSE " ++ (qc ++ codes " END") in
    let quiet_col = quote_identifier-IsQuiet d col hc in
    let quiet_end : IsQuiet end_ =
      append-IsQuiet (codes " ELSE ") (qc ++ codes " END") (refl, refl)
        (append-IsQuiet qc (codes " END") quiet_col (refl, refl)) in
    Takes-after d i n qc _ quiet_col (
      Takes-after d i n (codes " = CASE ") _ (refl, refl)
        (Takes-after d i n (quote_identifier d key) _ (quote_identifier-IsQuiet d key hk)
          (Takes-before d i n inner end_ h quiet_end (λ u k. refl))))

module _ {V : Type 0} where
  abbrev IsParts : Dialect → ℕ → List Text × List V × ℕ → Type 0
  IsParts d i (parts, args, next) = TakesAll d i (length args) parts × (next ≡ i + length args)

  add_set-IsParts :
      (d : Dialect) (i : ℕ) (key col : Text) (w : Text × List V × ℕ) (r : List Text × List V × ℕ)
      → IsQuiet key
      → IsQuiet col
      → IsStep d i w
      → IsParts d w.2 r
      → IsParts d i (add_set d key col w r)
  unfolding add_set
  add_set-IsParts d i key col (inner, args, m) (parts, rest, next) hk hc (h, c, e) (hs, es) =
      let sizes = length-append args rest in
      (
        (
          length args,
          length rest,
          sizes,
          case_clause-Takes d i (length args) key col inner hk hc h,
          rw (← e) hs,
        ),
        omega (arith, sizes, e, es),
      )

  set_parts-IsParts :
      (d : Dialect) (key : Text) (us : List (BatchUpdateRow V)) (i : ℕ) (cols : List Text)
      → IsQuiet key
      → All IsQuiet cols
      → IsParts d i (set_parts d key us i cols)
  unfolding set_parts
  set_parts-IsParts d key us i [] hk hc = (refl, omega arith)
  set_parts-IsParts d key us i (col ∷ cols) hk hc =
      let w = whens d col i us in
      add_set-IsParts d i key col w (set_parts d key us w.2 cols) hk hc.0 (whens-IsStep d col i us)
        (set_parts-IsParts d key us w.2 cols hk hc.1)

  key_places-TakesAll :
      (d : Dialect) (i : ℕ) (us : List (BatchUpdateRow V))
      → TakesAll d i (length (key_values us)) (key_places d i us)
  unfolding key_places key_values
  key_places-TakesAll d i [] = refl
  key_places-TakesAll d i (u ∷ us) =
      let next : i + 1 ≡ suc i = omega arith in
      (
        1,
        length (key_values us),
        omega arith,
        Takes-placeholder d i,
        rw next (key_places-TakesAll d (suc i) us),
      )

  finish-Takes :
      (d : Dialect) (q : BatchUpdateQuery V) (us : List (BatchUpdateRow V))
      (r : List Text × List V × ℕ)
      → IsQuiet q.table
      → IsQuiet q.key_column
      → IsParts d 1 r
      → Takes d 1 (length (finish d q us r).params) (finish d q us r).sql
  unfolding finish
  finish-Takes d q us (parts, args, next) ht hk (h, e) =
      let m = length args in
      let n = length (key_values us) in
      let places = join (codes ", ") (key_places d next us) in
      rw (length-append args (key_values us), e)
        (Takes-after d 1 (m + n) (codes "UPDATE ") _ (refl, refl)
          (Takes-after d 1 (m + n) (quote_identifier d q.table) _
            (quote_identifier-IsQuiet d q.table ht)
            (Takes-after d 1 (m + n) (codes " SET ") _ (refl, refl)
              (Takes-append d 1 m n (join (codes ", ") parts) _ (join-Takes d 1 m parts h)
                (Takes-after d (1 + m) n (codes " WHERE ") _ (refl, refl)
                  (Takes-after d (1 + m) n (quote_identifier d q.key_column) _
                    (quote_identifier-IsQuiet d q.key_column hk)
                    (Takes-after d (1 + m) n (codes " IN (") _ (refl, refl)
                      (Takes-before d (1 + m) n (join (codes ", ") (key_places d (1 + m) us))
                        (codes ")")
                        (join-Takes d (1 + m) n (key_places d (1 + m) us)
                          (key_places-TakesAll d (1 + m) us))
                        (refl, refl) (λ u k. refl)))))
                (λ u k. refl)))))

  build_updates-Takes :
      (d : Dialect) (q : BatchUpdateQuery V) (us : List (BatchUpdateRow V))
      → IsQuiet q.table
      → IsQuiet q.key_column
      → All IsQuiet (columns_of q.update_columns)
      → Takes d 1 (length (build_updates d q us).params) (build_updates d q us).sql
  unfolding build_updates
  build_updates-Takes d q [] ht hk hc = Takes-quiet d 1 [] (refl, refl)
  build_updates-Takes d q (u ∷ us) ht hk hc =
      let cols = columns_of q.update_columns in
      finish-Takes d q (u ∷ us) (set_parts d q.key_column (u ∷ us) 1 cols) ht hk
        (set_parts-IsParts d q.key_column (u ∷ us) 1 cols hk hc)

  -- The key and the value of each row that has the column, in the order of the rows.
  abbrev pub row_pairs : Text → List (BatchUpdateRow V) → List V
  row_pairs col [] = []
  row_pairs col (u ∷ us) = elim (lookup col u.values) [
    | none ↦ row_pairs col us
    | some v ↦ u.key_value ∷ v ∷ row_pairs col us
  ]

  -- Those of all columns, one after the other.
  abbrev pub set_pairs : List (BatchUpdateRow V) → List Text → List V
  set_pairs us [] = []
  set_pairs us (col ∷ cols) = row_pairs col us ++ set_pairs us cols

  whens-pairs :
      (d : Dialect) (col : Text) (i : ℕ) (us : List (BatchUpdateRow V))
      → (whens d col i us).1 ≡ row_pairs col us
  unfolding whens add_when
  whens-pairs d col i [] = refl
  whens-pairs d col i (u ∷ us) = elim (Option-cases (lookup col u.values)) [
    | inl e ↦ rw (whens, row_pairs, e) (whens-pairs d col i us)
    | inr (v, e) ↦
        rw (whens, row_pairs, e) (ap (λ r. u.key_value ∷ v ∷ r) (whens-pairs d col (i + 2) us))
  ]

  set_parts-pairs :
      (d : Dialect) (key : Text) (us : List (BatchUpdateRow V)) (i : ℕ) (cols : List Text)
      → (set_parts d key us i cols).1 ≡ set_pairs us cols
  unfolding set_parts add_set
  set_parts-pairs d key us i [] = refl
  set_parts-pairs d key us i (col ∷ cols) =
      let w = whens d col i us in
      rw (whens-pairs d col i us, set_parts-pairs d key us w.2 cols) refl

  key_values-map : (us : List (BatchUpdateRow V)) → key_values us ≡ map (λ u. u.key_value) us
  unfolding key_values
  key_values-map [] = refl
  key_values-map (u ∷ us) = ap (◌∷◌ u.key_value) (key_values-map us)

  -- What a batch UPDATE binds.
  abbrev pub batch_args : BatchUpdateQuery V → List V
  batch_args q =
      set_pairs q.updates (columns_of q.update_columns) ++ map (λ u. u.key_value) q.updates

  build_updates-built :
      (d : Dialect) (q : BatchUpdateQuery V) (us : List (BatchUpdateRow V))
      → us ≢ []
      → ((build_updates d q us).prep_err ≡ none)
        × ((build_updates d q us).params
            ≡ set_pairs us (columns_of q.update_columns) ++ map (λ u. u.key_value) us)
  unfolding build_updates finish
  build_updates-built d q [] ne = absurd (ne refl)
  build_updates-built d q (u ∷ us) ne = (
    refl,
    rw
        (
          set_parts-pairs d q.key_column (u ∷ us) 1 (columns_of q.update_columns),
          key_values-map (u ∷ us),
        )
        refl,
  )

  -- A batch UPDATE of some rows is built. Its parameters are, column by column, the key and the
  -- value of each row that has the column, and then the keys of all rows; and it takes exactly
  -- these, in order in every dialect, whichever rows lack which columns. The names hold neither `?`
  -- nor `$`.
  pub build_batch_update-Takes :
      (d : Dialect) (q : BatchUpdateQuery V)
      → q.updates ≢ []
      → IsQuiet q.table
      → IsQuiet q.key_column
      → All IsQuiet (columns_of q.update_columns)
      → Binds d (batch_args q) (build_batch_update d q)
  unfolding build_batch_update
  build_batch_update-Takes d q ne ht hk hc =
      let (good, same) = build_updates-built d q q.updates ne in
      binds good same (build_updates-Takes d q q.updates ht hk hc)
