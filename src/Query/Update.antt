-- ===== src/Query/Update.antt =====
-- `UpdateQuery` of internal/core/builder.go.
use relica.Prelude.{
  ℕ, suc, ◌+◌, ◌≡◌, ◌≢◌, refl, ap, map, ◌∙◌, List, [], ◌∷◌, ◌++◌, arith, length, length-append, All,
  Option, none, some,
}
use relica.Prelude.Maps.{sorted_keys, lookup_or}
use relica.Text.{Text, codes, join}
use relica.Dialect.{Dialect, placeholder, quote_identifier}
use relica.Exp.{Dynamic}
use relica.Query.{
  BuildError, Query, failed, built, no_values, Conditions, no_conditions, add_where, or_where,
  where_clause,
}
use relica.Query.Where.{IsSound, where_clause-Takes, where_clause-StartsClear}
use relica.Query.Insert.{values_of, length-values_of}
use relica.Query.Binds.{Binds, binds}
use relica.Query.Takes.{
  Takes, TakesAll, join-Takes, Takes-after, Takes-append, Takes-placeholder, Takes-quiet, IsQuiet,
  quote_identifier-IsQuiet,
}

pub record UpdateQuery (V : Type 0) : Type 0 where
  pub table : Text
  pub values : List (Text × V)
  pub conditions : Conditions V

-- `Update(table)`.
abbrev pub update : {V : Type 0} → Text → UpdateQuery V
update table = record { table = table; values = []; conditions = no_conditions }

-- One `col = placeholder` for each of the sorted keys.
pub set_clauses : Dialect → ℕ → List Text → List Text
set_clauses d i [] = []
set_clauses d i (k ∷ ks) =
    (quote_identifier d k ++ (codes " = " ++ placeholder d i)) ∷ set_clauses d (suc i) ks

module _ {V : Type 0} where
  -- `Set`.
  pub set_values : List (Text × V) → UpdateQuery V → UpdateQuery V
  set_values m q = record q { values = m }

  update_sql : Dialect → UpdateQuery V → List Text → Text
  unfolding set_clauses
  update_sql d q ks =
      codes "UPDATE "
      ++ (quote_identifier d q.table
          ++ (codes " SET "
              ++ (join (codes ", ") (set_clauses d 1 ks)
                  ++ where_clause d (length ks + 1) q.conditions)))

module _ {V : Type 0} ⦃dyn : Dynamic V⦄ where
  -- `Where`, and `AndWhere`, which is `Where`.
  pub where_update : Dialect → V → List V → UpdateQuery V → UpdateQuery V
  where_update d condition args q = record q {
    conditions = add_where d condition args q.conditions;
  }

  pub or_where_update : Dialect → V → List V → UpdateQuery V → UpdateQuery V
  or_where_update d condition args q = record q {
    conditions = or_where d condition args q.conditions;
  }

  build_values : Dialect → UpdateQuery V → List (Text × V) → Query V
  unfolding update_sql
  build_values d q [] = failed no_values
  build_values d q (e ∷ m) =
      built (update_sql d q (sorted_keys (e ∷ m)))
        (values_of (e ∷ m) (sorted_keys (e ∷ m)) ++ q.conditions.params)

  build_unless : Option BuildError → Dialect → UpdateQuery V → Query V
  unfolding build_values
  build_unless (some e) d q = failed e
  build_unless none d q = build_values d q q.values

  -- `Build`: a stored error, no values, or the statement.
  unfoldable pub build_update : Dialect → UpdateQuery V → Query V
  unfolding build_unless
  build_update d q = build_unless q.conditions.build_err d q

set_clauses-TakesAll :
    (d : Dialect) (i : ℕ) (ks : List Text)
    → All IsQuiet ks
    → TakesAll d i (length ks) (set_clauses d i ks)
unfolding set_clauses
set_clauses-TakesAll d i [] h = refl
set_clauses-TakesAll d i (k ∷ ks) h =
    let next : i + 1 ≡ suc i = omega arith in
    (
      1,
      length ks,
      omega arith,
      Takes-after d i 1 (quote_identifier d k) (codes " = " ++ placeholder d i)
          (quote_identifier-IsQuiet d k h.0)
          (Takes-after d i 1 (codes " = ") (placeholder d i) (refl, refl) (Takes-placeholder d i)),
      rw next (set_clauses-TakesAll d (suc i) ks h.1),
    )

module _ {V : Type 0} where
  update_sql-Takes :
      (d : Dialect) (q : UpdateQuery V) (ks : List Text)
      → IsQuiet q.table
      → All IsQuiet ks
      → IsSound q.conditions
      → Takes d 1 (length ks + length q.conditions.params) (update_sql d q ks)
  unfolding update_sql
  update_sql-Takes d q ks ht hk s =
      let n = length ks + length q.conditions.params in
      let order : length ks + 1 ≡ 1 + length ks = omega arith in
      Takes-after d 1 n (codes "UPDATE ") _ (refl, refl)
        (Takes-after d 1 n (quote_identifier d q.table) _ (quote_identifier-IsQuiet d q.table ht) (
          Takes-after d 1 n (codes " SET ") _ (refl, refl)
            (rw order (
              Takes-append d 1 (length ks) (length q.conditions.params)
                (join (codes ", ") (set_clauses d 1 ks)) _
                (join-Takes d 1 (length ks) (set_clauses d 1 ks) (set_clauses-TakesAll d 1 ks hk))
                (where_clause-Takes d (1 + length ks) q.conditions s)
                (where_clause-StartsClear d (1 + length ks) q.conditions)))))

module _ {V : Type 0} ⦃dyn : Dynamic V⦄ where
  build_values-Takes :
      (d : Dialect) (q : UpdateQuery V) (m : List (Text × V))
      → IsQuiet q.table
      → All IsQuiet (sorted_keys m)
      → IsSound q.conditions
      → Takes d 1 (length (build_values d q m).params) (build_values d q m).sql
  unfolding build_values
  build_values-Takes d q [] ht hk s = Takes-quiet d 1 [] (refl, refl)
  build_values-Takes d q (e ∷ m) ht hk s =
      let ks = sorted_keys (e ∷ m) in
      rw (length-append (values_of (e ∷ m) ks) q.conditions.params, length-values_of (e ∷ m) ks)
        (update_sql-Takes d q ks ht hk s)

  build_unless-Takes :
      (err : Option BuildError) (d : Dialect) (q : UpdateQuery V)
      → IsQuiet q.table
      → All IsQuiet (sorted_keys q.values)
      → IsSound q.conditions
      → Takes d 1 (length (build_unless err d q).params) (build_unless err d q).sql
  unfolding build_unless
  build_unless-Takes none d q ht hk s = build_values-Takes d q q.values ht hk s
  build_unless-Takes (some e) d q ht hk s = Takes-quiet d 1 [] (refl, refl)

  -- The new values, in the order of the sorted column names.
  abbrev pub new_values : List (Text × V) → List V
  new_values m = map (λ k. lookup_or dyn.null k m) (sorted_keys m)

  values_of-map :
      (m : List (Text × V)) (ks : List Text) → values_of m ks ≡ map (λ k. lookup_or dyn.null k m) ks
  values_of-map m [] = refl
  values_of-map m (k ∷ ks) = ap (◌∷◌ (lookup_or dyn.null k m)) (values_of-map m ks)

  pub build_update-built :
      (d : Dialect) (q : UpdateQuery V)
      → q.conditions.build_err ≡ none
      → q.values ≢ []
      → ((build_update d q).prep_err ≡ none)
        × ((build_update d q).params ≡ new_values q.values ++ q.conditions.params)
  unfolding build_update build_unless build_values where_clause
  build_update-built d q e h = rw e (go q.values h)
    where
      go :
          (m : List (Text × V))
          → m ≢ []
          → ((build_values d q m).prep_err ≡ none)
            × ((build_values d q m).params ≡ new_values m ++ q.conditions.params)
      go [] ne = absurd (ne refl)
      go (x ∷ m) ne = (refl, rw (values_of-map (x ∷ m) (sorted_keys (x ∷ m))) refl)

  pub sql-build_update :
      (d : Dialect) (q : UpdateQuery V)
      → q.conditions.build_err ≡ none
      → q.values ≢ []
      → (build_update d q).sql
        ≡ codes "UPDATE "
          ++ (quote_identifier d q.table
              ++ (codes " SET "
                  ++ (join (codes ", ") (set_clauses d 1 (sorted_keys q.values))
                      ++ where_clause d (length (sorted_keys q.values) + 1) q.conditions)))
  unfolding build_update build_unless build_values update_sql where_clause
  sql-build_update d q e h = rw e (go q.values h)
    where
      go :
          (m : List (Text × V)) → m ≢ [] → (build_values d q m).sql ≡ update_sql d q (sorted_keys m)
      go [] ne = absurd (ne refl)
      go (x ∷ m) ne = refl

  -- Without values there is no statement, but an error.
  pub build_update-no_values :
      (d : Dialect) (q : UpdateQuery V)
      → q.conditions.build_err ≡ none
      → q.values ≡ []
      → build_update d q ≡ failed no_values
  unfolding build_update build_unless build_values
  build_update-no_values d q e h = ap (λ b. build_unless b d q) e ∙ ap (build_values d q) h

  -- The statement that sets these values under these conditions: column by column in the sorted
  -- order, each to the placeholder of its value, and then WHERE.
  pub record Updates (d : Dialect) (q : UpdateQuery V) (r : Query V) : Type 0 where
    pub text :
        r.sql
        ≡ codes "UPDATE "
          ++ (quote_identifier d q.table
              ++ (codes " SET "
                  ++ (join (codes ", ") (set_clauses d 1 (sorted_keys q.values))
                      ++ where_clause d (length (sorted_keys q.values) + 1) q.conditions)))
    pub statement : Binds d (new_values q.values ++ q.conditions.params) r

  -- An UPDATE with values and without a stored error is built: it assigns to each column, in sorted
  -- order, a placeholder, and has the WHERE clause of its conditions. Its parameters are the new
  -- values, in the order of the columns, and then the parameters of its conditions; and it takes
  -- exactly these: for PostgreSQL the placeholders stand for parameters 1, 2, … in order through SET
  -- and WHERE and no `?` is left, for the other dialects there is one `?` for each. The conditions
  -- are sound, and the names hold neither `?` nor `$`.
  pub build_update-Takes :
      (d : Dialect) (q : UpdateQuery V)
      → q.conditions.build_err ≡ none
      → q.values ≢ []
      → IsQuiet q.table
      → All IsQuiet (sorted_keys q.values)
      → IsSound q.conditions
      → Updates d q (build_update d q)
  unfolding build_update
  build_update-Takes d q e ne ht hk s =
      let (good, same) = build_update-built d q e ne in
      record {
        text = sql-build_update d q e ne;
        statement = binds good same (build_unless-Takes q.conditions.build_err d q ht hk s);
      }
