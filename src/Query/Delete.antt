-- ===== src/Query/Delete.antt =====
-- `DeleteQuery` of internal/core/builder.go.
use relica.Prelude.{◌≡◌, ap, refl, List, [], ◌++◌, length, Option, none, some}
use relica.Text.{Text, codes}
use relica.Dialect.{Dialect, quote_identifier}
use relica.Exp.{Dynamic}
use relica.Query.{
  BuildError, Query, failed, built, Conditions, no_conditions, add_where, or_where, where_clause,
}
use relica.Query.Where.{IsSound, where_clause-Takes}
use relica.Query.Binds.{Binds, binds}
use relica.Query.Takes.{Takes, Takes-after, Takes-quiet, IsQuiet, quote_identifier-IsQuiet}

pub record DeleteQuery (V : Type 0) : Type 0 where
  pub table : Text
  pub conditions : Conditions V

-- `Delete(table)`.
abbrev pub delete : {V : Type 0} → Text → DeleteQuery V
delete table = record { table = table; conditions = no_conditions }

module _ {V : Type 0} ⦃dyn : Dynamic V⦄ where
  -- `Where`, and `AndWhere`, which is `Where`.
  pub where_delete : Dialect → V → List V → DeleteQuery V → DeleteQuery V
  where_delete d condition args q = record q {
    conditions = add_where d condition args q.conditions;
  }

  pub or_where_delete : Dialect → V → List V → DeleteQuery V → DeleteQuery V
  or_where_delete d condition args q = record q {
    conditions = or_where d condition args q.conditions;
  }

module _ {V : Type 0} where
  delete_unless : Option BuildError → Dialect → DeleteQuery V → Query V
  delete_unless (some e) d q = failed e
  delete_unless none d q =
      built (codes "DELETE FROM " ++ (quote_identifier d q.table ++ where_clause d 1 q.conditions))
        q.conditions.params

  -- `Build`: a stored error, or the statement.
  unfoldable pub build_delete : Dialect → DeleteQuery V → Query V
  unfolding delete_unless
  build_delete d q = delete_unless q.conditions.build_err d q

  delete_unless-Takes :
      (err : Option BuildError) (d : Dialect) (q : DeleteQuery V)
      → IsQuiet q.table
      → IsSound q.conditions
      → Takes d 1 (length (delete_unless err d q).params) (delete_unless err d q).sql
  unfolding delete_unless
  delete_unless-Takes (some e) d q ht s = Takes-quiet d 1 [] (refl, refl)
  delete_unless-Takes none d q ht s =
      let n = length q.conditions.params in
      Takes-after d 1 n (codes "DELETE FROM ")
        (quote_identifier d q.table ++ where_clause d 1 q.conditions) (refl, refl)
        (Takes-after d 1 n (quote_identifier d q.table) (where_clause d 1 q.conditions)
          (quote_identifier-IsQuiet d q.table ht) (where_clause-Takes d 1 q.conditions s))

  pub build_delete-built :
      (d : Dialect) (q : DeleteQuery V)
      → q.conditions.build_err ≡ none
      → build_delete d q
        ≡ built
            (codes "DELETE FROM " ++ (quote_identifier d q.table ++ where_clause d 1 q.conditions))
            q.conditions.params
  unfolding build_delete delete_unless
  build_delete-built d q e = rw e refl

  -- The statement for these conditions: its text has their WHERE clause, and binds their parameters.
  pub record Deletes (d : Dialect) (q : DeleteQuery V) (r : Query V) : Type 0 where
    pub text :
        r.sql
        ≡ codes "DELETE FROM " ++ (quote_identifier d q.table ++ where_clause d 1 q.conditions)
    pub statement : Binds d q.conditions.params r

  -- A DELETE without a stored error is built, with the WHERE clause of its conditions. Its
  -- parameters are those of the conditions, and it takes exactly these, in order, in every dialect.
  -- The conditions are sound, and the table's name holds neither `?` nor `$`.
  pub build_delete-Takes :
      (d : Dialect) (q : DeleteQuery V)
      → q.conditions.build_err ≡ none
      → IsQuiet q.table
      → IsSound q.conditions
      → Deletes d q (build_delete d q)
  unfolding build_delete
  build_delete-Takes d q e ht s =
      let same = build_delete-built d q e in
      record {
        text = ap (λ r. r.sql) same;
        statement =
            binds (ap (λ r. r.prep_err) same) (ap (λ r. r.params) same)
              (delete_unless-Takes q.conditions.build_err d q ht s);
      }
