-- ===== src/Model/Restricted.antt =====
-- `Update` and `Delete` of a model reach the rows of its primary key alone, and `Update` leaves the
-- key as it is.
use relica.Prelude.{
  ℕ, ◌+◌, ◌⊎◌, inl, inr, Option-cases, some, length, subst, ◌≡◌, ◌≢◌, refl, sym, ap, ◌∙◌, false,
  List, [], ◌∷◌, ◌++◌, if◌then◌else◌, none, map, arith, All, append_assoc, append-nil,
}
use relica.Prelude.Maps.{lookup, keys, sorted_keys}
use relica.Text.{Text, codes, join, is_empty}
use relica.Dialect.{Dialect, quote_identifier}
use relica.Exp.{exp, Dynamic}
use relica.Exp.Compare.{eq, build_compare}
use relica.Query.{Query, Conditions, where_view, no_conditions, where_clause, failed, no_values}
use relica.Query.Where.{where_of, where_clause-eq}
use relica.Query.Update.{UpdateQuery, set_clauses, new_values, build_update-built, sql-build_update}
use relica.Model.{Field, select, tagged_key, column_of, or_else, find_primary_keys}
use relica.Model.Statement.{Outcome, ok, fails, where_keys, update_of, no_table, update_keys}

is_empty-append : (a b : Text) → is_empty b ≡ false → is_empty (a ++ b) ≡ false
is_empty-append [] b h = h
is_empty-append (c ∷ a) b h = refl

module _ {V : Type 0} ⦃dyn : Dynamic V⦄ where
  -- The test `column = value`, or that for NULL.
  abbrev pub test : Dialect → Text × V → Text × List V
  test d (c, v) = build_compare (eq c v) d

  test_text : (d : Dialect) (c : Text) (v : V) → is_empty (build_compare (eq c v) d).0 ≡ false
  unfolding build_compare
  test_text d c v = grind (arith, is_empty-append)

  -- The parameters of the tests.
  abbrev pub test_args : Dialect → List (Text × V) → List V
  test_args d [] = []
  test_args d (k ∷ ks) = (test d k).1 ++ test_args d ks

  -- The conditions `c` with one test more for each key, in their order, and its parameters.
  pub record Restricts (d : Dialect) (ks : List (Text × V)) (c c' : Conditions V) : Type 0 where
    pub clauses : c'.clauses ≡ c.clauses ++ map (λ k. (test d k).0) ks
    pub args : c'.params ≡ c.params ++ test_args d ks
    pub error : c'.build_err ≡ c.build_err

  where_test :
      (d : Dialect) (k : Text) (v : V) (c : Conditions V)
      → where_view d (exp (build_compare (eq k v))) [] c ≡ record c {
        clauses = c.clauses ++ (test d (k, v)).0 ∷ [];
        params = c.params ++ (test d (k, v)).1;
      }
  unfolding where_view
  where_test d k v c = rw (test_text d k v) refl

  pub where_keys-Restricts :
      (d : Dialect) (ks : List (Text × V)) (c : Conditions V) → Restricts d ks c (where_keys d ks c)
  unfolding where_keys
  where_keys-Restricts d [] c = record {
    clauses = sym (append-nil c.clauses);
    args = sym (append-nil c.params);
    error = refl;
  }
  where_keys-Restricts d ((k, v) ∷ ks) c =
      let c' : Conditions V = record c {
        clauses = c.clauses ++ (test d (k, v)).0 ∷ [];
        params = c.params ++ (test d (k, v)).1;
      } in
      let r = where_keys-Restricts d ks c' in
      subst (Restricts d ((k, v) ∷ ks) c) (ap (where_keys d ks) (sym (where_test d k v c)))
        (record {
          clauses =
              r.clauses
              ∙ append_assoc c.clauses ((test d (k, v)).0 ∷ []) (map (λ k. (test d k).0) ks);
          args = r.args ∙ append_assoc c.params (test d (k, v)).1 (test_args d ks);
          error = r.error;
        })

  -- None of the columns has a value.
  abbrev pub AreMissing : List Text → List (Text × V) → Type 0
  AreMissing ks m = All (λ k. lookup k m ≡ none) ks

  pub not_fails :
      (t : Text) {o : Outcome (Query V)} {r : Query V}
      → (if is_empty t then fails no_table else o) ≡ ok r
      → o ≡ ok r
  not_fails [] h = cc
  not_fails (c ∷ t) h = h

  pub update_keys-ok :
      (d : Dialect) (t : Text) (ks values : List (Text × V)) (r : Query V)
      → update_keys d t ks values ≡ ok r
      → (ks ≢ []) × (r ≡ update_of d t ks values)
  unfolding update_keys
  update_keys-ok d t [] values r h = cc
  update_keys-ok d t (k ∷ ks) values r h = (λ z. cc, cc)

  -- The texts of the tests, and the WHERE clause that joins them, numbered from `n` on.
  abbrev pub key_tests : Dialect → List (Text × V) → List Text
  key_tests d ks = map (λ k. (test d k).0) ks

  abbrev pub where_tests : Dialect → ℕ → List (Text × V) → Text
  where_tests d n ks = where_of d n (key_tests d ks) (test_args d ks)

  key_tests≢[] : (d : Dialect) (ks : List (Text × V)) → ks ≢ [] → key_tests d ks ≢ []
  key_tests≢[] d [] ne e = ne refl
  key_tests≢[] d (k ∷ ks) ne e = cc

  where_clause-keys :
      (d : Dialect) (n : ℕ) (ks : List (Text × V))
      → ks ≢ []
      → where_clause d n (where_keys d ks no_conditions) ≡ where_tests d n ks
  where_clause-keys d n ks ne =
      let r = where_keys-Restricts d ks no_conditions in
      where_clause-eq d n (where_keys d ks no_conditions) r.clauses r.args (key_tests≢[] d ks ne)

  -- The DELETE of the rows with this key.
  pub record DeletesRow (d : Dialect) (table : Text) (ks : List (Text × V)) (r : Query V)
      : Type 0 where
    pub some_key : ks ≢ []
    pub succeeds : r.prep_err ≡ none
    pub text : r.sql ≡ codes "DELETE FROM " ++ (quote_identifier d table ++ where_tests d 1 ks)
    pub args : r.params ≡ test_args d ks

  -- The UPDATE of the rows with this key to these values.
  pub record UpdatesRow (d : Dialect) (table : Text) (ks values : List (Text × V)) (r : Query V)
      : Type 0 where
    pub some_key : ks ≢ []
    pub some_value : values ≢ []
    pub succeeds : r.prep_err ≡ none
    pub text :
        r.sql
        ≡ codes "UPDATE "
          ++ (quote_identifier d table
              ++ (codes " SET "
                  ++ (join (codes ", ") (set_clauses d 1 (sorted_keys values))
                      ++ where_tests d (length (sorted_keys values) + 1) ks)))
    pub args : r.params ≡ new_values values ++ test_args d ks

  pub update-UpdatesRow :
      (d : Dialect) (t : Text) (ks values : List (Text × V))
      → ks ≢ []
      → values ≢ []
      → UpdatesRow d t ks values (update_of d t ks values)
  update-UpdatesRow d t ks values ne nv =
      let c = where_keys-Restricts d ks no_conditions in
      let q : UpdateQuery V = record {
        table = t;
        values = values;
        conditions = where_keys d ks no_conditions;
      } in
      let (good, same) = build_update-built d q c.error nv in
      record {
        some_key = ne;
        some_value = nv;
        succeeds = good;
        text =
            sql-build_update d q c.error nv
            ∙ ap
                (λ w.
                  codes "UPDATE "
                  ++ (quote_identifier d t
                      ++ (codes " SET "
                          ++ (join (codes ", ") (set_clauses d 1 (sorted_keys values)) ++ w))))
                (where_clause-keys d (length (sorted_keys values) + 1) ks ne);
        args = same ∙ ap (λ xs. new_values values ++ xs) c.args;
      }

  -- What becomes of these values: the UPDATE of the row, or an error if there are none.
  abbrev pub IsUpdate : Dialect → Text → List (Text × V) → List (Text × V) → Query V → Type 0
  IsUpdate d t ks values r = ((values ≡ []) × (r ≡ failed no_values)) ⊎ UpdatesRow d t ks values r

  -- A field that is no key by its tag, or whose column is not among the values.
  abbrev pub IsKeptOut : List (Text × V) → Field V → Type 0
  IsKeptOut values f =
      (tagged_key f ≡ none) ⊎ ((c : Text) × (column_of f ≡ some c) × (lookup c values ≡ none))

  tagged_key-column :
      (f : Field V) (c : Text) (v : V) → tagged_key f ≡ some (c, v) → column_of f ≡ some c
  unfolding tagged_key column_of
  tagged_key-column f c v h = ground arith

  tagged-IsKeptOut :
      (values : List (Text × V)) (fs : List (Field V))
      → AreMissing (keys (select tagged_key fs)) values
      → All (IsKeptOut values) fs
  tagged-IsKeptOut values [] h = tt
  tagged-IsKeptOut values (f ∷ fs) h = elim (Option-cases (tagged_key f)) [
    | inl e ↦ (inl e, tagged-IsKeptOut values fs (rw (keys, select, e) at h))
    | inr ((c, v), e) ↦
        let k : AreMissing (c ∷ keys (select tagged_key fs)) values = rw (keys, select, e) at h in
        (inr (c, tagged_key-column f c v e, k.0), tagged-IsKeptOut values fs k.1)
  ]

  or_else-some : (ks ls : List (Text × V)) → ks ≢ [] → or_else ks ls ≡ ks
  or_else-some [] ls ne = absurd (ne refl)
  or_else-some (k ∷ ks) ls ne = refl

  keys_by_tag :
      (fs : List (Field V))
      → select tagged_key fs ≢ []
      → find_primary_keys fs ≡ select tagged_key fs
  unfolding find_primary_keys
  keys_by_tag fs ne = or_else-some _ _ ne

  pub kept_by_tag :
      (values : List (Text × V)) (fs : List (Field V))
      → select tagged_key fs ≢ []
      → AreMissing (keys (find_primary_keys fs)) values
      → All (IsKeptOut values) fs
  kept_by_tag values fs ne h =
      tagged-IsKeptOut values fs (subst (λ ks. AreMissing (keys ks) values) (keys_by_tag fs ne) h)
