-- ===== src/Query/Insert.antt =====
-- `Insert` of internal/core/builder.go, and the INSERT statement that `UpsertQuery` begins with.
use relica.Prelude.{ℕ, suc, ◌+◌, ◌≡◌, refl, ap, List, [], ◌∷◌, ◌++◌, arith, length, All}
use relica.Prelude.Maps.{lookup_or, sorted_keys, SameMap, sorted_keys-eq, lookup_or-eq}
use relica.Text.{Text, codes, join}
use relica.Dialect.{Dialect, placeholder, quote_identifier}
use relica.Exp.{Dynamic}
use relica.Query.{Query, failed, built, no_values}
use relica.Query.Takes.{
  Takes, TakesAll, join-Takes, Takes-after, Takes-before, Takes-placeholder, IsQuiet,
  quote_identifier-IsQuiet, append-IsQuiet,
}

-- One placeholder for each of the keys, from an index on.
unfoldable pub placeholders : Dialect → ℕ → List Text → List Text
placeholders d i [] = []
placeholders d i (k ∷ ks) = placeholder d i ∷ placeholders d (suc i) ks

abbrev pub quoted : Dialect → List Text → List Text
quoted d [] = []
quoted d (k ∷ ks) = quote_identifier d k ∷ quoted d ks

unfoldable pub insert_into : Dialect → Text → List Text → Text
unfolding placeholders
insert_into d table ks =
    codes "INSERT INTO "
    ++ (quote_identifier d table
        ++ (codes " ("
            ++ (join (codes ", ") (quoted d ks)
                ++ (codes ") VALUES (" ++ (join (codes ", ") (placeholders d 1 ks) ++ codes ")")))))

module _ {V : Type 0} ⦃dyn : Dynamic V⦄ where
  -- `values[col]` for each of the sorted keys.
  abbrev pub values_of : List (Text × V) → List Text → List V
  values_of m [] = []
  values_of m (k ∷ ks) = lookup_or dyn.null k m ∷ values_of m ks

  unfoldable pub insert : Dialect → Text → List (Text × V) → Query V
  insert d table [] = failed no_values
  insert d table (e ∷ m) =
      built (insert_into d table (sorted_keys (e ∷ m))) (values_of (e ∷ m) (sorted_keys (e ∷ m)))

  values_of-eq :
      {m n : List (Text × V)} (ks : List Text) → SameMap m n → values_of m ks ≡ values_of n ks
  values_of-eq [] s = refl
  values_of-eq (k ∷ ks) s = rw (lookup_or-eq dyn.null k s, values_of-eq ks s)

  pub length-values_of :
      (m : List (Text × V)) (ks : List Text) → length (values_of m ks) ≡ length ks
  length-values_of m [] = refl
  length-values_of m (k ∷ ks) = ap suc (length-values_of m ks)

  -- The statement depends on the map and not on the order in which Go ranges over it.
  pub insert_deterministic :
      (d : Dialect) (table : Text) (e f : Text × V) (m n : List (Text × V))
      → SameMap (e ∷ m) (f ∷ n)
      → insert d table (e ∷ m) ≡ insert d table (f ∷ n)
  unfolding insert
  insert_deterministic d table e f m n s =
      rw (sorted_keys-eq s, values_of-eq (sorted_keys (f ∷ n)) s)

pub placeholders-TakesAll :
    (d : Dialect) (i : ℕ) (ks : List Text) → TakesAll d i (length ks) (placeholders d i ks)
unfolding placeholders
placeholders-TakesAll d i [] = refl
placeholders-TakesAll d i (k ∷ ks) =
    let next : i + 1 ≡ suc i = omega arith in
    (1, length ks, omega arith, Takes-placeholder d i, rw next (placeholders-TakesAll d (suc i) ks))

pub quoted-IsQuiet :
    (d : Dialect) (ks : List Text) → All IsQuiet ks → IsQuiet (join (codes ", ") (quoted d ks))
quoted-IsQuiet d [] h = (refl, refl)
quoted-IsQuiet d (k ∷ []) h = quote_identifier-IsQuiet d k h.0
quoted-IsQuiet d (k ∷ j ∷ ks) h =
    append-IsQuiet (quote_identifier d k) (codes ", " ++ join (codes ", ") (quoted d (j ∷ ks)))
      (quote_identifier-IsQuiet d k h.0)
      (append-IsQuiet (codes ", ") (join (codes ", ") (quoted d (j ∷ ks))) (refl, refl)
        (quoted-IsQuiet d (j ∷ ks) h.1))

pub insert_into-Takes :
    (d : Dialect) (table : Text) (ks : List Text)
    → IsQuiet table
    → All IsQuiet ks
    → Takes d 1 (length ks) (insert_into d table ks)
unfolding insert_into
insert_into-Takes d table ks ht hk =
    Takes-after d 1 n (codes "INSERT INTO ") _ (refl, refl)
      (Takes-after d 1 n (quote_identifier d table) _ (quote_identifier-IsQuiet d table ht) (
        Takes-after d 1 n (codes " (") _ (refl, refl)
          (Takes-after d 1 n (join (codes ", ") (quoted d ks)) _ (quoted-IsQuiet d ks hk) (
            Takes-after d 1 n (codes ") VALUES (") _ (refl, refl)
              (Takes-before d 1 n (join (codes ", ") (placeholders d 1 ks)) (codes ")")
                (join-Takes d 1 n (placeholders d 1 ks) (placeholders-TakesAll d 1 ks)) (refl, refl)
                (λ u c. refl))))))
  where
    n : ℕ
    n = length ks

module _ {V : Type 0} ⦃dyn : Dynamic V⦄ where
  -- An INSERT takes exactly its parameters: for PostgreSQL the placeholders stand for parameters
  -- 1, 2, … in order and no `?` is left, for the other dialects there is one `?` for each. The
  -- table and the columns hold neither `?` nor `$`.
  pub insert-Takes :
      (d : Dialect) (table : Text) (e : Text × V) (m : List (Text × V))
      → IsQuiet table
      → All IsQuiet (sorted_keys (e ∷ m))
      → Takes d 1 (length (insert d table (e ∷ m)).params) (insert d table (e ∷ m)).sql
  unfolding insert
  insert-Takes d table e m ht hk =
      rw (length-values_of (e ∷ m) (sorted_keys (e ∷ m)))
        (insert_into-Takes d table (sorted_keys (e ∷ m)) ht hk)
