-- ===== src/Query/Upsert/Binding.antt =====
-- The parameters of an upsert.
use relica.Prelude.{
  refl, not, List, [], ◌∷◌, ◌++◌, if◌then◌else◌, ◌||◌, length, map, All, none, some, Bool-cases,
  inl, inr, if_elim,
}
use relica.Prelude.Maps.{sorted_keys}
use relica.Text.{Text, codes, join}
use relica.Dialect.{Dialect, postgres, mysql, sqlite, upsert_sql}
use relica.Exp.{Dynamic}
use relica.Query.Insert.{quoted, insert_into, insert_into-Takes, length-values_of}
use relica.Query.Takes.{
  Takes, Takes-before, IsQuiet, StartsClear, append-IsQuiet, quote_identifier-IsQuiet,
}
use relica.Query.Upsert.{
  UpsertQuery, is_nil, filter_keys, columns_to_update, conflict_clause, build_upsert, mem_text,
}

join-IsQuiet : (ps : List Text) → All IsQuiet ps → IsQuiet (join (codes ", ") ps)
join-IsQuiet [] h = (refl, refl)
join-IsQuiet (p ∷ []) h = h.0
join-IsQuiet (p ∷ q ∷ ps) h = append-IsQuiet p (codes ", " ++ join (codes ", ") (q ∷ ps)) h.0 (
    append-IsQuiet (codes ", ") (join (codes ", ") (q ∷ ps)) (refl, refl)
      (join-IsQuiet (q ∷ ps) h.1))

map-IsQuiet :
    (f : Text → Text) (cols : List Text)
    → ((col : Text) → IsQuiet col → IsQuiet (f col))
    → All IsQuiet cols
    → All IsQuiet (map f cols)
map-IsQuiet f [] k h = tt
map-IsQuiet f (c ∷ cs) k h = (k c h.0, map-IsQuiet f cs k h.1)

quoted-All : (d : Dialect) (cols : List Text) → All IsQuiet cols → All IsQuiet (quoted d cols)
quoted-All d [] h = tt
quoted-All d (c ∷ cs) h = (quote_identifier-IsQuiet d c h.0, quoted-All d cs h.1)

filter_keys-All : (ks exclude : List Text) → All IsQuiet ks → All IsQuiet (filter_keys ks exclude)
unfolding filter_keys
filter_keys-All [] exclude h = tt
filter_keys-All (k ∷ ks) exclude h = elim (Bool-cases (mem_text k exclude)) [
  | inl e ↦ rw (e, All) (filter_keys-All ks exclude h.1)
  | inr e ↦ rw (e, All) (h.0, filter_keys-All ks exclude h.1)
]

-- A text between two quiet ones.
around : (a t b : Text) → IsQuiet a → IsQuiet t → IsQuiet b → IsQuiet (a ++ (t ++ b))
around a t b ha ht hb = append-IsQuiet a (t ++ b) ha (append-IsQuiet t b ht hb)

-- The conflict clause: quiet, and with a space in front.
abbrev IsTail : Text → Type 0
IsTail s = IsQuiet s × StartsClear s

do_nothing-IsTail :
    (d : Dialect) (table : Text) (conflict : List Text)
    → All IsQuiet conflict
    → IsTail (upsert_sql d table conflict none)
unfolding upsert_sql
do_nothing-IsTail mysql table conflict h = ((refl, refl), λ u c. c)
do_nothing-IsTail postgres table [] h = ((refl, refl), λ u c. refl)
do_nothing-IsTail sqlite table [] h = ((refl, refl), λ u c. refl)
do_nothing-IsTail postgres table (k ∷ ks) h = (
  around (codes " ON CONFLICT (") (join (codes ", ") (k ∷ ks)) (codes ") DO NOTHING") (refl, refl)
      (join-IsQuiet (k ∷ ks) h) (refl, refl),
  λ u c. refl,
)
do_nothing-IsTail sqlite table (k ∷ ks) h = (
  around (codes " ON CONFLICT (") (join (codes ", ") (k ∷ ks)) (codes ") DO NOTHING") (refl, refl)
      (join-IsQuiet (k ∷ ks) h) (refl, refl),
  λ u c. refl,
)

-- `col = PREFIX.col` for each column.
assign : Text → List Text → Text
assign word cols = join (codes ", ") (map (λ c. c ++ (word ++ c)) cols)

assign-IsQuiet :
    (word : Text) (cols : List Text) → IsQuiet word → All IsQuiet cols → IsQuiet (assign word cols)
unfolding assign
assign-IsQuiet word cols hw h =
    join-IsQuiet (map (λ c. c ++ (word ++ c)) cols)
      (map-IsQuiet (λ c. c ++ (word ++ c)) cols (λ c q. around c word c q hw q) h)

-- `col = VALUES(col)` for each column.
assign_values : List Text → Text
assign_values cols =
    join (codes ", ") (map (λ c. c ++ (codes " = VALUES(" ++ (c ++ codes ")"))) cols)

assign_values-IsQuiet : (cols : List Text) → All IsQuiet cols → IsQuiet (assign_values cols)
unfolding assign_values
assign_values-IsQuiet cols h = join-IsQuiet (map f cols) (map-IsQuiet f cols each h)
  where
    f : Text → Text
    f c = c ++ (codes " = VALUES(" ++ (c ++ codes ")"))

    each : (c : Text) → IsQuiet c → IsQuiet (f c)
    each c q =
        append-IsQuiet c (codes " = VALUES(" ++ (c ++ codes ")")) q
          (around (codes " = VALUES(") c (codes ")") (refl, refl) q (refl, refl))

conflict-IsTail :
    (conflict cols : List Text) (word : Text)
    → IsQuiet word
    → All IsQuiet conflict
    → All IsQuiet cols
    → IsTail (
        codes " ON CONFLICT ("
        ++ (join (codes ", ") conflict ++ (codes ") DO UPDATE SET " ++ assign word cols)))
conflict-IsTail conflict cols word hw h k = (
  around (codes " ON CONFLICT (") (join (codes ", ") conflict)
      (codes ") DO UPDATE SET " ++ assign word cols) (refl, refl) (join-IsQuiet conflict h)
      (append-IsQuiet (codes ") DO UPDATE SET ") (assign word cols) (refl, refl)
        (assign-IsQuiet word cols hw k)),
  λ u c. refl,
)

do_update-IsTail :
    (d : Dialect) (table : Text) (conflict cols : List Text)
    → All IsQuiet conflict
    → All IsQuiet cols
    → IsTail (upsert_sql d table conflict (some cols))
unfolding upsert_sql assign assign_values
do_update-IsTail mysql table conflict cols h k = (
  append-IsQuiet (codes " ON DUPLICATE KEY UPDATE ") (assign_values cols) (refl, refl)
      (assign_values-IsQuiet cols k),
  λ u c. refl,
)
do_update-IsTail postgres table conflict cols h k =
    conflict-IsTail conflict cols (codes " = EXCLUDED.") (refl, refl) h k
do_update-IsTail sqlite table conflict cols h k =
    conflict-IsTail conflict cols (codes " = excluded.") (refl, refl) h k

columns_to_update-All :
    {V : Type 0} (q : UpsertQuery V) (ks : List Text)
    → All IsQuiet q.update_columns
    → All IsQuiet ks
    → All IsQuiet (columns_to_update q ks)
unfolding columns_to_update
columns_to_update-All q ks hu hk =
    if_elim (All IsQuiet) (is_nil q.update_columns) (filter_keys ks q.conflict_columns)
      q.update_columns (filter_keys-All ks q.conflict_columns hk) hu

conflict_clause-IsTail :
    {V : Type 0} (d : Dialect) (q : UpsertQuery V) (ks : List Text)
    → All IsQuiet q.conflict_columns
    → All IsQuiet q.update_columns
    → All IsQuiet ks
    → IsTail (conflict_clause d q ks)
unfolding conflict_clause
conflict_clause-IsTail d q ks hc hu hk =
    let cols = columns_to_update q ks in
    let named = not (is_nil q.conflict_columns) || not (is_nil q.update_columns) in
    let updates = upsert_sql d q.table (quoted d q.conflict_columns) (some (quoted d cols)) in
    if_elim IsTail q.nothing (upsert_sql d q.table (quoted d q.conflict_columns) none)
      (if named then updates else [])
      (do_nothing-IsTail d q.table (quoted d q.conflict_columns)
        (quoted-All d q.conflict_columns hc))
      (if_elim IsTail named updates []
        (do_update-IsTail d q.table (quoted d q.conflict_columns) (quoted d cols)
          (quoted-All d q.conflict_columns hc)
          (quoted-All d cols (columns_to_update-All q ks hu hk)))
        ((refl, refl), λ u c. c))

-- An upsert takes exactly the parameters of its INSERT, in order, in every dialect: its conflict
-- clause has none. The table and the columns hold neither `?` nor `$`.
pub build_upsert-Takes :
    {V : Type 0} ⦃dyn : Dynamic V⦄ (d : Dialect) (q : UpsertQuery V)
    → IsQuiet q.table
    → All IsQuiet (sorted_keys q.values)
    → All IsQuiet q.conflict_columns
    → All IsQuiet q.update_columns
    → Takes d 1 (length (build_upsert d q).params) (build_upsert d q).sql
unfolding build_upsert
build_upsert-Takes d q ht hk hc hu =
    let ks = sorted_keys q.values in
    let (quiet, starts) = conflict_clause-IsTail d q ks hc hu hk in
    rw (length-values_of q.values ks) (
      Takes-before d 1 (length ks) (insert_into d q.table ks) (conflict_clause d q ks)
        (insert_into-Takes d q.table ks ht hk) quiet starts)
