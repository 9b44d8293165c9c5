-- ===== src/Db/Answers.antt =====
-- What `One`, `Row`, `Column` and `All` answer.
use relica.Prelude.{
  ◌⊎◌, ap, subst, Bool-cases, Option-cases, false, ℕ, ◌≡◌, refl, if◌then◌else◌, true, List, [], ◌∷◌,
  ◌++◌, Option, none, some, arith, inl, inr, append_assoc, append-nil, sym, ◌∙◌,
}
use relica.Prelude.Maps.{text_eq, text_eq→≡, text_eq_refl}
use relica.Text.{Text}
use relica.Exp.{Dynamic}
use relica.Db.{
  Failure, Config, State, DbQuery, ok, err, Row, Rows, driver_error, no_record, use_direct_tx,
}
use relica.Db.Guard.{validate_before_exec, log_refused}
use relica.Db.Blocked.{refusal}
use relica.Db.Client.Steps.{Result-cases}
use relica.Db.Statement.{prepare_statement}
use relica.Db.Fetch.{
  all, read_all, left_as, query_direct, query_prepared, open_rows, NullStringMap, get, put, row_map,
  row, one, scan_map_row, scan_maps, scan_map_rows,
}
use relica.Db.Fetch.Maps.{fill}

-- The last value among those of the columns of a name.
abbrev pub last_value : Text → List Text → List (Option Text) → Option (Option Text)
last_value k (c ∷ cs) (v ∷ vs) = elim (last_value k cs vs) [
  | some w ↦ some w
  | none ↦ if text_eq c k then some v else none
]
last_value k (c ∷ cs) [] = none
last_value k [] vs = none

get-put :
    (j k : Text) (v : Option Text) (m : NullStringMap)
    → get j (put k v m) ≡ (if text_eq k j then some v else get j m)
unfolding put
get-put j k v [] = refl
get-put j k v ((i, w) ∷ m) =
    ground (arith, text_eq→≡ i k, text_eq→≡ i j, text_eq→≡ k j, text_eq_refl j, get-put j k v m)

get-fill :
    (k : Text) (m : NullStringMap) (cs : List Text) (vs : List (Option Text))
    → get k (fill m cs vs) ≡ elim (last_value k cs vs) [ some w ↦ some w | none ↦ get k m ]
unfolding fill
get-fill k m [] vs = refl
get-fill k m (c ∷ cs) [] = refl
get-fill k m (c ∷ cs) (v ∷ vs) = ground (arith, get-fill k (put c v m) cs vs, get-put k c v m)

-- A row's `NullStringMap` has under each name the value of the last column of that name, and no
-- other names.
pub get-row_map :
    (k : Text) (cs : List Text) (vs : List (Option Text))
    → get k (row_map cs vs) ≡ last_value k cs vs
unfolding row_map
get-row_map k cs vs = ground (arith, get-fill k [] cs vs)

module _ {E V : Type 0} where
  -- The rows are read as these maps.
  abbrev pub ReadAs : List Text → List (Row E V) → List NullStringMap → Type 0
  ReadAs columns [] [] = Unit
  ReadAs columns [] (m ∷ ms) = ⊥
  ReadAs columns (r ∷ rs) [] = ⊥
  ReadAs columns (r ∷ rs) (m ∷ ms) = (scan_map_row (ok columns) r ≡ ok m) × ReadAs columns rs ms

  scan_maps-ok :
      (columns : List Text) (failure : Option E) (rs : List (Row E V)) (dest : List NullStringMap)
      → (scan_maps (ok columns) failure rs dest).0 ≡ none
      → (failure ≡ none)
        × (ms : List NullStringMap) × ReadAs columns rs ms
        × ((scan_maps (ok columns) failure rs dest).1 ≡ dest ++ ms)
  unfolding scan_maps
  scan_maps-ok columns none [] dest h = (refl, [], tt, sym (append-nil dest))
  scan_maps-ok columns (some e) [] dest h = cc
  scan_maps-ok columns failure (r ∷ rs) dest h = elim (Result-cases (scan_map_row (ok columns) r)) [
    | inr (f, e) ↦ let bad = rw (scan_maps, e) at h in cc
    | inl (m, e) ↦
        let (none', ms, read, dest') =
          scan_maps-ok columns failure rs (dest ++ m ∷ []) (rw (scan_maps, e) at h) in
        (none', m ∷ ms, (e, read), rw (scan_maps, e) (dest' ∙ append_assoc dest (m ∷ []) ms))
  ]

  -- Where `All` returns nil, the columns could be read, the iteration ended without an error, and
  -- what was given has been extended by the maps of all rows, in their order.
  pub scan_map_rows-ok :
      (rows : Rows E V) (dest : List NullStringMap)
      → (scan_map_rows rows dest).0 ≡ none
      → (columns : List Text) × (rows.columns ≡ ok columns)
        × (rows.failure ≡ none)
        × (ms : List NullStringMap) × ReadAs columns rows.rows ms
        × ((scan_map_rows rows dest).1 ≡ dest ++ ms)
  unfolding scan_map_rows
  scan_map_rows-ok rows dest h = elim (Result-cases rows.columns) [
    | inr (f, e) ↦ let bad = rw (scan_map_rows, e) at h in cc
    | inl (cs, e) ↦
        let done = scan_maps-ok cs rows.failure rows.rows dest (rw (scan_map_rows, e) at h) in
        (cs, e, done.0, done.1, done.2, rw (scan_map_rows, e) (done.3))
  ]

module _ {W S X E V : Type 0} ⦃dyn : Dynamic V⦄ (cfg : Config W S X E V) where
  -- The rows are the database's answer to the query: to its text in its transaction, or to the
  -- statement that it is prepared as.
  abbrev pub IsAnswer : DbQuery S X E V → State W S X E V → Rows E V → Type 0
  IsAnswer q st rows =
      ((use_direct_tx q ≡ true)
        × ((cfg.driver.query_direct q.tx q.sql q.params st.world).0 ≡ ok rows))
      ⊎ ((use_direct_tx q ≡ false)
          × (s : S) × ((prepare_statement cfg q st).0 ≡ ok s)
          × ((cfg.driver.query_stmt s q.params (prepare_statement cfg q st).1.world).0 ≡ ok rows))

  -- All rows were read: the list `result` is `dest` with their maps behind it.
  pub record ReadsAll (rows : Rows E V) (dest result : List NullStringMap) : Type 0 where
    pub columns : List Text
    pub has_columns : rows.columns ≡ ok columns
    pub completed : rows.failure ≡ none
    pub maps : List NullStringMap
    pub read : ReadAs columns rows.rows maps
    pub appended : result ≡ dest ++ maps

  read_all-ok :
      (q : DbQuery S X E V) (rows : Rows E V) (dest : List NullStringMap) (st : State W S X E V)
      → (read_all cfg q dest rows st).0.0 ≡ none
      → ReadsAll rows dest (read_all cfg q dest rows st).0.1
  read_all-ok q rows dest st h = elim (Option-cases (scan_map_rows rows dest).0) [
    | inr (f, e) ↦ let bad = rw (read_all, e) at h in cc
    | inl e ↦
        let (columns, has, done, maps, read, appended) = scan_map_rows-ok rows dest e in
        record {
          columns = columns;
          has_columns = has;
          completed = done;
          maps = maps;
          read = read;
          appended = rw (read_all, e) appended;
        }
  ]

  -- What `All` has done when it returns nil.
  abbrev pub Succeeded :
      DbQuery S X E V
      → List NullStringMap
      → State W S X E V
      → (Option (Failure E) × List NullStringMap) × State W S X E V
      → Type 0
  Succeeded q dest st answer =
      (rows : Rows E V) × IsAnswer q st rows × ReadsAll rows dest answer.0.1

  direct-ok :
      (q : DbQuery S X E V) (dest : List NullStringMap) (st : State W S X E V)
      → use_direct_tx q ≡ true
      → (query_direct cfg q (left_as dest) (read_all cfg q dest) st).0.0 ≡ none
      → Succeeded q dest st (query_direct cfg q (left_as dest) (read_all cfg q dest) st)
  direct-ok q dest st d h =
      let w = (cfg.driver.query_direct q.tx q.sql q.params st.world).1 in
      elim (Result-cases (cfg.driver.query_direct q.tx q.sql q.params st.world).0) [
        | inr (x, e) ↦ let bad = rw (query_direct, e) at h in cc
        | inl (rows, e) ↦ (
          rows,
          inl (d, e),
          rw (query_direct, e) (read_all-ok q rows dest _ (rw (query_direct, e) at h)),
        )
      ]

  prepared-ok :
      (q : DbQuery S X E V) (dest : List NullStringMap) (st : State W S X E V)
      → use_direct_tx q ≡ false
      → (query_prepared cfg q (left_as dest) (read_all cfg q dest) st).0.0 ≡ none
      → Succeeded q dest st (query_prepared cfg q (left_as dest) (read_all cfg q dest) st)
  prepared-ok q dest st d h = elim (Result-cases (prepare_statement cfg q st).0) [
    | inr (f, e) ↦ let bad = rw (query_prepared, e) at h in cc
    | inl (s, e) ↦
        let u = (prepare_statement cfg q st).1 in
        elim (Result-cases (cfg.driver.query_stmt s q.params u.world).0) [
          | inr (x, e') ↦ let bad = rw (query_prepared, e, e') at h in cc
          | inl (rows, e') ↦ (
            rows,
            inr (d, s, e, e'),
            rw (query_prepared, e, e')
                (read_all-ok q rows dest _ (rw (query_prepared, e, e') at h)),
          )
        ]
  ]

  carry :
      (q : DbQuery S X E V) (dest : List NullStringMap) (st : State W S X E V)
      {a b : (Option (Failure E) × List NullStringMap) × State W S X E V}
      → a ≡ b
      → Succeeded q dest st a
      → Succeeded q dest st b
  carry q dest st e h = subst (Succeeded q dest st) e h

  -- The answer of `All` behind the validation.
  abbrev after_check :
      DbQuery S X E V
      → List NullStringMap
      → Option (Failure E) × State W S X E V
      → (Option (Failure E) × List NullStringMap) × State W S X E V
  after_check q dest r = elim r.0 [
    | some f ↦ (left_as dest f, log_refused cfg r.1)
    | none ↦ open_rows cfg q (left_as dest) (read_all cfg q dest) r.1
  ]

  after_check-ok :
      (q : DbQuery S X E V) (dest : List NullStringMap) (r : Option (Failure E) × State W S X E V)
      → (after_check q dest r).0.0 ≡ none
      → (r.0 ≡ none)
        × (after_check q dest r ≡ open_rows cfg q (left_as dest) (read_all cfg q dest) r.1)
  after_check-ok q dest (none, u) h = (refl, refl)
  after_check-ok q dest (some f, u) h = cc

  opened-ok :
      (q : DbQuery S X E V) (dest : List NullStringMap) (st : State W S X E V)
      → (open_rows cfg q (left_as dest) (read_all cfg q dest) st).0.0 ≡ none
      → Succeeded q dest st (open_rows cfg q (left_as dest) (read_all cfg q dest) st)
  opened-ok q dest st h = elim (Bool-cases (use_direct_tx q)) [
    | inl d ↦
        let same : open_rows cfg q (left_as dest) (read_all cfg q dest) st
            ≡ query_direct cfg q (left_as dest) (read_all cfg q dest) st =
          rw (open_rows, d) refl in
        carry q dest st (sym same) (direct-ok q dest st d (ap (λ a. a.0.0) (sym same) ∙ h))
    | inr d ↦
        let same : open_rows cfg q (left_as dest) (read_all cfg q dest) st
            ≡ query_prepared cfg q (left_as dest) (read_all cfg q dest) st =
          rw (open_rows, d) refl in
        carry q dest st (sym same) (prepared-ok q dest st d (ap (λ a. a.0.0) (sym same) ∙ h))
  ]

  accepted :
      (q : DbQuery S X E V) (st : State W S X E V)
      → (validate_before_exec cfg q st).0 ≡ none
      → refusal cfg q ≡ none
  unfolding validate_before_exec
  accepted q st h = ground (arith, h)

  -- Where `All` returns nil, the query was not refused, the database answered it by rows whose
  -- columns could be read, their iteration ended without an error, and what was given has been
  -- extended by the maps of all rows, in their order.
  pub all-ok :
      (q : DbQuery S X E V) (dest : List NullStringMap) (st : State W S X E V)
      → (all cfg q dest st).0.0 ≡ none
      → (refusal cfg q ≡ none)
        × Succeeded q dest (validate_before_exec cfg q st).1 (all cfg q dest st)
  unfolding all
  all-ok q dest st h =
      let u = (validate_before_exec cfg q st).1 in
      let (e, same) = after_check-ok q dest (validate_before_exec cfg q st) h in
      (
        accepted q st e,
        carry q dest u (sym same) (opened-ok q dest u (ap (λ a. a.0.0) (sym same) ∙ h)),
      )

  -- For a query of a transaction whose rows break off by an error before the first, `Row` returns
  -- that error, but `One` that there is no record.
  pub one_hides_failure :
      (q : DbQuery S X E V) (n : ℕ) (rows : Rows E V) (e : E) (st : State W S X E V)
      → refusal cfg q ≡ none
      → use_direct_tx q ≡ true
      → (cfg.driver.query_direct q.tx q.sql q.params st.world).0 ≡ ok rows
      → rows.rows ≡ []
      → rows.failure ≡ some e
      → ((row cfg q n st).0 ≡ err (driver_error e)) × ((one cfg q st).0 ≡ err no_record)
  unfolding row one validate_before_exec
  one_hides_failure q n rows e st a b c d f = ground arith
