-- ===== src/Db/Fetch.antt =====
-- `Row`, `Column`, `One` and `All` of a query, the last two for `NullStringMap` destinations.
pub mod Maps
use relica.Prelude.{
  ℕ, Bool, true, false, if◌then◌else◌, List, [], ◌∷◌, ◌++◌, Option, none, some, length,
}
use relica.Prelude.Ints.{ℤ, pos}
use relica.Text.{Text, codes}
use relica.Exp.{Dynamic}
use relica.Db.{
  Config, State, DbQuery, Failure, Result, ok, err, Row, Rows, driver_error, columns_failed,
  scan_failed, rows_failed, no_record, no_row, bad_destination, queried_on, queried, rows_closed,
  note_call, invoke_hook, log, Level, error, info, warn, use_direct_tx,
}
use relica.Db.Execute.{event}
use relica.Db.Guard.{validate_before_exec, log_refused}
use relica.Db.Statement.{prepare_statement}
unfoldable pub use relica.Db.Fetch.Maps.{
  NullStringMap, put, row_map, has, get, is_null, string, keys,
}

-- What `Column` is handed.
pub data Destination : Type 0 where
  no_pointer no_slice slice : Destination

module _ {E V : Type 0} where
  -- `scanMapRow`.
  unfoldable pub scan_map_row : Result E (List Text) → Row E V → Result (Failure E) NullStringMap
  scan_map_row (err e) r = err (columns_failed e)
  scan_map_row (ok columns) r = elim (r.scan_strings (length columns)) [
    | err e ↦ err (scan_failed e)
    | ok values ↦ ok (row_map columns values)
  ]

  -- The loop of `scanMapRows`, with what was scanned before an error.
  unfoldable pub scan_maps :
      Result E (List Text)
      → Option E
      → List (Row E V)
      → List NullStringMap
      → Option (Failure E) × List NullStringMap
  unfolding scan_map_row
  scan_maps columns none [] dest = (none, dest)
  scan_maps columns (some e) [] dest = (some (rows_failed e), dest)
  scan_maps columns failure (r ∷ rs) dest = elim (scan_map_row columns r) [
    | err f ↦ (some f, dest)
    | ok m ↦ scan_maps columns failure rs (dest ++ m ∷ [])
  ]

  -- `scanMapRows`.
  unfoldable pub scan_map_rows :
      Rows E V → List NullStringMap → Option (Failure E) × List NullStringMap
  unfolding scan_maps
  scan_map_rows rows dest = elim rows.columns [
    | err e ↦ (some (columns_failed e), dest)
    | ok columns ↦ scan_maps (ok columns) rows.failure rows.rows dest
  ]

  -- The loop of `Column` over the rows.
  unfoldable pub scan_column : Option E → List (Row E V) → List V → Option E × Text × List V
  scan_column failure [] dest = (failure, codes "row iteration failed", dest)
  scan_column failure (r ∷ rs) dest = elim (r.scan 1) [
    | err e ↦ (some e, codes "column scanning failed", dest)
    | ok vs ↦ scan_column failure rs (dest ++ vs)
  ]

-- The answer of `Column` and `All` that fail before they scan.
abbrev pub left_as : {E A : Type 0} → List A → Failure E → Option (Failure E) × List A
left_as dest f = (some f, dest)

abbrev pub is_ok : {E A : Type 0} → Result E A → Bool
is_ok (ok a) = true
is_ok (err e) = false

module _ {W S X E V : Type 0} where
  -- A message, and the event for the hook.
  abbrev pub conclude :
      Config W S X E V
      → DbQuery S X E V
      → Level
      → Text
      → Option (Failure E)
      → State W S X E V
      → State W S X E V
  conclude cfg q l m f st = invoke_hook cfg (event q (pos 0) f) (log cfg l m st)

  -- The deferred `rows.Close()`.
  abbrev pub close_rows : Config W S X E V → State W S X E V → State W S X E V
  close_rows cfg st = note_call rows_closed (cfg.driver.close_rows st.world) st

  -- The reader's answer, for rows that were opened; they are closed when it is done.
  abbrev pub read_rows :
      {A : Type 0}
      → Config W S X E V
      → DbQuery S X E V
      → (Failure E → A)
      → (Rows E V → State W S X E V → A × State W S X E V)
      → Result E (Rows E V)
      → State W S X E V
      → A × State W S X E V
  read_rows cfg q fail reader (err e) st = (
    fail (driver_error e),
    conclude cfg q error (codes "query execution failed") (some (driver_error e)) st,
  )
  read_rows cfg q fail reader (ok rows) st =
      let (a, st') = reader rows st in (a, close_rows cfg st')

  abbrev pub query_direct :
      {A : Type 0}
      → Config W S X E V
      → DbQuery S X E V
      → (Failure E → A)
      → (Rows E V → State W S X E V → A × State W S X E V)
      → State W S X E V
      → A × State W S X E V
  query_direct cfg q fail reader st =
      let (r, w) = cfg.driver.query_direct q.tx q.sql q.params st.world in
      read_rows cfg q fail reader r (note_call (queried_on q.tx q.sql (is_ok r)) w st)

  abbrev pub query_statement :
      {A : Type 0}
      → Config W S X E V
      → DbQuery S X E V
      → (Failure E → A)
      → (Rows E V → State W S X E V → A × State W S X E V)
      → S
      → State W S X E V
      → A × State W S X E V
  query_statement cfg q fail reader s st =
      let (r, w) = cfg.driver.query_stmt s q.params st.world in
      read_rows cfg q fail reader r (note_call (queried s (is_ok r)) w st)

  -- `Row`, behind the rows' opening: the first row into `n` variables.
  abbrev pub read_row :
      Config W S X E V
      → DbQuery S X E V
      → ℕ
      → Rows E V
      → State W S X E V
      → Result (Failure E) (List V) × State W S X E V
  read_row cfg q n rows st = elim rows.rows [
    | [] ↦
        let f : Failure E = elim rows.failure [ none ↦ no_row | some e ↦ driver_error e ] in
        (err f, conclude cfg q warn (codes "query returned no rows") (some f) st)
    | r ∷ rs ↦ elim (r.scan n) [
      | err e ↦ (
        err (driver_error e),
        conclude cfg q error (codes "row scanning failed") (some (driver_error e)) st,
      )
      | ok vs ↦ (ok vs, conclude cfg q info (codes "query executed") none st)
    ]
  ]

  -- `One`, behind the rows' opening.
  abbrev pub read_one :
      Config W S X E V
      → DbQuery S X E V
      → Rows E V
      → State W S X E V
      → Result (Failure E) NullStringMap × State W S X E V
  read_one cfg q rows st = elim rows.rows [
    | [] ↦ (err no_record, conclude cfg q warn (codes "query returned no rows") (some no_record) st)
    | r ∷ rs ↦ elim (scan_map_row rows.columns r) [
      | err f ↦ (err f, conclude cfg q error (codes "row scanning failed") (some f) st)
      | ok m ↦ (ok m, conclude cfg q info (codes "query executed") none st)
    ]
  ]

  -- `Column`, behind the rows' opening.
  abbrev pub read_column :
      Config W S X E V
      → DbQuery S X E V
      → List V
      → Rows E V
      → State W S X E V
      → (Option (Failure E) × List V) × State W S X E V
  read_column cfg q dest rows st =
      let (e, m, vs) = scan_column rows.failure rows.rows dest in
      elim e [
        | some e ↦ ((some (driver_error e), vs), conclude cfg q error m (some (driver_error e)) st)
        | none ↦ ((none, vs), conclude cfg q info (codes "query executed") none st)
      ]

  -- `All`, behind the rows' opening.
  abbrev pub read_all :
      Config W S X E V
      → DbQuery S X E V
      → List NullStringMap
      → Rows E V
      → State W S X E V
      → (Option (Failure E) × List NullStringMap) × State W S X E V
  read_all cfg q dest rows st =
      let (e, ms) = scan_map_rows rows dest in
      elim e [
        | some f ↦ ((some f, ms), conclude cfg q error (codes "row scanning failed") (some f) st)
        | none ↦ ((none, ms), conclude cfg q info (codes "query executed") none st)
      ]

module _ {W S X E V : Type 0} ⦃dyn : Dynamic V⦄ where
  abbrev pub query_prepared :
      {A : Type 0}
      → Config W S X E V
      → DbQuery S X E V
      → (Failure E → A)
      → (Rows E V → State W S X E V → A × State W S X E V)
      → State W S X E V
      → A × State W S X E V
  query_prepared cfg q fail reader st =
      let (r, st') = prepare_statement cfg q st in
      elim r [
        | err f ↦ (fail f, log_refused cfg st')
        | ok s ↦ query_statement cfg q fail reader s st'
      ]

  -- The opening of the rows, the same in all four methods.
  abbrev pub open_rows :
      {A : Type 0}
      → Config W S X E V
      → DbQuery S X E V
      → (Failure E → A)
      → (Rows E V → State W S X E V → A × State W S X E V)
      → State W S X E V
      → A × State W S X E V
  open_rows cfg q fail reader st =
      if use_direct_tx q
      then query_direct cfg q fail reader st
      else query_prepared cfg q fail reader st

  -- The validation in front, with what follows it.
  abbrev pub validated :
      {A : Type 0}
      → Config W S X E V
      → DbQuery S X E V
      → (Failure E → A)
      → (State W S X E V → A × State W S X E V)
      → State W S X E V
      → A × State W S X E V
  validated cfg q fail next st =
      let (refused, st') = validate_before_exec cfg q st in
      elim refused [ some f ↦ (fail f, log_refused cfg st') | none ↦ next st' ]

  -- `Row`, for `n` variables.
  unfoldable pub row :
      Config W S X E V
      → DbQuery S X E V
      → ℕ
      → State W S X E V
      → Result (Failure E) (List V) × State W S X E V
  row cfg q n st = validated cfg q err (open_rows cfg q err (read_row cfg q n)) st

  -- `One`.
  unfoldable pub one :
      Config W S X E V
      → DbQuery S X E V
      → State W S X E V
      → Result (Failure E) NullStringMap × State W S X E V
  one cfg q st = validated cfg q err (open_rows cfg q err (read_one cfg q)) st

  -- `Column`: the error, and the slice then.
  unfoldable pub column :
      Config W S X E V
      → DbQuery S X E V
      → Destination
      → List V
      → State W S X E V
      → (Option (Failure E) × List V) × State W S X E V
  column cfg q kind dest st =
      validated cfg q (left_as dest)
        (λ st'. elim kind [
          | slice ↦ open_rows cfg q (left_as dest) (read_column cfg q dest) st'
          | no_pointer ↦ (left_as dest bad_destination, st')
          | no_slice ↦ (left_as dest bad_destination, st')
        ])
        st

  -- `All`: the error, and the slice then.
  unfoldable pub all :
      Config W S X E V
      → DbQuery S X E V
      → List NullStringMap
      → State W S X E V
      → (Option (Failure E) × List NullStringMap) × State W S X E V
  all cfg q dest st =
      validated cfg q (left_as dest) (open_rows cfg q (left_as dest) (read_all cfg q dest)) st
