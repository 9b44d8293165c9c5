-- ===== src/Db/Statement.antt =====
-- `Prepare` and `Close` of a query, and `prepareStatement`, which reads the statement cache.
use relica.Prelude.{true, false, Option, none, some}
use relica.Text.{Text}
use relica.Exp.{Dynamic}
use relica.Cache.{get, set}
use relica.Db.{
  Config, State, DbQuery, Failure, Result, ok, err, driver_error, prepared_on, stmt_closed,
  note_call,
}
use relica.Db.Guard.{validate_query_and_params}

abbrev pub keep_prepared : {S X E V : Type 0} → DbQuery S X E V → Result E S → DbQuery S X E V
keep_prepared q (ok s) = record q { stmt = some s; prepared = true }
keep_prepared q (err e) = record q { prep_err = some (driver_error e) }

module _ {W S X E V : Type 0} where
  -- `PrepareContext` of the database or of a transaction.
  abbrev pub prepare_on :
      Config W S X E V → Option X → Text → State W S X E V → Result E S × State W S X E V
  prepare_on cfg tx sql st =
      let (r, w) = cfg.driver.prepare tx sql st.world in (r, note_call (prepared_on tx sql) w st)

  -- `Prepare`.
  unfoldable pub prepare :
      Config W S X E V → DbQuery S X E V → State W S X E V → DbQuery S X E V × State W S X E V
  prepare cfg q st = elim q.prepared [
    | true ↦ (q, st)
    | false ↦ let (r, st') = prepare_on cfg q.tx q.sql st in (keep_prepared q r, st')
  ]

  abbrev pub close_stmt :
      Config W S X E V
      → DbQuery S X E V
      → S
      → State W S X E V
      → Option E × DbQuery S X E V × State W S X E V
  close_stmt cfg q s st =
      let (e, w) = cfg.driver.close_stmt s st.world in
      (e, record q { stmt = none; prepared = false }, note_call (stmt_closed s) w st)

  -- `Close` of a query.
  unfoldable pub close :
      Config W S X E V
      → DbQuery S X E V
      → State W S X E V
      → Option E × DbQuery S X E V × State W S X E V
  close cfg q st = elim q.stmt [ none ↦ (none, q, st) | some s ↦ close_stmt cfg q s st ]

  -- The statement for a miss: it is put into the cache.
  abbrev pub cache_result :
      Text → Result E S → State W S X E V → Result (Failure E) S × State W S X E V
  cache_result sql (err e) st = (err (driver_error e), st)
  cache_result sql (ok s) st = (ok s, record st { cache = set sql s st.cache })

  abbrev pub prepare_cached :
      Config W S X E V → Text → State W S X E V → Result (Failure E) S × State W S X E V
  prepare_cached cfg sql st = let (r, st') = prepare_on cfg none sql st in cache_result sql r st'

  -- The statement from the cache, or a new one.
  abbrev pub cached_statement :
      Config W S X E V → Text → State W S X E V → Result (Failure E) S × State W S X E V
  cached_statement cfg sql st =
      let (hit, c) = get sql st.cache in
      elim hit [
        | some s ↦ (ok s, record st { cache = c })
        | none ↦ prepare_cached cfg sql (record st { cache = c })
      ]

  -- The part behind the validation.
  abbrev pub own_statement :
      Config W S X E V → DbQuery S X E V → State W S X E V → Result (Failure E) S × State W S X E V
  own_statement cfg q st = elim q.prepared [
    | false ↦ cached_statement cfg q.sql st
    | true ↦ elim q.stmt [ some s ↦ (ok s, st) | none ↦ cached_statement cfg q.sql st ]
  ]

module _ {W S X E V : Type 0} ⦃dyn : Dynamic V⦄ where
  -- `prepareStatement`, which validates once more.
  unfoldable pub prepare_statement :
      Config W S X E V → DbQuery S X E V → State W S X E V → Result (Failure E) S × State W S X E V
  prepare_statement cfg q st = elim q.prep_err [
    | some f ↦ (err f, st)
    | none ↦
        let (refused, st') = validate_query_and_params cfg q.sql q.params st in
        elim refused [ some f ↦ (err f, st') | none ↦ own_statement cfg q st' ]
  ]
