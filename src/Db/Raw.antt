-- ===== src/Db/Raw.antt =====
-- The methods of `DB` that pass a text on without a `Query`, and those about the cache and the end.
use relica.Prelude.{ℕ, ◌+◌, Bool, List, [], ◌∷◌, Option, none, some}
use relica.Text.{Text, codes}
use relica.Exp.{Dynamic}
use relica.Cache.{pin, unpin, clear, set}
use relica.Db.{
  Config, State, Failure, Result, ok, err, Rows, SqlResult, raw_executed, raw_queried, db_closed,
  note_call, audit, operation_event,
}
use relica.Db.Operation.{detect_operation}
use relica.Db.Guard.{validate_query_and_params}
use relica.Db.Statement.{prepare_on}
use relica.Db.Execute.{outcome, failure_in}

module _ {W S X E V : Type 0} ⦃dyn : Dynamic V⦄ where
  abbrev pub exec_raw :
      Config W S X E V
      → Text
      → List V
      → State W S X E V
      → Result (Failure E) (SqlResult E) × State W S X E V
  exec_raw cfg sql args st =
      let (r, w) = cfg.driver.exec_direct none sql args st.world in
      (
        outcome r,
        audit cfg (operation_event (detect_operation sql) sql args (failure_in r))
            (note_call (raw_executed sql) w st),
      )

  -- `ExecContext` of a `DB`.
  unfoldable pub exec_context :
      Config W S X E V
      → Text
      → List V
      → State W S X E V
      → Result (Failure E) (SqlResult E) × State W S X E V
  exec_context cfg sql args st =
      let (refused, st') = validate_query_and_params cfg sql args st in
      elim refused [ some f ↦ (err f, st') | none ↦ exec_raw cfg sql args st' ]

  abbrev pub query_raw :
      Config W S X E V
      → Text
      → List V
      → State W S X E V
      → Result (Failure E) (Rows E V) × State W S X E V
  query_raw cfg sql args st =
      let (r, w) = cfg.driver.query_direct none sql args st.world in
      (
        outcome r,
        audit cfg (operation_event (codes "SELECT") sql args (failure_in r))
            (note_call (raw_queried sql) w st),
      )

  -- `QueryContext` of a `DB`.
  unfoldable pub query_context :
      Config W S X E V
      → Text
      → List V
      → State W S X E V
      → Result (Failure E) (Rows E V) × State W S X E V
  query_context cfg sql args st =
      let (refused, st') = validate_query_and_params cfg sql args st in
      elim refused [ some f ↦ (err f, st') | none ↦ query_raw cfg sql args st' ]

module _ {W S X E V : Type 0} where
  -- The loop of `WarmCache`, with the number of queries prepared so far.
  unfoldable pub warm_from :
      Config W S X E V → ℕ → List Text → State W S X E V → (ℕ × Option E) × State W S X E V
  warm_from cfg n [] st = ((n, none), st)
  warm_from cfg n (sql ∷ sqls) st =
      let (r, st') = prepare_on cfg none sql st in
      elim r [
        | err e ↦ ((n, some e), st')
        | ok s ↦ warm_from cfg (n + 1) sqls (record st' { cache = set sql s st'.cache })
      ]

  -- `WarmCache`.
  unfoldable pub warm_cache :
      Config W S X E V → List Text → State W S X E V → (ℕ × Option E) × State W S X E V
  unfolding warm_from
  warm_cache cfg sqls st = warm_from cfg 0 sqls st

  -- `PinQuery`.
  unfoldable pub pin_query : Text → State W S X E V → Bool × State W S X E V
  pin_query sql st = let (b, c) = pin sql st.cache in (b, record st { cache = c })

  -- `UnpinQuery`.
  unfoldable pub unpin_query : Text → State W S X E V → Bool × State W S X E V
  unpin_query sql st = let (b, c) = unpin sql st.cache in (b, record st { cache = c })

  -- `Close` of a `DB` without health checks.
  unfoldable pub close_db : Config W S X E V → State W S X E V → Option E × State W S X E V
  close_db cfg st =
      let (e, w) = cfg.driver.close_db st.world in
      (e, note_call db_closed w (record st { cache = clear st.cache }))
