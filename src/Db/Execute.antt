-- ===== src/Db/Execute.antt =====
-- `Execute` of a query.
use relica.Prelude.{if◌then◌else◌, Option, none, some}
use relica.Prelude.Ints.{ℤ, pos}
use relica.Text.{codes}
use relica.Exp.{Dynamic}
use relica.Db.{
  Config, State, DbQuery, Failure, Result, ok, err, SqlResult, QueryEvent, driver_error,
  executed_on, executed, note_call, invoke_hook, log, error, info, use_direct_tx,
}
use relica.Db.Operation.{hook_operation}
use relica.Db.Guard.{validate_before_exec, log_refused}
use relica.Db.Statement.{prepare_statement}

abbrev pub affected : {E : Type 0} → Result E (SqlResult E) → ℤ
affected (ok r) = r.rows_affected.0
affected (err e) = pos 0

abbrev pub outcome : {E A : Type 0} → Result E A → Result (Failure E) A
outcome (ok r) = ok r
outcome (err e) = err (driver_error e)

abbrev pub failure_in : {E A : Type 0} → Result E A → Option (Failure E)
failure_in (ok r) = none
failure_in (err e) = some (driver_error e)

-- The event of a query.
abbrev pub event : {S X E V : Type 0} → DbQuery S X E V → ℤ → Option (Failure E) → QueryEvent E V
event q n f = record {
  sql = q.sql;
  args = q.params;
  rows_affected = n;
  failure = f;
  operation = hook_operation q.sql;
}

module _ {W S X E V : Type 0} where
  -- `logExecutionResult`.
  abbrev pub log_result :
      {A : Type 0} → Config W S X E V → Result E A → State W S X E V → State W S X E V
  log_result cfg (err e) st = log cfg error (codes "query execution failed") st
  log_result cfg (ok r) st = log cfg info (codes "query executed") st

  -- What follows the call of the database, in both paths.
  abbrev pub finish :
      Config W S X E V
      → DbQuery S X E V
      → Result E (SqlResult E)
      → State W S X E V
      → Result (Failure E) (SqlResult E) × State W S X E V
  finish cfg q r st =
      (outcome r, invoke_hook cfg (event q (affected r) (failure_in r)) (log_result cfg r st))

  -- `ExecContext` of the transaction, or of the database.
  abbrev pub execute_direct :
      Config W S X E V
      → DbQuery S X E V
      → State W S X E V
      → Result (Failure E) (SqlResult E) × State W S X E V
  execute_direct cfg q st =
      let (r, w) = cfg.driver.exec_direct q.tx q.sql q.params st.world in
      finish cfg q r (note_call (executed_on q.tx q.sql) w st)

  -- `ExecContext` of the statement.
  abbrev pub execute_statement :
      Config W S X E V
      → DbQuery S X E V
      → S
      → State W S X E V
      → Result (Failure E) (SqlResult E) × State W S X E V
  execute_statement cfg q s st =
      let (r, w) = cfg.driver.exec_stmt s q.params st.world in
      finish cfg q r (note_call (executed s) w st)

module _ {W S X E V : Type 0} ⦃dyn : Dynamic V⦄ where
  abbrev pub execute_prepared :
      Config W S X E V
      → DbQuery S X E V
      → State W S X E V
      → Result (Failure E) (SqlResult E) × State W S X E V
  execute_prepared cfg q st =
      let (r, st') = prepare_statement cfg q st in
      elim r [ err f ↦ (err f, log_refused cfg st') | ok s ↦ execute_statement cfg q s st' ]

  -- `Execute`.
  unfoldable pub execute :
      Config W S X E V
      → DbQuery S X E V
      → State W S X E V
      → Result (Failure E) (SqlResult E) × State W S X E V
  execute cfg q st =
      let (refused, st') = validate_before_exec cfg q st in
      elim refused [
        | some f ↦ (err f, log_refused cfg st')
        | none ↦ if use_direct_tx q then execute_direct cfg q st' else execute_prepared cfg q st'
      ]
