-- ===== src/Db/Tx.antt =====
-- Transactions: `BeginTx`, and `Transactional` and `TransactionalTx`.
use relica.Prelude.{Option, none, some}
use relica.Db.Fetch.{is_ok}
use relica.Db.{
  Config, State, Failure, Result, ok, err, TxOptions, driver_error, began, committed, rolled_back,
  note_call,
}

-- How a call ends: it returns an error or nil, it panics, or it ends its goroutine by
-- `runtime.Goexit`, which runs the deferred functions without a panic.
pub data Outcome (E P : Type 0) : Type 0 where
  returned : Option (Failure E) → Outcome E P
  panicked : P → Outcome E P
  exited : Outcome E P

module _ {W S X E V : Type 0} where
  -- `BeginTx`; `Begin` is that with no options.
  unfoldable pub begin_tx :
      Config W S X E V → Option TxOptions → State W S X E V → Result E X × State W S X E V
  begin_tx cfg options st =
      let (r, w) = cfg.driver.begin_tx options st.world in (r, note_call (began (is_ok r)) w st)

  -- `Commit`.
  abbrev pub commit : Config W S X E V → X → State W S X E V → Option E × State W S X E V
  commit cfg x st = let (e, w) = cfg.driver.commit x st.world in (e, note_call (committed x) w st)

  -- `Rollback`.
  abbrev pub rollback : Config W S X E V → X → State W S X E V → Option E × State W S X E V
  rollback cfg x st =
      let (e, w) = cfg.driver.rollback x st.world in (e, note_call (rolled_back x) w st)

abbrev pub error_of : {E : Type 0} → Option E → Option (Failure E)
error_of none = none
error_of (some e) = some (driver_error e)

module _ {W S X E V P : Type 0} where
  -- The deferred function: a panic goes on behind the rollback, and the error of `Commit` is
  -- returned. Behind `runtime.Goexit` there is neither a panic nor an error, so that it commits, and
  -- the goroutine ends.
  abbrev pub finish_tx :
      Config W S X E V → X → Outcome E P → State W S X E V → Outcome E P × State W S X E V
  finish_tx cfg x (panicked p) st = (panicked p, (rollback cfg x st).1)
  finish_tx cfg x (returned (some f)) st = (returned (some f), (rollback cfg x st).1)
  finish_tx cfg x exited st = (exited, (commit cfg x st).1)
  finish_tx cfg x (returned none) st =
      let (e, st') = commit cfg x st in (returned (error_of e), st')

  -- `TransactionalTx`; `Transactional` is that with no options.
  unfoldable pub transactional :
      Config W S X E V
      → Option TxOptions
      → (X → State W S X E V → Outcome E P × State W S X E V)
      → State W S X E V
      → Outcome E P × State W S X E V
  transactional cfg options f st =
      let (r, st') = begin_tx cfg options st in
      elim r [
        | err e ↦ (returned (some (driver_error e)), st')
        | ok x ↦ let (o, st'') = f x st' in finish_tx cfg x o st''
      ]
