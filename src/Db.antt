-- ===== src/Db.antt =====
-- internal/core/query.go, db.go and hooks.go: running queries. This file is what they build on:
-- package database/sql as a parameter, and the state that a run changes.
mod Tests
pub mod Operation
pub mod Guard
pub mod Statement
pub mod Execute
pub mod Fetch
pub mod Raw
pub mod Tx
pub mod Named
pub mod Health
pub mod Open
pub mod Client
pub mod Blocked
pub mod Guarded
pub mod Reuse
pub mod Commit
pub mod Answers
use relica.Prelude.{
  ℕ, Bool, true, false, not, ◌&&◌, if◌then◌else◌, List, [], ◌∷◌, ◌++◌, Option, none, some, is_some,
}
use relica.Prelude.Ints.{ℤ}
use relica.Text.{Text}
use relica.Dialect.{Dialect}
use relica.Query.{BuildError, Query}
use relica.Security.{Regexp, Validator}
use relica.Cache.{StmtCache}

pub data Result (E A : Type 0) : Type 0 where
  ok : A → Result E A
  err : E → Result E A

-- `sql.Result`: what its two methods return, a number and maybe an error.
pub record SqlResult (E : Type 0) : Type 0 where
  pub rows_affected : ℤ × Option E
  pub last_insert_id : ℤ × Option E

-- A row as `Scan` delivers it into so many destinations: values, or texts that may be NULL.
pub record Row (E V : Type 0) : Type 0 where
  pub scan : ℕ → Result E (List V)
  pub scan_strings : ℕ → Result E (List (Option Text))

-- `*sql.Rows`: what `Columns` returns, the rows that `Next` steps through, and `Err` behind them.
pub record Rows (E V : Type 0) : Type 0 where
  pub columns : Result E (List Text)
  pub rows : List (Row E V)
  pub failure : Option E

-- `TxOptions`: the isolation level and the flag for read-only.
pub record TxOptions : Type 0 where
  pub isolation : ℕ
  pub read_only : Bool

-- The methods of database/sql that the code calls, over the state `W` of the database. A
-- statement is an `S`, a transaction an `X`, an error an `E`. Where a method of `*sql.DB` and of
-- `*sql.Tx` is one field, the option says whose it is.
pub record Driver (W S X E V : Type 0) : Type 0 where
  pub prepare : Option X → Text → W → Result E S × W
  pub exec_stmt : S → List V → W → Result E (SqlResult E) × W
  pub query_stmt : S → List V → W → Result E (Rows E V) × W
  pub exec_direct : Option X → Text → List V → W → Result E (SqlResult E) × W
  pub query_direct : Option X → Text → List V → W → Result E (Rows E V) × W
  pub close_stmt : S → W → Option E × W
  pub close_rows : W → W
  pub begin_tx : Option TxOptions → W → Result E X × W
  pub commit : X → W → Option E × W
  pub rollback : X → W → Option E × W
  pub close_db : W → Option E × W

-- The errors that an operation returns.
pub data Failure (E : Type 0) : Type 0 where
  driver_error columns_failed scan_failed rows_failed : E → Failure E
  build_error : BuildError → Failure E
  missing_parameter : Text → Failure E
  blocked_query no_record no_row bad_destination : Failure E
  blocked_params : ℕ → Failure E

-- A call of a method of database/sql; of a query, with whether it opened rows, and of
-- `BeginTx`, with whether it began a transaction. The calls that
-- `ExecContext` and `QueryContext` of a `DB` pass on are kept apart.
pub data Call (S X : Type 0) : Type 0 where
  prepared_on executed_on : Option X → Text → Call S X
  executed stmt_closed : S → Call S X
  queried_on : Option X → Text → Bool → Call S X
  queried : S → Bool → Call S X
  raw_executed raw_queried : Text → Call S X
  rows_closed db_closed : Call S X
  began : Bool → Call S X
  committed rolled_back : X → Call S X

-- `QueryEvent`, without the duration.
pub record QueryEvent (E V : Type 0) : Type 0 where
  pub sql : Text
  pub args : List V
  pub rows_affected : ℤ
  pub failure : Option (Failure E)
  pub operation : Text

pub data Level : Type 0 where
  debug info warn error : Level

-- What the auditor is called with: `LogSecurityEvent` and `LogOperation`.
pub data Audit (E V : Type 0) : Type 0 where
  security_event : Text → Text → Failure E → Audit E V
  operation_event : Text → Text → List V → Option (Failure E) → Audit E V

-- The options of a `DB` that a run reads.
pub record Config (W S X E V : Type 0) : Type 0 where
  pub driver : Driver W S X E V
  pub dialect : Dialect
  pub has_logger : Bool
  pub has_hook : Bool
  pub has_auditor : Bool
  pub regexp : Regexp
  pub validator : Option Validator

-- The database, the statement cache of the `DB`, and the calls so far of database/sql, the query
-- hook, the auditor and the logger, the newest first.
pub record State (W S X E V : Type 0) : Type 0 where
  pub world : W
  pub cache : StmtCache S
  pub calls : List (Call S X)
  pub events : List (QueryEvent E V)
  pub audits : List (Audit E V)
  pub logs : List (Level × Text)

-- `Query`: built or raw, its transaction, and the statement that `Prepare` made.
pub record DbQuery (S X E V : Type 0) : Type 0 where
  pub sql : Text
  pub params : List V
  pub tx : Option X
  pub stmt : Option S
  pub prepared : Bool
  pub prep_err : Option (Failure E)

abbrev pub failure_of : {E : Type 0} → Option BuildError → Option (Failure E)
failure_of none = none
failure_of (some e) = some (build_error e)

module _ {S X E V : Type 0} where
  -- `NewQuery` of a `DB` and of a `Tx`.
  unfoldable pub new_query : Option X → Text → DbQuery S X E V
  new_query tx sql = record {
    sql = sql;
    params = [];
    tx = tx;
    stmt = none;
    prepared = false;
    prep_err = none;
  }

  -- The query that a builder returns.
  unfoldable pub of_built : Option X → Query V → DbQuery S X E V
  of_built tx q = record {
    sql = q.sql;
    params = q.params;
    tx = tx;
    stmt = none;
    prepared = false;
    prep_err = failure_of q.prep_err;
  }

  -- `Bind`.
  abbrev pub bind : List V → DbQuery S X E V → DbQuery S X E V
  bind args q = record q { params = args }

  -- `appendSQL`.
  abbrev pub append_sql : Text → DbQuery S X E V → DbQuery S X E V
  append_sql suffix q = record q { sql = q.sql ++ suffix }

  -- `IsPrepared`.
  abbrev pub is_prepared : DbQuery S X E V → Bool
  is_prepared q = q.prepared && is_some q.stmt

  -- `useDirectTx`.
  abbrev pub use_direct_tx : DbQuery S X E V → Bool
  use_direct_tx q = is_some q.tx && not q.prepared

module _ {W S X E V : Type 0} where
  abbrev pub note_call : Call S X → W → State W S X E V → State W S X E V
  note_call c w st = record st { world = w; calls = c ∷ st.calls }

  -- `invokeHook`.
  abbrev pub invoke_hook : Config W S X E V → QueryEvent E V → State W S X E V → State W S X E V
  invoke_hook cfg e st = record st { events = if cfg.has_hook then e ∷ st.events else st.events }

  -- A message for the logger, without its attributes.
  abbrev pub log : Config W S X E V → Level → Text → State W S X E V → State W S X E V
  log cfg l m st = record st { logs = if cfg.has_logger then (l, m) ∷ st.logs else st.logs }

  abbrev pub audit : Config W S X E V → Audit E V → State W S X E V → State W S X E V
  audit cfg a st = record st { audits = if cfg.has_auditor then a ∷ st.audits else st.audits }
