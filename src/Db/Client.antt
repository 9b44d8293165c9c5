-- ===== src/Db/Client.antt =====
-- What a client of a `DB` may do, in any order, with what each operation leaves behind.
pub mod Steps
pub mod Runs
use relica.Prelude.{
  ℕ, suc, ◌+◌, ◌≡◌, if◌then◌else◌, Bool, true, false, List, [], ◌∷◌, Option, none, some, length,
  arith,
}
use relica.Text.{Text}
use relica.Exp.{Dynamic}
use relica.Db.{
  Config, State, DbQuery, Call, prepared_on, executed_on, executed, stmt_closed, queried_on,
  queried, raw_executed, raw_queried, rows_closed, db_closed, began, committed, rolled_back,
  TxOptions,
}
use relica.Db.Statement.{prepare, close}
use relica.Db.Execute.{execute}
use relica.Db.Fetch.{Destination, NullStringMap, row, one, column, all}
use relica.Db.Raw.{warm_cache, pin_query, unpin_query, exec_context}
use relica.Db.Tx.{Outcome, transactional}

-- 1 for true.
abbrev pub one_if : Bool → ℕ
one_if true = 1
one_if false = 0

-- What a call does to the open rows and transactions, and whether it runs a `Query`.
abbrev pub opens : {S X : Type 0} → Call S X → ℕ
opens (queried_on tx sql b) = one_if b
opens (queried s b) = one_if b
opens other_call = 0

abbrev pub closes : {S X : Type 0} → Call S X → ℕ
closes rows_closed = 1
closes other_call = 0

abbrev pub begins : {S X : Type 0} → Call S X → ℕ
begins (began b) = one_if b
begins other_call = 0

abbrev pub ends : {S X : Type 0} → Call S X → ℕ
ends (committed x) = 1
ends (rolled_back x) = 1
ends other_call = 0

abbrev pub runs : {S X : Type 0} → Call S X → ℕ
runs (executed_on tx sql) = 1
runs (executed s) = 1
runs (queried_on tx sql b) = 1
runs (queried s b) = 1
runs other_call = 0

-- A text that `ExecContext` or `QueryContext` of the `DB` passed on, without the hook.
abbrev pub passed_on : {S X : Type 0} → Call S X → ℕ
passed_on (raw_executed sql) = 1
passed_on (raw_queried sql) = 1
passed_on other_call = 0

-- Any query that is run.
abbrev pub runs_any : {S X : Type 0} → Call S X → ℕ
runs_any c = runs c + passed_on c

abbrev pub total : {S X : Type 0} → (Call S X → ℕ) → List (Call S X) → ℕ
total f [] = 0
total f (c ∷ cs) = f c + total f cs

-- Between two states, as many rows were closed as opened, as many transactions ended as begun,
-- and as many events handed to the hook as a `Query` was run times, if there is a hook, else none.
pub record Settles {W S X E V : Type 0} (cfg : Config W S X E V) (s t : State W S X E V)
    : Type 0 where
  pub rows : total opens t.calls + total closes s.calls ≡ total opens s.calls + total closes t.calls
  pub txs : total begins t.calls + total ends s.calls ≡ total begins s.calls + total ends t.calls
  pub hooks :
      (if cfg.has_hook then total runs t.calls else 0) + length s.events
      ≡ (if cfg.has_hook then total runs s.calls else 0) + length t.events
