-- ===== src/Db/Tests.antt =====
-- Tests and examples of running queries, over a small database.
use relica.Prelude.{
  ℕ, suc, ◌≡◌, refl, true, false, List, [], ◌∷◌, ◌++◌, map, Option, none, some, if◌then◌else◌,
}
use relica.Prelude.Ints.{pos}
use mathlib.Core.List.{Mem, Nodup, Nodup-nil, not-mem-nil}
use relica.Prelude.Maps.{text_eq, lookup}
use relica.Text.{split}
use relica.Text.Decimal.{decimal}
use relica.Text.Trim.{trim_space}
use relica.Dialect.{quote_column, quote_identifier, placeholder}
use relica.Params.{scan, bind_params}
use relica.Query.Takes.{Takes}
use relica.Cache.Ownership.{owned}
use relica.Db.Statement.{cached_statement}
use relica.Db.Open.{cached_statement-open, race_closes}
use relica.Db.Named.{process_sql, bind_named}
use relica.Db.Named.Bound.{process_sql-Takes, bind_named-values}
use relica.Text.{Text, codes, contains}
use relica.Exp.Values.{Val, dynamic_val}
use relica.Exp.Values
use relica.Dialect.{postgres}
use relica.Cache.{StmtCache, new_stmt_cache, get, set}
use relica.Security.{Regexp}
use relica.Db.{
  Driver, Config, State, DbQuery, Failure, Result, ok, err, Row, Rows, SqlResult, TxOptions,
  executed, build_error, driver_error, no_record, new_query,
}
use relica.Query.{no_updates}
use relica.Db.Guard.{validate_before_exec, check}
use relica.Db.Execute.{execute}
use relica.Db.Fetch.{row, all, scan_map_rows}
use relica.Db.Tx.{Outcome, panicked, begin_tx, transactional}
use relica.Db.Client.Runs.{client-IsSettled, IsSettled, done, next, executes, transacts, reads_row}
use relica.Db.Client.{total, ends}
use relica.Db.Reuse.{execute-again}
use relica.Db.Commit.{transactional-Ending, Ending}
use relica.Db.Blocked.{refusal}
use relica.Db.Answers.{all-ok, Succeeded}

abbrev broken : Text
broken = codes "connection lost"

abbrev two_columns : Row Text Val
two_columns = record {
  scan = λ (n : ℕ). ok (Values.num 7 ∷ []);
  scan_strings = λ (n : ℕ). ok (some (codes "7") ∷ none ∷ []);
}

abbrev result : SqlResult Text
result = record { rows_affected = (pos 1, none); last_insert_id = (pos 9, none) }

abbrev one_row : Rows Text Val
one_row = record {
  columns = ok (codes "id" ∷ codes "name" ∷ []);
  rows = two_columns ∷ [];
  failure = none;
}

abbrev cut_off : Rows Text Val
cut_off = record { columns = ok (codes "id" ∷ []); rows = []; failure = some broken }

-- The state is the number of the next statement; "BROKEN" gives rows that break off.
abbrev small : Driver ℕ ℕ ℕ Text Val
small = record {
  prepare = λ tx sql w. (ok w, suc w);
  exec_stmt = λ s args w. (ok result, w);
  query_stmt = λ s args w. (ok one_row, w);
  exec_direct = λ tx sql args w. (ok result, w);
  query_direct =
      λ tx sql args w. (ok (if text_eq sql (codes "BROKEN") then cut_off else one_row), w);
  close_stmt = λ s w. (none, w);
  close_rows = λ w. w;
  begin_tx = λ options w. (ok w, suc w);
  commit = λ x w. (none, w);
  rollback = λ x w. (none, w);
  close_db = λ w. (none, w);
}

abbrev substring : Regexp
substring = record { compiles = λ p. true; matches = λ p s. contains s p }

abbrev plain_config : Config ℕ ℕ ℕ Text Val
plain_config = record {
  driver = small;
  dialect = postgres;
  has_logger = true;
  has_hook = true;
  has_auditor = true;
  regexp = substring;
  validator = none;
}

abbrev guarded : Config ℕ ℕ ℕ Text Val
guarded = record plain_config {
  validator = some (record { patterns = codes "DROP" ∷ []; strict = false });
}

abbrev fresh : State ℕ ℕ ℕ Text Val
fresh = record {
  world = 1;
  cache = new_stmt_cache;
  calls = [];
  events = [];
  audits = [];
  logs = [];
}

abbrev touch : Option ℕ → DbQuery ℕ ℕ Text Val
touch tx = record {
  sql = codes "UPDATE t SET a = 1";
  params = [];
  tx = tx;
  stmt = none;
  prepared = false;
  prep_err = none;
}

abbrev in_tx : ℕ → State ℕ ℕ ℕ Text Val → Outcome Text ℕ × State ℕ ℕ ℕ Text Val
in_tx x u = (panicked 3, (execute plain_config (touch (some x)) u).1)

client-IsSettled_example :
    IsSettled plain_config
      (transactional plain_config none in_tx (row plain_config (touch none) 1 fresh).1).1
client-IsSettled_example =
    client-IsSettled plain_config ℕ fresh
      (transactional plain_config none in_tx (row plain_config (touch none) 1 fresh).1).1 refl refl
      (next (reads_row (touch none) 1 fresh) (
        next
          (transacts none in_tx (row plain_config (touch none) 1 fresh).1 (λ x u.
            next (executes (touch (some x)) u) (done (execute plain_config (touch (some x)) u).1)))
          (done
            (transactional plain_config none in_tx (row plain_config (touch none) 1 fresh).1).1)))

abbrev unbuilt : DbQuery ℕ ℕ Text Val
unbuilt = record (touch none) { prep_err = some (build_error no_updates) }

abbrev read_one_row : DbQuery ℕ ℕ Text Val
read_one_row = record (touch (some 4)) { sql = codes "SELECT id, name FROM t" }

transactional-Ending_example :
    (total ends (transactional plain_config none in_tx fresh).1.calls
      ≡ suc (total ends fresh.calls))
    × Ending plain_config 1
        (panicked 3)
        (in_tx 1 (begin_tx plain_config none fresh).1).1
        (transactional plain_config none in_tx fresh).0
        (transactional plain_config none in_tx fresh).1
unfolding begin_tx execute validate_before_exec check
transactional-Ending_example = transactional-Ending plain_config none in_tx 1 fresh refl refl

execute-again_example :
    (s : ℕ) × ((get
        (codes "UPDATE t SET a = 1")
        (execute plain_config (touch none) fresh).1.cache).0
      ≡ some s)
    × ((execute plain_config (touch none) (execute plain_config (touch none) fresh).1).1.calls
        ≡ executed s ∷ (execute plain_config (touch none) fresh).1.calls)
unfolding execute relica.Db.Guard.validate_before_exec relica.Db.Statement.prepare_statement check
    get set
execute-again_example =
    execute-again plain_config (touch none) (touch none) result fresh
      (record { no_tx = refl; unprepared = refl; no_error = refl; allowed = refl })
      (record { no_tx = refl; unprepared = refl; no_error = refl; allowed = refl }) refl refl

all-ok_example :
    (refusal plain_config read_one_row ≡ none)
    × Succeeded plain_config read_one_row []
        (validate_before_exec plain_config read_one_row fresh).1
        (all plain_config read_one_row [] fresh)
unfolding all validate_before_exec check scan_map_rows
all-ok_example = all-ok plain_config read_one_row [] fresh refl

abbrev cached_sql : Text
cached_sql = codes "SELECT 1"

cached_statement-open_example :
    (¬ Mem 1 (cached_statement plain_config cached_sql fresh).1.cache.closed)
    × Nodup (owned (cached_statement plain_config cached_sql fresh).1.cache)
unfolding get
cached_statement-open_example =
    cached_statement-open plain_config cached_sql fresh 1 Nodup-nil (λ x h. not-mem-nil) refl

abbrev held : StmtCache ℕ
held = new_stmt_cache

race_closes_example :
    ((get cached_sql held).0 ≡ none)
    × ((get cached_sql (get cached_sql held).1).0 ≡ none)
    × ((set cached_sql 2 (set cached_sql 1 (get cached_sql (get cached_sql held).1).1)).closed
        ≡ (set cached_sql 1 (get cached_sql (get cached_sql held).1).1).closed ++ 1 ∷ [])
race_closes_example = race_closes cached_sql 1 2 held refl

abbrev by_name : DbQuery ℕ ℕ Text Val
by_name = record (touch none) { sql = codes "a = {:x} OR b = {:y} OR {{t}}.c = {:x}" }

abbrev two_params : List (Text × Val)
two_params = (codes "x", Values.num 1) ∷ (codes "y", Values.num 2) ∷ []

processed :
    process_sql postgres (codes "SELECT [[a]] FROM {{ s . t }} WHERE b = {:x} AND c={:y}")
    ≡ (codes "SELECT \"a\" FROM \"s\".\"t\" WHERE b = $1 AND c=$2", codes "x" ∷ codes "y" ∷ [])
unfolding process_sql scan quote_column quote_identifier split placeholder decimal trim_space
processed = refl

process_sql-Takes_example :
    ((process_sql postgres (codes "={:x},{:y}")).1 ≡ codes "x" ∷ codes "y" ∷ [])
    × Takes postgres 1 2 (process_sql postgres (codes "={:x},{:y}")).0
unfolding scan process_sql
process_sql-Takes_example =
    process_sql-Takes postgres (codes "={:x},{:y}") (refl, refl, (refl, (refl, refl, (refl, tt))))
      ((refl, refl), ((refl, refl), tt))

bind_named-values_example :
    map (λ n. lookup n two_params) (codes "x" ∷ codes "y" ∷ codes "x" ∷ [])
    ≡ map some (bind_named postgres two_params by_name).params
unfolding bind_named process_sql bind_params scan
bind_named-values_example = bind_named-values postgres two_params by_name refl
