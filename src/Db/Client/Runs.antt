-- ===== src/Db/Client/Runs.antt =====
-- Any run of a client: its operations in any order, and transactions around such runs.
use relica.Prelude.{if◌then◌else◌, ℕ, ◌+◌, ◌≡◌, refl, List, [], ◌∷◌, Option, length, arith}
use relica.Text.{Text}
use relica.Exp.{Dynamic}
use relica.Db.{Call, Config, State, DbQuery, TxOptions}
use relica.Db.Statement.{prepare, close}
use relica.Db.Execute.{execute}
use relica.Db.Fetch.{Destination, NullStringMap, row, one, column, all}
use relica.Db.Raw.{warm_cache, pin_query, unpin_query, exec_context, query_context}
use relica.Db.Tx.{Outcome, transactional}
use relica.Db.Client.{Settles, total, opens, closes, begins, ends, runs, runs_any, passed_on}
use relica.Db.Client.Steps.{
  Settles-refl, Settles-trans, execute-Settles, row-Settles, one-Settles, column-Settles,
  all-Settles, prepare-Settles, close-Settles, warm_cache-Settles, exec_context-Settles,
  query_context-Settles, transactional-Settles, pin_query-Settles, unpin_query-Settles,
}

module _ {W S X E V : Type 0} ⦃dyn : Dynamic V⦄ (cfg : Config W S X E V) (P : Type 0) where
  -- One operation. The function of a transaction does as a client does, and ends as it likes: by
  -- an error, by nil or by a panic, which is a `P`.
  mutual
    pub data Step : State W S X E V → State W S X E V → Type 0 where
      prepares : (q : DbQuery S X E V) (s : State W S X E V) → Step s (prepare cfg q s).1
      closes_query : (q : DbQuery S X E V) (s : State W S X E V) → Step s (close cfg q s).2
      executes : (q : DbQuery S X E V) (s : State W S X E V) → Step s (execute cfg q s).1
      reads_row : (q : DbQuery S X E V) (n : ℕ) (s : State W S X E V) → Step s (row cfg q n s).1
      reads_one : (q : DbQuery S X E V) (s : State W S X E V) → Step s (one cfg q s).1
      reads_column :
          (q : DbQuery S X E V) (kind : Destination) (dest : List V) (s : State W S X E V)
          → Step s (column cfg q kind dest s).1
      reads_all :
          (q : DbQuery S X E V) (dest : List NullStringMap) (s : State W S X E V)
          → Step s (all cfg q dest s).1
      warms : (sqls : List Text) (s : State W S X E V) → Step s (warm_cache cfg sqls s).1
      pins : (sql : Text) (s : State W S X E V) → Step s (pin_query sql s).1
      unpins : (sql : Text) (s : State W S X E V) → Step s (unpin_query sql s).1
      passes_on :
          (sql : Text) (args : List V) (s : State W S X E V)
          → Step s (exec_context cfg sql args s).1
      passes_query_on :
          (sql : Text) (args : List V) (s : State W S X E V)
          → Step s (query_context cfg sql args s).1
      transacts :
          (options : Option TxOptions) (f : X → State W S X E V → Outcome E P × State W S X E V)
          (s : State W S X E V)
          → ((x : X) (u : State W S X E V) → Runs u (f x u).1)
          → Step s (transactional cfg options f s).1

    pub data Runs : State W S X E V → State W S X E V → Type 0 where
      done : (s : State W S X E V) → Runs s s
      next : {s t u : State W S X E V} → Step s t → Runs t u → Runs s u

  mutual
    Step-Settles : {s t : State W S X E V} → Step s t → Settles cfg s t
    Step-Settles (prepares q s) = prepare-Settles cfg q s
    Step-Settles (closes_query q s) = close-Settles cfg q s
    Step-Settles (executes q s) = execute-Settles cfg q s
    Step-Settles (reads_row q n s) = row-Settles cfg q n s
    Step-Settles (reads_one q s) = one-Settles cfg q s
    Step-Settles (reads_column q kind dest s) = column-Settles cfg q kind dest s
    Step-Settles (reads_all q dest s) = all-Settles cfg q dest s
    Step-Settles (warms sqls s) = warm_cache-Settles cfg sqls s
    Step-Settles (pins sql s) = pin_query-Settles cfg sql s
    Step-Settles (unpins sql s) = unpin_query-Settles cfg sql s
    Step-Settles (passes_on sql args s) = exec_context-Settles cfg sql args s
    Step-Settles (passes_query_on sql args s) = query_context-Settles cfg sql args s
    Step-Settles (transacts options f s h) =
        transactional-Settles cfg options f s (λ x u. Runs-Settles (h x u))

    Runs-Settles : {s t : State W S X E V} → Runs s t → Settles cfg s t
    Runs-Settles (done s) = Settles-refl s
    Runs-Settles (next st r) = Settles-trans (Step-Settles st) (Runs-Settles r)

-- All rows that a query opened are closed, all transactions that were begun are ended, and the hook,
-- if there is one, has had one event for each query that was run, but for the texts that were passed
-- on.
pub record IsSettled {W S X E V : Type 0} (cfg : Config W S X E V) (t : State W S X E V)
    : Type 0 where
  pub rows : total opens t.calls ≡ total closes t.calls
  pub txs : total begins t.calls ≡ total ends t.calls
  pub hooks :
      length t.events + (if cfg.has_hook then total passed_on t.calls else 0)
      ≡ (if cfg.has_hook then total runs_any t.calls else 0)

total-runs_any :
    {S X : Type 0} (cs : List (Call S X)) → total runs_any cs ≡ total runs cs + total passed_on cs
total-runs_any [] = refl
total-runs_any (c ∷ cs) = omega (arith, total-runs_any cs)

-- A client prepares, runs and closes queries, warms the cache, pins and unpins, calls `ExecContext`
-- and `QueryContext` of the `DB`, and `Transactional` with functions that do the same and may return
-- an error, panic or exit, in any order; it does not call `BeginTx`, whose transaction it would have
-- to end itself. From a start on at which nothing was called: all rows that its queries opened are
-- closed (those of `QueryContext` are the client's), all transactions that were begun are ended, and
-- the hook, if there is one, has had one event for each query that was run, except those that went
-- through `ExecContext` and `QueryContext` of the `DB`, for which it has none.
pub client-IsSettled :
    {W S X E V : Type 0} ⦃dyn : Dynamic V⦄ (cfg : Config W S X E V) (P : Type 0)
    (s t : State W S X E V)
    → s.calls ≡ []
    → s.events ≡ []
    → Runs cfg P s t
    → IsSettled cfg t
client-IsSettled cfg P s t c e r =
    let h = Runs-Settles cfg P r in
    let k : Settles cfg (record s { calls = []; events = [] }) t = ground (arith, h, c, e) in
    record {
      rows = omega (arith, k.rows);
      txs = omega (arith, k.txs);
      hooks = ground (arith, k.hooks, total-runs_any t.calls);
    }
