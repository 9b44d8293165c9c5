-- ===== src/Db/Client/Steps.antt =====
-- Each operation closes the rows that it opens, and hands the hook one event for each `Query` it runs.
use relica.Prelude.{ℕ, ◌+◌, ◌≡◌, refl, true, List, [], ◌∷◌, Option, none, arith, ◌⊎◌, inl, inr}
use relica.Text.{Text}
use relica.Exp.{Dynamic}
use relica.Cache.{set}
use relica.Db.{note_call, began, Config, State, DbQuery, Result, ok, err, TxOptions}
use relica.Db.Guard.{validate_before_exec}
use relica.Db.Statement.{prepare, close, prepare_statement}
use relica.Db.Execute.{execute, execute_direct, execute_statement}
use relica.Db.Statement.{prepare_on}
use relica.Db.Raw.{pin_query, unpin_query, warm_from, warm_cache, exec_context, query_context}
use relica.Db.Tx.{Outcome, begin_tx, transactional}
use relica.Db.Fetch.{NullStringMap, Destination, row, one, column, all}
use relica.Db.Client.{Settles}

pub Result-cases :
    {E A : Type 0} (r : Result E A) → ((a : A) × (r ≡ ok a)) ⊎ ((e : E) × (r ≡ err e))
Result-cases (ok a) = inl (a, refl)
Result-cases (err e) = inr (e, refl)

module _ {W S X E V : Type 0} {cfg : Config W S X E V} where
  pub Settles-refl : (s : State W S X E V) → Settles cfg s s
  Settles-refl s = ground arith

  pub Settles-trans :
      {s t u : State W S X E V} → Settles cfg s t → Settles cfg t u → Settles cfg s u
  Settles-trans h k = record {
    rows = omega (arith, h.rows, k.rows);
    txs = omega (arith, h.txs, k.txs);
    hooks = ground (arith, h.hooks, k.hooks);
  }

module _ {W S X E V : Type 0} ⦃dyn : Dynamic V⦄ (cfg : Config W S X E V) where
  pub prepare_statement-Settles :
      (q : DbQuery S X E V) (st : State W S X E V) → Settles cfg st (prepare_statement cfg q st).1
  unfolding prepare_statement
  prepare_statement-Settles q st = ground arith

  pub execute_statement-Settles :
      (q : DbQuery S X E V) (s : S) (st : State W S X E V)
      → Settles cfg st (execute_statement cfg q s st).1
  execute_statement-Settles q s st = ground arith

  pub execute_direct-Settles :
      (q : DbQuery S X E V) (st : State W S X E V) → Settles cfg st (execute_direct cfg q st).1
  execute_direct-Settles q st = ground arith

  pub execute-Settles :
      (q : DbQuery S X E V) (st : State W S X E V) → Settles cfg st (execute cfg q st).1
  unfolding execute validate_before_exec prepare_statement
  execute-Settles q st = ground arith

  pub row-Settles :
      (q : DbQuery S X E V) (n : ℕ) (st : State W S X E V) → Settles cfg st (row cfg q n st).1
  unfolding row validate_before_exec prepare_statement
  row-Settles q n st = ground arith

  pub one-Settles : (q : DbQuery S X E V) (st : State W S X E V) → Settles cfg st (one cfg q st).1
  unfolding one validate_before_exec prepare_statement
  one-Settles q st = ground arith

  pub column-Settles :
      (q : DbQuery S X E V) (kind : Destination) (dest : List V) (st : State W S X E V)
      → Settles cfg st (column cfg q kind dest st).1
  unfolding column validate_before_exec prepare_statement
  column-Settles q kind dest st = ground arith

  pub all-Settles :
      (q : DbQuery S X E V) (dest : List NullStringMap) (st : State W S X E V)
      → Settles cfg st (all cfg q dest st).1
  unfolding all validate_before_exec prepare_statement
  all-Settles q dest st = ground arith

  pub exec_context-Settles :
      (sql : Text) (args : List V) (st : State W S X E V)
      → Settles cfg st (exec_context cfg sql args st).1
  unfolding exec_context
  exec_context-Settles sql args st = ground arith

  pub query_context-Settles :
      (sql : Text) (args : List V) (st : State W S X E V)
      → Settles cfg st (query_context cfg sql args st).1
  unfolding query_context
  query_context-Settles sql args st = ground arith

module _ {W S X E V : Type 0} (cfg : Config W S X E V) where
  pub prepare-Settles :
      (q : DbQuery S X E V) (st : State W S X E V) → Settles cfg st (prepare cfg q st).1
  unfolding prepare
  prepare-Settles q st = ground arith

  pub close-Settles :
      (q : DbQuery S X E V) (st : State W S X E V) → Settles cfg st (close cfg q st).2
  unfolding close
  close-Settles q st = ground arith

  warm_from-Settles :
      (n : ℕ) (sqls : List Text) (st : State W S X E V) → Settles cfg st (warm_from cfg n sqls st).1
  unfolding warm_from
  warm_from-Settles n [] st = ground arith
  warm_from-Settles n (sql ∷ sqls) st =
      let (r, st') = prepare_on cfg none sql st in
      elim (Result-cases r) [
        | inl (s, e) ↦
            let warm = record st' { cache = set sql s st'.cache } in
            rw (e, warm_from)
              (Settles-trans {t = warm} (ground arith) (warm_from-Settles (n + 1) sqls warm))
        | inr (x, e) ↦ rw (e, warm_from) (ground arith)
      ]

  pub warm_cache-Settles :
      (sqls : List Text) (st : State W S X E V) → Settles cfg st (warm_cache cfg sqls st).1
  unfolding warm_cache
  warm_cache-Settles sqls st = warm_from-Settles 0 sqls st

  pub pin_query-Settles : (sql : Text) (st : State W S X E V) → Settles cfg st (pin_query sql st).1
  unfolding pin_query
  pin_query-Settles sql st = ground arith

  pub unpin_query-Settles :
      (sql : Text) (st : State W S X E V) → Settles cfg st (unpin_query sql st).1
  unfolding unpin_query
  unpin_query-Settles sql st = ground arith

  -- The transaction that is begun is ended, whatever its function returns, a panic included.
  pub transactional-Settles :
      {P : Type 0} (options : Option TxOptions)
      (f : X → State W S X E V → Outcome E P × State W S X E V) (st : State W S X E V)
      → ((x : X) (u : State W S X E V) → Settles cfg u (f x u).1)
      → Settles cfg st (transactional cfg options f st).1
  unfolding transactional begin_tx
  transactional-Settles options f st h =
      let (r, w) = cfg.driver.begin_tx options st.world in
      elim (Result-cases r) [
        | inl (x, e) ↦
            let st' : State W S X E V = note_call (began true) w st in
            let s = h x st' in rw (e, transactional) (ground (arith, s))
        | inr (x, e) ↦ rw (e, transactional) (ground arith)
      ]
