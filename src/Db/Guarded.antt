-- ===== src/Db/Guarded.antt =====
-- No text that the validator blocks is sent to the database to be run.
use relica.Prelude.{
  ℕ, ◌+◌, ◌≡◌, refl, ◌∙◌, Bool, true, false, List, [], ◌∷◌, Option, none, some, arith, inl, inr,
}
use relica.Text.{Text}
use relica.Exp.{Dynamic}
use relica.Cache.{set}
use relica.Security.{blocks_query}
use relica.Db.{
  Config, State, DbQuery, Call, executed_on, queried_on, raw_executed, raw_queried, TxOptions,
  note_call, began,
}
use relica.Db.Guard.{check, verdict, validate_before_exec}
use relica.Db.Statement.{prepare, close, prepare_statement, prepare_on}
use relica.Db.Execute.{execute}
use relica.Db.Fetch.{Destination, NullStringMap, row, one, column, all}
use relica.Db.Raw.{warm_from, warm_cache, pin_query, unpin_query, exec_context, query_context}
use relica.Db.Tx.{Outcome, begin_tx, transactional}
use relica.Db.Client.{one_if, total}
use relica.Db.Client.Steps.{Result-cases}
use relica.Db.Client.Runs.{
  Step, Runs, prepares, closes_query, executes, reads_row, reads_one, reads_column, reads_all,
  warms, pins, unpins, passes_on, passes_query_on, transacts, done, next,
}

module _ {W S X E V : Type 0} (cfg : Config W S X E V) where
  -- Whether `ValidateQuery` of the validator, if there is one, refuses the text.
  abbrev pub is_blocked : Text → Bool
  is_blocked sql = elim cfg.validator [ none ↦ false | some v ↦ blocks_query cfg.regexp v sql ]

  -- 1 for a call that runs a blocked text.
  abbrev pub sends_blocked : Call S X → ℕ
  sends_blocked (executed_on tx sql) = one_if (is_blocked sql)
  sends_blocked (queried_on tx sql b) = one_if (is_blocked sql)
  sends_blocked (raw_executed sql) = one_if (is_blocked sql)
  sends_blocked (raw_queried sql) = one_if (is_blocked sql)
  sends_blocked other_call = 0

  -- Not one such call more.
  abbrev IsClean : State W S X E V → State W S X E V → Type 0
  IsClean s t = total sends_blocked t.calls ≡ total sends_blocked s.calls

module _ {W S X E V : Type 0} ⦃dyn : Dynamic V⦄ (cfg : Config W S X E V) where
  execute-IsClean :
      (q : DbQuery S X E V) (st : State W S X E V) → IsClean cfg st (execute cfg q st).1
  unfolding execute validate_before_exec check verdict prepare_statement
  execute-IsClean q st = ground arith

  row-IsClean :
      (q : DbQuery S X E V) (n : ℕ) (st : State W S X E V) → IsClean cfg st (row cfg q n st).1
  unfolding row validate_before_exec check verdict prepare_statement
  row-IsClean q n st = ground arith

  one-IsClean : (q : DbQuery S X E V) (st : State W S X E V) → IsClean cfg st (one cfg q st).1
  unfolding one validate_before_exec check verdict prepare_statement
  one-IsClean q st = ground arith

  column-IsClean :
      (q : DbQuery S X E V) (kind : Destination) (dest : List V) (st : State W S X E V)
      → IsClean cfg st (column cfg q kind dest st).1
  unfolding column validate_before_exec check verdict prepare_statement
  column-IsClean q kind dest st = ground arith

  all-IsClean :
      (q : DbQuery S X E V) (dest : List NullStringMap) (st : State W S X E V)
      → IsClean cfg st (all cfg q dest st).1
  unfolding all validate_before_exec check verdict prepare_statement
  all-IsClean q dest st = ground arith

  exec_context-IsClean :
      (sql : Text) (args : List V) (st : State W S X E V)
      → IsClean cfg st (exec_context cfg sql args st).1
  unfolding exec_context check verdict
  exec_context-IsClean sql args st = ground arith

  query_context-IsClean :
      (sql : Text) (args : List V) (st : State W S X E V)
      → IsClean cfg st (query_context cfg sql args st).1
  unfolding query_context check verdict
  query_context-IsClean sql args st = ground arith

module _ {W S X E V : Type 0} (cfg : Config W S X E V) where
  prepare-IsClean :
      (q : DbQuery S X E V) (st : State W S X E V) → IsClean cfg st (prepare cfg q st).1
  unfolding prepare
  prepare-IsClean q st = ground arith

  close-IsClean : (q : DbQuery S X E V) (st : State W S X E V) → IsClean cfg st (close cfg q st).2
  unfolding close
  close-IsClean q st = ground arith

  warm_from-IsClean :
      (n : ℕ) (sqls : List Text) (st : State W S X E V) → IsClean cfg st (warm_from cfg n sqls st).1
  unfolding warm_from
  warm_from-IsClean n [] st = refl
  warm_from-IsClean n (sql ∷ sqls) st =
      let (r, st') = prepare_on cfg none sql st in
      elim (Result-cases r) [
        | inl (s, e) ↦
            let warm = record st' { cache = set sql s st'.cache } in
            rw (e, warm_from) (ground (arith, warm_from-IsClean (n + 1) sqls warm))
        | inr (x, e) ↦ rw (e, warm_from) (ground arith)
      ]

  warm_cache-IsClean :
      (sqls : List Text) (st : State W S X E V) → IsClean cfg st (warm_cache cfg sqls st).1
  unfolding warm_cache
  warm_cache-IsClean sqls st = warm_from-IsClean 0 sqls st

  pin_query-IsClean : (sql : Text) (st : State W S X E V) → IsClean cfg st (pin_query sql st).1
  unfolding pin_query
  pin_query-IsClean sql st = ground arith

  unpin_query-IsClean : (sql : Text) (st : State W S X E V) → IsClean cfg st (unpin_query sql st).1
  unfolding unpin_query
  unpin_query-IsClean sql st = ground arith

  transactional-IsClean :
      {P : Type 0} (options : Option TxOptions)
      (f : X → State W S X E V → Outcome E P × State W S X E V) (st : State W S X E V)
      → ((x : X) (u : State W S X E V) → IsClean cfg u (f x u).1)
      → IsClean cfg st (transactional cfg options f st).1
  unfolding transactional begin_tx
  transactional-IsClean options f st h =
      let (r, w) = cfg.driver.begin_tx options st.world in
      elim (Result-cases r) [
        | inl (x, e) ↦
            let st' : State W S X E V = note_call (began true) w st in
            let s = h x st' in rw (e, transactional) (ground (arith, s))
        | inr (x, e) ↦ rw (e, transactional) (ground arith)
      ]

module _ {W S X E V : Type 0} ⦃dyn : Dynamic V⦄ (cfg : Config W S X E V) (P : Type 0) where
  mutual
    Step-IsClean : {s t : State W S X E V} → Step cfg P s t → IsClean cfg s t
    Step-IsClean (prepares q s) = prepare-IsClean cfg q s
    Step-IsClean (closes_query q s) = close-IsClean cfg q s
    Step-IsClean (executes q s) = execute-IsClean cfg q s
    Step-IsClean (reads_row q n s) = row-IsClean cfg q n s
    Step-IsClean (reads_one q s) = one-IsClean cfg q s
    Step-IsClean (reads_column q kind dest s) = column-IsClean cfg q kind dest s
    Step-IsClean (reads_all q dest s) = all-IsClean cfg q dest s
    Step-IsClean (warms sqls s) = warm_cache-IsClean cfg sqls s
    Step-IsClean (pins sql s) = pin_query-IsClean cfg sql s
    Step-IsClean (unpins sql s) = unpin_query-IsClean cfg sql s
    Step-IsClean (passes_on sql args s) = exec_context-IsClean cfg sql args s
    Step-IsClean (passes_query_on sql args s) = query_context-IsClean cfg sql args s
    Step-IsClean (transacts options f s h) =
        transactional-IsClean cfg options f s (λ x u. Runs-IsClean (h x u))

    Runs-IsClean : {s t : State W S X E V} → Runs cfg P s t → IsClean cfg s t
    Runs-IsClean (done s) = refl
    Runs-IsClean (next st r) = Runs-IsClean r ∙ Step-IsClean st
