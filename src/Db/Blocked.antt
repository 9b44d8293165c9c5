-- ===== src/Db/Blocked.antt =====
-- A query that is refused before it reaches the database.
use relica.Prelude.{ℕ, ◌≡◌, List, Option, none, some, arith}
use relica.Text.{Text}
use relica.Exp.{Dynamic}
use relica.Db.{Config, State, DbQuery, Failure, err}
use relica.Db.Guard.{check, validate_before_exec}
use relica.Db.Execute.{execute}
use relica.Db.Fetch.{Destination, NullStringMap, row, one, column, all}
use relica.Db.Raw.{exec_context, query_context}

-- Nothing happened but messages to the logger and the auditor.
pub record IsUntouched {W S X E V : Type 0} (s t : State W S X E V) : Type 0 where
  pub world : t.world ≡ s.world
  pub cache : t.cache ≡ s.cache
  pub calls : t.calls ≡ s.calls
  pub events : t.events ≡ s.events

module _ {W S X E V : Type 0} ⦃dyn : Dynamic V⦄ (cfg : Config W S X E V) where
  -- Why a query must not run: a stored error, or the validator's.
  abbrev pub refusal : DbQuery S X E V → Option (Failure E)
  refusal q = elim q.prep_err [ some f ↦ some f | none ↦ check cfg q.sql q.params ]

  execute-blocked :
      (q : DbQuery S X E V) (f : Failure E) (st : State W S X E V)
      → refusal q ≡ some f
      → ((execute cfg q st).0 ≡ err f) × IsUntouched st (execute cfg q st).1
  unfolding execute validate_before_exec
  execute-blocked q f st h = ground arith

  row-blocked :
      (q : DbQuery S X E V) (f : Failure E) (n : ℕ) (st : State W S X E V)
      → refusal q ≡ some f
      → ((row cfg q n st).0 ≡ err f) × IsUntouched st (row cfg q n st).1
  unfolding row validate_before_exec
  row-blocked q f n st h = ground arith

  one-blocked :
      (q : DbQuery S X E V) (f : Failure E) (st : State W S X E V)
      → refusal q ≡ some f
      → ((one cfg q st).0 ≡ err f) × IsUntouched st (one cfg q st).1
  unfolding one validate_before_exec
  one-blocked q f st h = ground arith

  column-blocked :
      (q : DbQuery S X E V) (f : Failure E) (kind : Destination) (dest : List V)
      (st : State W S X E V)
      → refusal q ≡ some f
      → ((column cfg q kind dest st).0 ≡ (some f, dest))
        × IsUntouched st (column cfg q kind dest st).1
  unfolding column validate_before_exec
  column-blocked q f kind dest st h = ground arith

  all-blocked :
      (q : DbQuery S X E V) (f : Failure E) (dest : List NullStringMap) (st : State W S X E V)
      → refusal q ≡ some f
      → ((all cfg q dest st).0 ≡ (some f, dest)) × IsUntouched st (all cfg q dest st).1
  unfolding all validate_before_exec
  all-blocked q f dest st h = ground arith

  -- A query with a stored error, or one that the validator refuses, returns that error from
  -- `Execute`, `Row`, `One`, `Column` and `All`, and neither the database nor the statement cache
  -- nor the query hook is called; what `Column` and `All` were given stays.
  pub run-blocked :
      (q : DbQuery S X E V) (f : Failure E) (n : ℕ) (kind : Destination) (dest : List V)
      (maps : List NullStringMap) (st : State W S X E V)
      → refusal q ≡ some f
      → (((execute cfg q st).0 ≡ err f) × IsUntouched st (execute cfg q st).1)
        × (((row cfg q n st).0 ≡ err f) × IsUntouched st (row cfg q n st).1)
        × (((one cfg q st).0 ≡ err f) × IsUntouched st (one cfg q st).1)
        × (((column cfg q kind dest st).0 ≡ (some f, dest))
            × IsUntouched st (column cfg q kind dest st).1)
        × (((all cfg q maps st).0 ≡ (some f, maps)) × IsUntouched st (all cfg q maps st).1)
  run-blocked q f n kind dest maps st h = (
    execute-blocked q f st h,
    row-blocked q f n st h,
    one-blocked q f st h,
    column-blocked q f kind dest st h,
    all-blocked q f maps st h,
  )

  -- What `ExecContext` and `QueryContext` of a `DB` refuse does not reach the database either.
  pub raw-blocked :
      (sql : Text) (args : List V) (f : Failure E) (st : State W S X E V)
      → check cfg sql args ≡ some f
      → (((exec_context cfg sql args st).0 ≡ err f)
          × IsUntouched st (exec_context cfg sql args st).1)
        × (((query_context cfg sql args st).0 ≡ err f)
            × IsUntouched st (query_context cfg sql args st).1)
  unfolding exec_context query_context
  raw-blocked sql args f st h = ground arith
