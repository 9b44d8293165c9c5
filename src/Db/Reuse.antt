-- ===== src/Db/Reuse.antt =====
-- The statement cache under the queries: what was prepared once is not prepared again.
use relica.Prelude.{◌≡◌, false, ◌∷◌, none, some, arith, inl, inr}
use relica.Text.{Text}
use relica.Exp.{Dynamic}
use relica.Cache.{get}
use relica.Cache.Reads.{get-get, get-set}
use relica.Db.{Config, State, DbQuery, ok, SqlResult, executed}
use relica.Db.Guard.{check, validate_before_exec}
use relica.Db.Statement.{prepare_statement, cached_statement}
use relica.Db.Execute.{execute}
use relica.Db.Client.Steps.{Result-cases}

module _ {W S X E V : Type 0} (cfg : Config W S X E V) where
  -- The statement that a query gets is in the cache then, under its text.
  pub cached_statement-get :
      (sql : Text) (s : S) (st : State W S X E V)
      → (cached_statement cfg sql st).0 ≡ ok s
      → (get sql (cached_statement cfg sql st).1.cache).0 ≡ some s
  cached_statement-get sql s st h =
      ground (arith, get-get sql sql st.cache, get-set sql s (get sql st.cache).1)

module _ {W S X E V : Type 0} ⦃dyn : Dynamic V⦄ (cfg : Config W S X E V) where
  -- A query outside a transaction, not prepared by its client, that may run.
  pub record IsPlain (q : DbQuery S X E V) : Type 0 where
    pub no_tx : q.tx ≡ none
    pub unprepared : q.prepared ≡ false
    pub no_error : q.prep_err ≡ none
    pub allowed : check cfg q.sql q.params ≡ none

  execute-hit :
      (q : DbQuery S X E V) (s : S) (st : State W S X E V)
      → IsPlain q
      → (get q.sql st.cache).0 ≡ some s
      → (execute cfg q st).1.calls ≡ executed s ∷ st.calls
  unfolding execute validate_before_exec prepare_statement
  execute-hit q s st p h = ground (arith, p.no_tx, p.unprepared, p.no_error, p.allowed)

  -- Where a plain query returns a result, its statement was run and is in the cache then.
  execute-statement :
      (q : DbQuery S X E V) (r : SqlResult E) (st : State W S X E V)
      → IsPlain q
      → (execute cfg q st).0 ≡ ok r
      → (s : S) × ((get q.sql (execute cfg q st).1.cache).0 ≡ some s)
  unfolding execute validate_before_exec prepare_statement
  execute-statement q r st p h =
      let cached = λ (s : S). cached_statement-get cfg q.sql s st in
      elim (Result-cases (cached_statement cfg q.sql st).0) [
        | inl (s, e) ↦ (s, ground (arith, cached s e, p.no_tx, p.unprepared, p.no_error, p.allowed))
        | inr (f, e) ↦ ground (arith, p.no_tx, p.unprepared, p.no_error, p.allowed)
      ]

  -- After a plain query that returned a result, `Execute` of a plain query with the same text,
  -- whatever its parameters, prepares nothing: its one call of the database runs the statement
  -- that the first put into the cache.
  pub execute-again :
      (q q' : DbQuery S X E V) (r : SqlResult E) (st : State W S X E V)
      → IsPlain q
      → IsPlain q'
      → q'.sql ≡ q.sql
      → (execute cfg q st).0 ≡ ok r
      → (s : S) × ((get q.sql (execute cfg q st).1.cache).0 ≡ some s)
        × ((execute cfg q' (execute cfg q st).1).1.calls ≡ executed s ∷ (execute cfg q st).1.calls)
  execute-again q q' r st p p' same h =
      let (s, e) = execute-statement q r st p h in
      (s, e, execute-hit q' s (execute cfg q st).1 p' (rw same e))
