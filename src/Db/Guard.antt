-- ===== src/Db/Guard.antt =====
-- What is checked before the database is called.
use relica.Prelude.{List, ◌∷◌, if◌then◌else◌, Option, none, some}
use relica.Text.{Text, codes}
use relica.Exp.{Dynamic}
use relica.Security.{Validator, blocks_query, validate_params}
use relica.Db.{
  Config, State, DbQuery, Failure, blocked_query, blocked_params, security_event, Audit, log, error,
}

-- The kind under which a refusal is audited.
abbrev pub event_kind : {E : Type 0} → Failure E → Text
event_kind blocked_query = codes "query_blocked"
event_kind other_failure = codes "params_blocked"

module _ {W S X E V : Type 0} ⦃dyn : Dynamic V⦄ where
  -- What the validator says of a query and its parameters.
  unfoldable pub verdict : Config W S X E V → Validator → Text → List V → Option (Failure E)
  verdict cfg v sql args =
      if blocks_query cfg.regexp v sql
      then some blocked_query
      else elim (validate_params args) [ none ↦ none | some i ↦ some (blocked_params i) ]

  unfoldable pub check : Config W S X E V → Text → List V → Option (Failure E)
  unfolding verdict
  check cfg sql args = elim cfg.validator [ none ↦ none | some v ↦ verdict cfg v sql args ]

  -- The audit log after a check.
  abbrev pub report :
      Config W S X E V → Text → Option (Failure E) → List (Audit E V) → List (Audit E V)
  report cfg sql none noted = noted
  report cfg sql (some f) noted =
      if cfg.has_auditor then security_event (event_kind f) sql f ∷ noted else noted

  -- `validateQueryAndParams`.
  abbrev pub validate_query_and_params :
      Config W S X E V → Text → List V → State W S X E V → Option (Failure E) × State W S X E V
  validate_query_and_params cfg sql args st =
      let f = check cfg sql args in (f, record st { audits = report cfg sql f st.audits })

  -- `validateBeforeExec`.
  unfoldable pub validate_before_exec :
      Config W S X E V → DbQuery S X E V → State W S X E V → Option (Failure E) × State W S X E V
  validate_before_exec cfg q st = elim q.prep_err [
    | some f ↦ (some f, st)
    | none ↦ validate_query_and_params cfg q.sql q.params st
  ]

  -- The message of a query that is refused or cannot be prepared.
  abbrev pub log_refused : Config W S X E V → State W S X E V → State W S X E V
  log_refused cfg st = log cfg error (codes "query preparation failed") st
