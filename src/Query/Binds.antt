-- ===== src/Query/Binds.antt =====
-- A statement that was built, with the parameters that its placeholders stand for.
use relica.Prelude.{◌≡◌, List, none, length, subst}
use relica.Dialect.{Dialect}
use relica.Query.{Query}
use relica.Query.Takes.{Takes}

-- There is no error, the parameters are these, in this order, and the text takes all of them from
-- the first on.
pub record Binds {V : Type 0} (d : Dialect) (args : List V) (r : Query V) : Type 0 where
  pub succeeds : r.prep_err ≡ none
  pub params : r.params ≡ args
  pub takes : Takes d 1 (length args) r.sql

pub binds :
    {V : Type 0} {d : Dialect} {args : List V} {r : Query V}
    → r.prep_err ≡ none
    → r.params ≡ args
    → Takes d 1 (length r.params) r.sql
    → Binds d args r
binds {d = d} {r = r} e p t = record {
  succeeds = e;
  params = p;
  takes = subst (λ xs. Takes d 1 (length xs) r.sql) p t;
}
