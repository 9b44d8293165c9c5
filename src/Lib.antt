-- ===== src/Lib.antt =====
-- Relica (github.com/coregx/relica), a SQL query builder for Go: a model of its core and the
-- theorems that make it correct.
--
-- Relica builds SQL from chained calls. Expressions and builders collect SQL text with one `?`
-- for each parameter, and the parameters in a slice beside it; at the end the `?` of a PostgreSQL
-- statement are replaced by `$1`, `$2`, …. What must hold is that text and parameters never get
-- out of step, that an identifier cannot escape from its quotes, and that the cache of prepared
-- statements neither leaks nor closes twice.
--
-- The files, and the code that each is about:
--   Text       strings as lists of Unicode code points, and the functions of Go's `strings` that
--              the code uses; Text/Decimal is `%d`, Text/Counts counts characters
--   Dialect    internal/dialects: `QuoteIdentifier`, `Placeholder`, `UpsertSQL`, the registry, and
--              `quoteColumn` of internal/core/expression.go; Dialect/Quote reads quoted names back
--   Exp        internal/core/expression.go, one file for each family: Compare (`RawExp`,
--              `CompareExp`, `ColumnCompareExp`), Between, In, Like, Logic (`AndOrExp`, `NotExp`,
--              `ExistsExp`), Hash; Exp/Func is internal/core/func_expressions.go
--   Params     `resolveNamedParams` of internal/core/builder.go and `bindParams` of
--              internal/core/params.go
--   Query      internal/core/builder.go: `Where`, `AndWhere`, `OrWhere` and the renumbering loop in
--              Query itself; Insert, Upsert, Update, Delete, BatchInsert and BatchUpdate are the
--              builders of those names; Select has the fields of `SelectQuery` and its calls,
--              Select/Clauses and Select/Sources its clauses, Select/Build `buildSQL`, `Build`,
--              `Count` and `Exists`. Query/Number, Slots, Takes, Binds and Where hold the lemmas on
--              numbering
--   Cache      internal/cache/stmt_cache.go, the LRU cache of prepared statements; Cache/Entries has
--              the lemmas on its list, Cache/Lru the list that it promises to be, the other
--              files the theorems
--   Security   internal/security/validator.go, the validator of queries and parameters
--   Log        internal/logger/sanitizer.go, which masks parameters in the log; Log/Errors is
--              internal/core/errors.go, Log/Masked holds the theorems
--   Advice     internal/optimizer/basic.go, covering.go and optimizer.go: the indexes recommended for a
--              parsed WHERE clause and for a query's columns; Advice/Where and Covering hold the
--              theorems
--   Db         internal/core/query.go, db.go, hooks.go, nullmap.go and params.go: package
--              database/sql as the record `Driver`, and the state that a run changes. Db/Operation
--              has the two detectors of a statement's kind, Db/Guard the validation, Db/Statement
--              `Prepare`, `Close` and `prepareStatement`, Db/Execute `Execute`, Db/Fetch `Row`, `One`,
--              `Column` and `All`, Db/Raw the methods of `DB` without a `Query`, Db/Tx transactions,
--              Db/Named `processSQL` and `BindParams`. Db/Health is the health checker of
--              internal/core/health.go. Db/Client, Blocked, Guarded, Reuse, Commit,
--              Answers and Open hold the theorems
--   Model      internal/core/model_query.go and internal/util/reflection.go: models. Model has the tags,
--              the map of a struct and its primary key, Model/Number the integers in a key,
--              Model/Statement `Update`, `UpdateChanged`, `Delete`, `Insert` and `Upsert` as far as
--              their statements; Model/Restricted and Changed hold the theorems
--   Prelude    shared names, Boolean tests, lists, sorting (`sort.Strings`) and Go maps
-- The files named Tests apply the theorems to examples; Exp/Values has the values they use.
--
-- How the code is modelled:
--   A string is its list of code points: the model is about valid UTF-8. A Go map with string keys
--   is an association list, whose order is one order in which `range` may visit it. A value of type
--   `interface{}` is an element of a type `V` with an instance of `Dynamic`: what a type switch
--   sees in it, how `fmt.Fprint` prints it, nil, and strings. An `Expression` is its `Build`
--   method, and a subquery its `buildSQL` at the time of nesting. Errors that a builder stores are
--   values of `BuildError`. The fields that only carry the database, the transaction and the
--   context to the query are left out. `EscapeChars` keeps its strings as pairs. A prepared
--   statement is an element of a type `S`; the calls of its `Close` are logged. Every method of the
--   cache holds the lock, so that a run is one sequence of calls. The counters wrap around at 2^64.
--   `%d` is computed on fuel of one more than the number, which is enough (`value-decimal` in
--   Text/Decimal).
--
--   An operation of a query is a function from a state to its answer and the next state. A state
--   has the database, an element of a type `W` that only the functions of `Driver` read; the
--   statement cache; and the calls made so far of database/sql, the query hook, the auditor and the
--   logger. `*sql.Rows` is the finite list of rows that `Next` steps through, with the error that
--   `Err` returns behind them. A query's operations are followed from the call to the return, the
--   deferred calls included; the loops are over the rows. `regexp` is a parameter, the record
--   `Regexp`, and for the sanitizer whether a field occurs in a text. The log's texts are lists of
--   bytes, since values are cut there at 100 bytes.
--   A model is the list of its fields, each with its name, its tag and its value; embedded structs
--   are fields like others there, as in the source. `reflect.DeepEqual` is a parameter, and so is
--   what reflection sees in a key, a `Cell`.
--
-- Words that the results use: `holes` counts the `?` of a text; a fragment is balanced
-- (`IsBalanced`) if it has one for each parameter; a text is quiet (`IsQuiet`) if it holds neither
-- `?` nor `$`, and clear (`IsClear`) if it holds no `$` and no digit behind a `?`; conditions are
-- sound (`IsSound`) if they are balanced and clear. `Takes d k n s` says that the text `s` takes `n`
-- parameters from index `k` on: for PostgreSQL no `?` is left and the placeholders, read off the
-- text by `slots`, are `k`, `k + 1`, …; for the other dialects there are `n` times `?`. A `?` or `$`
-- inside a quoted name or a literal counts as one, as it does in the source's own loops; hence the
-- hypotheses on names.
--
-- Not modelled: scanning into structs (reflection on field addresses), how a model's generated key
-- is read back, the names of its table, the exported wrappers of db.go in the root, the pool
-- statistics, durations and contexts, the attributes of log messages, analysis of query plans, the
-- optimizer's parser and its hints for a database, what the auditor writes; custom dialects; the
-- setters of `SelectQuery` that only append or assign; the `HitRate` of the statistics, a floating-
-- point number.
mod Prelude
pub mod Text
pub mod Dialect
pub mod Exp
pub mod Params
pub mod Query
pub mod Cache
pub mod Security
pub mod Log
pub mod Advice
pub mod Db
pub mod Model
