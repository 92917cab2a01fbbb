-- ===== src/Converge/Requests.antt =====
-- internal/converge/converge.go: one query, and the whole request.
pub mod Commands
pub mod Packages
pub mod Settings
use sqlc_gen_unison.Base.{
  ℕ, Bool, true, false, not, Option, none, some, List, [], ◌∷◌, ◌++◌, Text, codes, text_eq,
  text_mem, ◌==◌, if◌then◌else◌, length, Result, ok, err, ◌>>=◌, ◌>>◌, refuse, map_err,
}
use sqlc_gen_unison.Base.Order.{text_le, sort_by}
use sqlc_gen_unison.Ir.{
  Command, command_exec, command_one, command_many, command_exec_rows, command_exec_result, Query,
  Statement, Package,
}
use sqlc_gen_unison.Options.{Options, renames}
use sqlc_gen_unison.Converge.Analysis.{
  AnalyzedQuery, Request, ConvergeError, no_engine, not_in_roster, no_queries, in_query,
  postgres_only, unknown_command,
}
use sqlc_gen_unison.Converge.Prefix.{Marked, mark_prefixes, user_tables}
use sqlc_gen_unison.Converge.Types.{time_layout}
use sqlc_gen_unison.Converge.Slices.{check_expansions}
use sqlc_gen_unison.Converge.Params.{converge_params}
use sqlc_gen_unison.Converge.Columns.{converge_columns}

unfoldable pub parse_command : Text → Result ConvergeError Command
parse_command cmd =
    if text_eq cmd (codes ":exec")
    then ok command_exec
    else if text_eq cmd (codes ":one")
    then ok command_one
    else if text_eq cmd (codes ":many")
    then ok command_many
    else if text_eq cmd (codes ":execrows")
    then ok command_exec_rows
    else if text_eq cmd (codes ":execresult")
    then ok command_exec_result
    else if text_eq cmd (codes ":copyfrom")
    then err (postgres_only cmd)
    else err (unknown_command cmd)

-- A converged query, this dialect's statement, and the tables that the log warns of.
pub record Converged : Type 0 where
  pub shared : Query
  pub statement : Statement
  pub warned : List Text

unfoldable pub marked_text : Options → List Text → Text → Marked
marked_text opts tables text =
    if opts.table_prefix_var then mark_prefixes text tables else record { text = text; warned = [] }

module _ (opts : Options) (renames : List (Text × Text)) (tables : List Text) where
  unfoldable pub converge_query : AnalyzedQuery → Result ConvergeError Converged
  converge_query query = do
    let within = in_query query.name
    command ← map_err within (parse_command query.cmd)
    (params, args) ← map_err within (converge_params opts renames query.params)
    columns ← map_err within (converge_columns opts query.columns command)
    let marked = marked_text opts tables query.text
    map_err within (check_expansions marked.text args)
    ok (record {
      shared = record { name = query.name; params = params; columns = columns; command = command };
      statement = record { name = query.name; sql = marked.text; args = args };
      warned = marked.warned;
    })

  unfoldable pub converge_queries : List AnalyzedQuery → Result ConvergeError (List Converged)
  converge_queries [] = ok []
  converge_queries (query ∷ queries) = do
    first ← converge_query query
    rest ← converge_queries queries
    ok (first ∷ rest)

abbrev pub query_le : AnalyzedQuery → AnalyzedQuery → Bool
query_le a b = text_le a.name b.name

unfoldable pub shared_of : List Converged → List Query
shared_of [] = []
shared_of (c ∷ cs) = c.shared ∷ shared_of cs

unfoldable pub statements_of : List Converged → List Statement
statements_of [] = []
statements_of (c ∷ cs) = c.statement ∷ statements_of cs

-- `Package` of the source, which is also the name of its result.
unfoldable pub converge_package : Request → Options → Text → Result ConvergeError Package
unfolding shared_of statements_of
converge_package request opts unison_version = do
  let dialect = request.engine
  refuse (text_eq dialect []) no_engine
  refuse (not (text_mem dialect opts.roster)) (not_in_roster dialect opts.roster)
  let tables = user_tables request.catalog
  let queries = sort_by query_le request.queries
  converged ← converge_queries opts (renames opts dialect) tables queries
  refuse (length converged == 0) (no_queries dialect)
  ok (record {
    name = opts.package_name;
    dialect = dialect;
    sqlc_version = request.sqlc_version;
    unison_version = unison_version;
    null_as = opts.null_as;
    time_layout = time_layout dialect;
    roster = opts.roster;
    queries = shared_of converged;
    statements = statements_of converged;
    table_prefix = opts.table_prefix_var;
  })
