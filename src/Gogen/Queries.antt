-- ===== src/Gogen/Queries.antt =====
-- internal/emit/gogen/queries.go: the file of one dialect. Imports are threaded through, as the
-- source's `imports` is shared.
pub mod Methods
pub mod Literals
pub mod Expansion
pub mod Assertions
pub mod Capacity
pub mod Lines
pub mod Appends
pub mod Arguments
pub mod Terms
pub mod Evaluated
use sqlc_gen_unison.Base.{
  Bool, true, false, not, Option, none, some, List, [], ◌∷◌, ◌++◌, Text, codes, text_eq,
  if◌then◌else◌, ◌==◌, length, Result, ok, err, ◌>>=◌, map_err,
}
use sqlc_gen_unison.Ir.{Field, returns_rows, Query, Statement, Package}
use sqlc_gen_unison.Strings.{replace_all}
use sqlc_gen_unison.Gogen.Names.{
  exported_name, unexported_name, dialect_name, dialect_receiver, dialect_constructor,
}
use sqlc_gen_unison.Gogen.Imports.{ImportSet, no_imports, add, render}
use sqlc_gen_unison.Gogen.Types.{EmitError, no_statement, in_part, Rendered, go_type}
use sqlc_gen_unison.Gogen.Database.{header}
use sqlc_gen_unison.Gogen.Times.{write_time_helpers}
use sqlc_gen_unison.Gogen.Queries.Methods.{write_method}
use sqlc_gen_unison.Gogen.Templates.Methods.{
  receiver_text, assertions_text, constructor_prefix_text,
}

unfoldable pub statement_const_name : Text → Text → Text
statement_const_name query dialect = unexported_name query ++ dialect_name dialect

unfoldable pub escape_backticks : Text → Text
escape_backticks sql = replace_all sql (codes "`") (codes "` + \"`\" + `")

unfoldable pub write_statement_consts : Text → List Statement → Text
write_statement_consts dialect [] = []
write_statement_consts dialect (s ∷ statements) =
    codes "const "
    ++ statement_const_name s.name dialect
    ++ codes " = `"
    ++ escape_backticks s.sql
    ++ codes "`\n\n"
    ++ write_statement_consts dialect statements

unfoldable pub receiver_fields : List Query → Text
receiver_fields [] = []
receiver_fields (q ∷ queries) =
    codes "\t" ++ unexported_name q.name ++ codes " string\n" ++ receiver_fields queries

unfoldable pub constructor_fields : Text → Bool → List Query → Text
constructor_fields dialect prefixed [] = []
constructor_fields dialect prefixed (q ∷ queries) =
    codes "\t\t"
    ++ unexported_name q.name
    ++ codes ": "
    ++ (if prefixed
        then codes "strings.ReplaceAll("
          ++ statement_const_name q.name dialect
          ++ codes ", prefixMarker, prefix)"
        else statement_const_name q.name dialect)
    ++ codes ",\n"
    ++ constructor_fields dialect prefixed queries

unfoldable pub write_constructor : Package → Text → Text
unfolding constructor_fields
write_constructor pkg receiver =
    let constructor = dialect_constructor pkg.dialect in
    (if pkg.table_prefix
      then constructor_prefix_text constructor pkg.dialect receiver
      else codes "// "
        ++ constructor
        ++ codes " returns the "
        ++ pkg.dialect
        ++ codes " querier.\nfunc "
        ++ constructor
        ++ codes "() *"
        ++ receiver
        ++ codes " {\n\treturn &"
        ++ receiver
        ++ codes "{\n")
    ++ constructor_fields pkg.dialect pkg.table_prefix pkg.queries
    ++ codes "\t}\n}\n\n"

unfoldable pub assertion_fields : Text → List Field → ImportSet → Rendered
assertion_fields null_as [] imports = ok ([], imports)
assertion_fields null_as (f ∷ fields) imports = do
  (rendered, imports') ← go_type f.type null_as imports
  (rest, imports'') ← assertion_fields null_as fields imports'
  ok (
    codes "\t\t" ++ exported_name f.name ++ codes " " ++ rendered ++ codes "\n" ++ rest,
    imports'',
  )

unfoldable pub write_shape_assertion : Text → Text → List Field → ImportSet → Rendered
unfolding assertion_fields
write_shape_assertion null_as type_name fields imports = do
  (body, imports') ← map_err (in_part type_name) (assertion_fields null_as fields imports)
  ok (codes "\t_ = struct {\n" ++ body ++ codes "\t}(" ++ type_name ++ codes "{})\n", imports')

unfoldable pub query_assertions : Text → Query → ImportSet → Rendered
query_assertions null_as q imports = do
  (params, imports1) ←
      if length q.params == 0
      then ok ([], imports)
      else write_shape_assertion null_as (q.name ++ codes "Params") q.params imports
  (row, imports2) ←
      if returns_rows q.command
      then write_shape_assertion null_as (q.name ++ codes "Row") q.columns imports1
      else ok ([], imports1)
  ok (params ++ row, imports2)

unfoldable pub assertions_from : Text → List Query → ImportSet → Rendered
assertions_from null_as [] imports = ok ([], imports)
assertions_from null_as (q ∷ queries) imports = do
  (here, imports1) ← query_assertions null_as q imports
  (rest, imports2) ← assertions_from null_as queries imports1
  ok (here ++ rest, imports2)

unfoldable pub write_shape_assertions : Package → ImportSet → Rendered
unfolding assertions_from
write_shape_assertions pkg imports = do
  (body, imports') ← assertions_from pkg.null_as pkg.queries imports
  ok (assertions_text ++ body ++ codes ")\n\n", imports')

-- The map `statements`: the last statement of a name.
unfoldable pub statement_for : Text → List Statement → Option Statement
statement_for name [] = none
statement_for name (s ∷ statements) = elim (statement_for name statements) [
  | some later ↦ some later
  | none ↦ if text_eq s.name name then some s else none
]

unfoldable pub methods_from : Package → List Query → ImportSet → Rendered
methods_from pkg [] imports = ok ([], imports)
methods_from pkg (q ∷ queries) imports = do
  (here, imports1) ← elim (statement_for q.name pkg.statements) [
    | none ↦ err (no_statement q.name pkg.dialect)
    | some s ↦ write_method pkg (dialect_receiver pkg.dialect) q s imports
  ]
  (rest, imports2) ← methods_from pkg queries imports1
  ok (here ++ rest, imports2)

unfoldable pub query_imports : Package → ImportSet
query_imports pkg =
    let base = add (codes "context") no_imports in
    if pkg.table_prefix then add (codes "strings") base else base

unfoldable pub emit_queries : Package → Result EmitError Text
unfolding methods_from write_statement_consts receiver_fields query_imports
emit_queries pkg = do
  let receiver = dialect_receiver pkg.dialect
  let (helpers, imports1) = write_time_helpers pkg (query_imports pkg)
  (methods, imports2) ← methods_from pkg pkg.queries imports1
  (assertions, imports3) ← write_shape_assertions pkg imports2
  ok (
      header pkg
      ++ render imports3
      ++ write_statement_consts pkg.dialect pkg.statements
      ++ receiver_text receiver pkg.dialect
      ++ receiver_fields pkg.queries
      ++ codes "}\n\n"
      ++ write_constructor pkg receiver
      ++ helpers
      ++ methods
      ++ assertions)
