-- ===== src/Gogen/Interface.antt =====
-- internal/emit/gogen/emit.go: types_generated.go and querier_generated.go. Imports are threaded
-- through, as the source's `imports` is shared.
use sqlc_gen_unison.Base.{
  Bool, true, false, not, List, [], ◌∷◌, ◌++◌, Text, codes, any, if◌then◌else◌, ◌==◌, length,
  Result, ok, err, ◌>>=◌, map_err,
}
use sqlc_gen_unison.Ir.{
  Field, Command, command_exec, command_one, command_many, command_exec_rows, command_exec_result,
  command_invalid, command_name, returns_rows, Query, Package,
}
use sqlc_gen_unison.Gogen.Names.{exported_name}
use sqlc_gen_unison.Gogen.Imports.{ImportSet, no_imports, add, render}
use sqlc_gen_unison.Gogen.Types.{EmitError, no_command, in_part, Rendered, go_type}
use sqlc_gen_unison.Gogen.Database.{header, has_slice_params}
use sqlc_gen_unison.Gogen.Templates.Interface.{querier_text, exec_rows_note, empty_list_note}

unfoldable pub write_fields : Text → List Field → ImportSet → Rendered
write_fields null_as [] imports = ok ([], imports)
write_fields null_as (f ∷ fields) imports = do
  (rendered, imports') ← go_type f.type null_as imports
  (rest, imports'') ← write_fields null_as fields imports'
  ok (codes "\t" ++ exported_name f.name ++ codes " " ++ rendered ++ codes "\n" ++ rest, imports'')

unfoldable pub params_struct : Text → Query → ImportSet → Rendered
params_struct null_as q imports = if length q.params == 0 then ok ([], imports) else do
  (fields, imports') ←
      map_err (in_part (q.name ++ codes " params")) (write_fields null_as q.params imports)
  ok (
    codes "// "
        ++ q.name
        ++ codes "Params are the arguments to "
        ++ q.name
        ++ codes ".\n"
        ++ codes "type "
        ++ q.name
        ++ codes "Params struct {\n"
        ++ fields
        ++ codes "}\n\n",
    imports',
  )

unfoldable pub row_struct : Text → Query → ImportSet → Rendered
row_struct null_as q imports = if not (returns_rows q.command) then ok ([], imports) else do
  (fields, imports') ←
      map_err (in_part (q.name ++ codes " row")) (write_fields null_as q.columns imports)
  ok (
    codes "// "
        ++ q.name
        ++ codes "Row is one row of "
        ++ q.name
        ++ codes "'s result.\n"
        ++ codes "type "
        ++ q.name
        ++ codes "Row struct {\n"
        ++ fields
        ++ codes "}\n\n",
    imports',
  )

unfoldable pub types_from : Text → List Query → ImportSet → Rendered
types_from null_as [] imports = ok ([], imports)
types_from null_as (q ∷ queries) imports = do
  (params, imports1) ← params_struct null_as q imports
  (row, imports2) ← row_struct null_as q imports1
  (rest, imports3) ← types_from null_as queries imports2
  ok (params ++ row ++ rest, imports3)

unfoldable pub emit_types : Package → Result EmitError Text
unfolding types_from
emit_types pkg = do
  (body, imports) ← types_from pkg.null_as pkg.queries no_imports
  ok (header pkg ++ render imports ++ body)

unfoldable pub method_results : Query → ImportSet → Rendered
method_results q imports = elim q.command [
  | command_exec ↦ ok (codes "error", imports)
  | command_exec_rows ↦ ok (codes "(int64, error)", imports)
  | command_exec_result ↦ ok (codes "(sql.Result, error)", add (codes "database/sql") imports)
  | command_one ↦ ok (codes "(" ++ q.name ++ codes "Row, error)", imports)
  | command_many ↦ ok (codes "([]" ++ q.name ++ codes "Row, error)", imports)
  | command_invalid ↦ err (no_command q.name)
]

unfoldable pub method_signature : Query → ImportSet → Rendered
method_signature q imports = do
  (results, imports') ← method_results q imports
  let arg = if length q.params == 0 then [] else codes ", arg " ++ q.name ++ codes "Params"
  ok (q.name ++ codes "(ctx context.Context, db DBTX" ++ arg ++ codes ") " ++ results, imports')

abbrev pub is_exec_rows : Command → Bool
is_exec_rows command_exec_rows = true
is_exec_rows _ = false

unfoldable pub has_exec_rows : Package → Bool
unfolding any
has_exec_rows pkg = any (λ q. is_exec_rows q.command) pkg.queries

unfoldable pub querier_from : List Query → ImportSet → Rendered
querier_from [] imports = ok ([], imports)
querier_from (q ∷ queries) imports = do
  (signature, imports1) ← method_signature q imports
  (rest, imports2) ← querier_from queries imports1
  ok (
    codes "\t// "
        ++ q.name
        ++ codes " runs the "
        ++ command_name q.command
        ++ codes " query.\n"
        ++ (if is_exec_rows q.command
            then codes
                "\t//\n\t// The count means different things on different engines; see the note\n\t// on Querier.\n"
            else [])
        ++ codes "\t"
        ++ signature
        ++ codes "\n"
        ++ rest,
    imports2,
  )

unfoldable pub emit_querier : Package → Result EmitError Text
unfolding querier_from has_exec_rows
emit_querier pkg = do
  (methods, imports) ← querier_from pkg.queries (add (codes "context") no_imports)
  ok (
      header pkg
      ++ render imports
      ++ querier_text
      ++ (if has_exec_rows pkg then exec_rows_note else [])
      ++ (if has_slice_params pkg then empty_list_note else [])
      ++ codes "type Querier interface {\n"
      ++ methods
      ++ codes "}\n")
