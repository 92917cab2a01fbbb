-- ===== src/Gogen/Database.antt =====
-- internal/emit/gogen/emit.go: db_generated.go. The errors of its signature never occur.
use sqlc_gen_unison.Base.{Bool, List, [], ◌∷◌, ◌++◌, Text, codes, any, if◌then◌else◌}
use sqlc_gen_unison.Ir.{Field, Package, prefix_marker}
use sqlc_gen_unison.Gogen.Names.{dialect_name, dialect_constructor}
use sqlc_gen_unison.Gogen.Imports.{ImportSet, no_imports, add, quoted, render}
use sqlc_gen_unison.Gogen.Templates.Database.{
  banner, dbtx_text, prefix_text, slice_placeholders_text, new_text, new_prefix_text,
}

unfoldable pub header : Package → Text
header pkg = banner pkg.sqlc_version pkg.unison_version pkg.name

abbrev pub is_slice : Field → Bool
is_slice f = f.type.slice

unfoldable pub has_slice_params : Package → Bool
unfolding any
has_slice_params pkg = any (λ q. any is_slice q.params) pkg.queries

unfoldable pub roster_consts : List Text → Text
roster_consts [] = []
roster_consts (dialect ∷ roster) =
    codes "\t// Dialect"
    ++ dialect_name dialect
    ++ codes " is "
    ++ dialect
    ++ codes ".\n"
    ++ codes "\tDialect"
    ++ dialect_name dialect
    ++ codes " Dialect = "
    ++ quoted dialect
    ++ codes "\n"
    ++ roster_consts roster

unfoldable pub roster_items : List Text → Text
roster_items [] = []
roster_items (dialect ∷ roster) =
    codes "\t\tDialect" ++ dialect_name dialect ++ codes ",\n" ++ roster_items roster

unfoldable pub roster_cases : Text → List Text → Text
roster_cases call_args [] = []
roster_cases call_args (dialect ∷ roster) =
    codes "\tcase Dialect"
    ++ dialect_name dialect
    ++ codes ":\n\t\treturn "
    ++ dialect_constructor dialect
    ++ call_args
    ++ codes ", nil\n"
    ++ roster_cases call_args roster

unfoldable pub new_func : Package → Text
unfolding roster_cases
new_func pkg =
    (if pkg.table_prefix then new_prefix_text else new_text)
    ++ codes "\n"
    ++ (if pkg.table_prefix
        then codes "func New(dialect Dialect, prefix string) (Querier, error) {"
        else codes "func New(dialect Dialect) (Querier, error) {")
    ++ codes "\n\tswitch dialect {\n"
    ++ roster_cases (if pkg.table_prefix then codes "(prefix)" else codes "()") pkg.roster
    ++ codes "\tdefault:\n\t\treturn nil, fmt.Errorf("
    ++ quoted (pkg.name ++ codes ": unknown dialect %q")
    ++ codes ", dialect)\n\t}\n}\n"

abbrev pub db_imports : Package → ImportSet
db_imports pkg =
    let base = add (codes "fmt") (add (codes "database/sql") (add (codes "context") no_imports)) in
    if has_slice_params pkg then add (codes "strings") base else base

unfoldable pub emit_db : Package → Text
unfolding header has_slice_params roster_consts roster_items new_func
emit_db pkg =
    header pkg
    ++ render (db_imports pkg)
    ++ dbtx_text
    ++ codes "const (\n"
    ++ roster_consts pkg.roster
    ++ codes ")\n\n"
    ++ codes
        "// Dialects lists every dialect this package was generated for, in a stable\n// order.\nfunc Dialects() []Dialect {\n\treturn []Dialect{\n"
    ++ roster_items pkg.roster
    ++ codes "\t}\n}\n\n"
    ++ (if pkg.table_prefix then prefix_text prefix_marker else [])
    ++ (if has_slice_params pkg then slice_placeholders_text else [])
    ++ new_func pkg
