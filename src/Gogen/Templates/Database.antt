-- ===== src/Gogen/Templates/Database.antt =====
-- internal/emit/gogen/emit.go: the fixed texts of db_generated.go.
use sqlc_gen_unison.Base.{[], ◌∷◌, ◌++◌, Text, codes}
use sqlc_gen_unison.Gogen.Imports.{quoted}

-- The one character of the templates that is not of ASCII, in UTF-8.
abbrev pub dash : Text
dash = 226 ∷ 128 ∷ 148 ∷ []

-- `header`: the banner and the package clause.
unfoldable pub banner : Text → Text → Text → Text
banner sqlc_version unison_version name =
    codes "// Code generated by github.com/primandproper/sqlc-gen-unison. DO NOT EDIT.\n"
    ++ codes "//\n"
    ++ codes "// sqlc:   "
    ++ sqlc_version
    ++ codes "\n"
    ++ codes "// unison: "
    ++ unison_version
    ++ codes "\n"
    ++ codes "\n"
    ++ codes "package "
    ++ name
    ++ codes "\n"
    ++ codes "\n"

unfoldable pub dbtx_text : Text
dbtx_text =
    codes "// DBTX is what a generated method needs from a database handle.\n"
    ++ codes "//\n"
    ++ codes "// It is satisfied by *sql.DB, *sql.Tx, and *sql.Conn alike, and it is taken per\n"
    ++ codes "// call rather than held on the querier so that running a query inside a\n"
    ++ codes "// transaction is a different argument rather than a different querier.\n"
    ++ codes "type DBTX interface {\n"
    ++ codes "\tExecContext(context.Context, string, ...any) (sql.Result, error)\n"
    ++ codes "\tQueryContext(context.Context, string, ...any) (*sql.Rows, error)\n"
    ++ codes "\tQueryRowContext(context.Context, string, ...any) *sql.Row\n"
    ++ codes "}\n"
    ++ codes "\n"
    ++ codes "// Dialect names a SQL dialect this package was generated for.\n"
    ++ codes "//\n"
    ++ codes "// It is a type rather than a string so that naming one that was not generated\n"
    ++ codes "// is a compile error rather than an error value at startup.\n"
    ++ codes "type Dialect string\n"
    ++ codes "\n"

unfoldable pub prefix_text : Text → Text
prefix_text marker =
    codes "// prefixMarker stands where a table name begins in every statement below.\n"
    ++ codes "//\n"
    ++ codes "// The generator placed it using the analyzer's catalog, so it marks identifiers\n"
    ++ codes "// that are genuinely tables rather than words that look like them. New replaces\n"
    ++ codes "// it once per statement, at construction; nothing rewrites SQL at query time.\n"
    ++ codes "const prefixMarker = "
    ++ quoted marker
    ++ codes "\n"
    ++ codes "\n"

-- `slicePlaceholdersFunc`
unfoldable pub slice_placeholders_text : Text
slice_placeholders_text =
    codes "// slicePlaceholders renders what one list parameter expands to: a placeholder\n"
    ++ codes "// per element, comma-separated.\n"
    ++ codes "//\n"
    ++ codes "// An empty list renders NULL rather than nothing, because `IN ()` is a syntax\n"
    ++ codes "// error on MySQL and SQLite both. `IN (NULL)` is the predicate that matches no\n"
    ++ codes "// row, which is the same answer Postgres gives when an empty array is bound to\n"
    ++ codes "// `= ANY` "
    ++ dash
    ++ codes " so an empty list means the same thing on every dialect here.\n"
    ++ codes "func slicePlaceholders(placeholder string, n int) string {\n"
    ++ codes "\tif n == 0 {\n"
    ++ codes "\t\treturn \"NULL\"\n"
    ++ codes "\t}\n"
    ++ codes "\n"
    ++ codes "\treturn strings.TrimPrefix(strings.Repeat(\",\"+placeholder, n), \",\")\n"
    ++ codes "}\n"
    ++ codes "\n"

unfoldable pub new_text : Text
new_text =
    codes "// New returns the Querier for a dialect.\n"
    ++ codes "//\n"
    ++ codes "// Every dialect in the roster is compiled into this package; a caller\n"
    ++ codes "// instantiates the one their database speaks."

unfoldable pub new_prefix_text : Text
new_prefix_text =
    codes "// New returns the Querier for a dialect, with every table name prefixed.\n"
    ++ codes "//\n"
    ++ codes "// Every dialect in the roster is compiled into this package; a caller\n"
    ++ codes "// instantiates the one their database speaks. The prefix is substituted into\n"
    ++ codes "// each statement once, here, and the statements are held ready to run."
