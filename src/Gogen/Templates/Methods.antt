-- ===== src/Gogen/Templates/Methods.antt =====
-- internal/emit/gogen/queries.go and times.go: the fixed texts of a dialect's file.
use sqlc_gen_unison.Base.{◌++◌, Text, codes}
use sqlc_gen_unison.Gogen.Imports.{quoted}
use sqlc_gen_unison.Gogen.Templates.Database.{dash}

unfoldable pub receiver_text : Text → Text → Text
receiver_text receiver dialect =
    codes "// "
    ++ receiver
    ++ codes " answers every query in Querier against "
    ++ dialect
    ++ codes ".\n"
    ++ codes "type "
    ++ receiver
    ++ codes " struct {\n"

unfoldable pub assertions_text : Text
assertions_text =
    codes "// Shape assertions.\n"
    ++ codes "//\n"
    ++ codes "// Each conversion below compiles only if the shared type still has exactly\n"
    ++ codes "// these fields, with these types, in this order "
    ++ dash
    ++ codes " which is what makes a\n"
    ++ codes "// disagreement between dialects a compile error here rather than a\n"
    ++ codes "// transposition at run time.\n"
    ++ codes "var (\n"

unfoldable pub constructor_prefix_text : Text → Text → Text → Text
constructor_prefix_text constructor dialect receiver =
    codes "// "
    ++ constructor
    ++ codes " returns the "
    ++ dialect
    ++ codes " querier with prefix substituted into every\n"
    ++ codes "// table name the analyzer identified.\n"
    ++ codes "func "
    ++ constructor
    ++ codes "(prefix string) *"
    ++ receiver
    ++ codes " {\n"
    ++ codes "\treturn &"
    ++ receiver
    ++ codes "{\n"

unfoldable pub exec_rows_body : Text → Text → Text
exec_rows_body statement args =
    codes "\tresult, err := db.ExecContext(ctx, "
    ++ statement
    ++ args
    ++ codes ")\n"
    ++ codes "\tif err != nil {\n"
    ++ codes "\t\treturn 0, err\n"
    ++ codes "\t}\n"
    ++ codes "\n"
    ++ codes "\treturn result.RowsAffected()\n"

unfoldable pub one_body : Text → Text → Text → Text → Text
one_body statement args name targets =
    codes "\trow := db.QueryRowContext(ctx, "
    ++ statement
    ++ args
    ++ codes ")\n"
    ++ codes "\n"
    ++ codes "\tvar i "
    ++ name
    ++ codes "Row\n"
    ++ codes "\n"
    ++ codes "\terr := row.Scan("
    ++ targets
    ++ codes ")\n"
    ++ codes "\n"
    ++ codes "\treturn i, err\n"

unfoldable pub many_body : Text → Text → Text → Text → Text
many_body statement args name targets =
    codes "\trows, err := db.QueryContext(ctx, "
    ++ statement
    ++ args
    ++ codes ")\n"
    ++ codes "\tif err != nil {\n"
    ++ codes "\t\treturn nil, err\n"
    ++ codes "\t}\n"
    ++ codes "\n"
    ++ codes "\tdefer func() { _ = rows.Close() }()\n"
    ++ codes "\n"
    ++ codes "\tvar items []"
    ++ name
    ++ codes "Row\n"
    ++ codes "\n"
    ++ codes "\tfor rows.Next() {\n"
    ++ codes "\t\tvar i "
    ++ name
    ++ codes "Row\n"
    ++ codes "\n"
    ++ codes "\t\tif err := rows.Scan("
    ++ targets
    ++ codes "); err != nil {\n"
    ++ codes "\t\t\treturn nil, err\n"
    ++ codes "\t\t}\n"
    ++ codes "\n"
    ++ codes "\t\titems = append(items, i)\n"
    ++ codes "\t}\n"
    ++ codes "\n"
    ++ codes "\tif err := rows.Err(); err != nil {\n"
    ++ codes "\t\treturn nil, err\n"
    ++ codes "\t}\n"
    ++ codes "\n"
    ++ codes "\treturn items, nil\n"

-- The three functions that `writeTimeHelpers` may write.
unfoldable pub time_text : Text → Text → Text
time_text func layout =
    codes "// "
    ++ func
    ++ codes " renders a time argument as the text this engine stores timestamps as.\n"
    ++ codes "//\n"
    ++ codes "// This engine has no date type: a DATETIME column holds text, and a comparison\n"
    ++ codes "// between two of them compares two strings. What a driver writes for a bound\n"
    ++ codes "// time.Time is Go's own rendering of it, whose leading characters happen to be\n"
    ++ codes "// the stored shape "
    ++ dash
    ++ codes " but only while the value is UTC. A time carrying any other\n"
    ++ codes "// zone puts its own wall clock in those leading characters, so every window\n"
    ++ codes "// comparison is off by that offset, silently, and only for the callers whose\n"
    ++ codes "// clock is not UTC.\n"
    ++ codes "//\n"
    ++ codes "// Converting here is what makes the bound text the stored shape by\n"
    ++ codes "// construction rather than by accident, whatever zone the caller's time\n"
    ++ codes "// carries. The layout is whole seconds, which is what CURRENT_TIMESTAMP writes,\n"
    ++ codes "// so a bound value and a stored one are one shape rather than two that sort\n"
    ++ codes "// alike "
    ++ dash
    ++ codes " which does mean a sub-second time bound here is stored truncated to\n"
    ++ codes "// the second on this engine.\n"
    ++ codes "func "
    ++ func
    ++ codes "(t time.Time) string {\n"
    ++ codes "\treturn t.UTC().Format("
    ++ quoted layout
    ++ codes ")\n"
    ++ codes "}\n"
    ++ codes "\n"

unfoldable pub time_ptr_text : Text → Text → Text
time_ptr_text ptr_func func =
    codes "// "
    ++ ptr_func
    ++ codes " is "
    ++ func
    ++ codes " for a nullable argument. It preserves nil, so a\n"
    ++ codes "// field the caller left unset still binds NULL rather than the zero time.\n"
    ++ codes "func "
    ++ ptr_func
    ++ codes "(t *time.Time) any {\n"
    ++ codes "\tif t == nil {\n"
    ++ codes "\t\treturn nil\n"
    ++ codes "\t}\n"
    ++ codes "\n"
    ++ codes "\treturn "
    ++ func
    ++ codes "(*t)\n"
    ++ codes "}\n"
    ++ codes "\n"

unfoldable pub time_null_text : Text → Text → Text
time_null_text null_func func =
    codes "// "
    ++ null_func
    ++ codes " is "
    ++ func
    ++ codes " for a nullable argument under the database/sql\n"
    ++ codes "// nullable style. An invalid one binds NULL, which is what it says.\n"
    ++ codes "func "
    ++ null_func
    ++ codes "(t sql.NullTime) any {\n"
    ++ codes "\tif !t.Valid {\n"
    ++ codes "\t\treturn nil\n"
    ++ codes "\t}\n"
    ++ codes "\n"
    ++ codes "\treturn "
    ++ func
    ++ codes "(t.Time)\n"
    ++ codes "}\n"
    ++ codes "\n"
