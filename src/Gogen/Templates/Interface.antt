-- ===== src/Gogen/Templates/Interface.antt =====
-- internal/emit/gogen/emit.go: the fixed texts of querier_generated.go.
use sqlc_gen_unison.Base.{◌++◌, Text, codes}
use sqlc_gen_unison.Gogen.Templates.Database.{dash}

unfoldable pub querier_text : Text
querier_text =
    codes "// Querier is every query in this package, with one signature per query\n"
    ++ codes "// regardless of which dialect answers it.\n"
    ++ codes "//\n"
    ++ codes "// That is the point of this package: the params type, the row type, and the\n"
    ++ codes "// method signature are the same on every dialect, so nothing above this line\n"
    ++ codes "// knows or cares which database is underneath.\n"

-- `execRowsNote`
unfoldable pub exec_rows_note : Text
exec_rows_note =
    codes "//\n"
    ++ codes "// # A note on the :execrows count\n"
    ++ codes "//\n"
    ++ codes "// MySQL reports rows *changed*: an UPDATE that sets a column to the value it\n"
    ++ codes "// already held affects zero rows there. Postgres and SQLite report rows\n"
    ++ codes "// *matched*, and count that same UPDATE as one.\n"
    ++ codes "//\n"
    ++ codes "// So a statement that gates on the count "
    ++ dash
    ++ codes " treating zero as \"not found\" "
    ++ dash
    ++ codes " is\n"
    ++ codes "// correct on two engines and wrong on the third. Either give it a predicate\n"
    ++ codes "// that discriminates, or set clientFoundRows=true in the MySQL DSN, which\n"
    ++ codes "// switches MySQL to matched semantics.\n"

-- `emptyListNote`
unfoldable pub empty_list_note : Text
empty_list_note =
    codes "//\n"
    ++ codes "// # A note on empty lists\n"
    ++ codes "//\n"
    ++ codes "// A list parameter that is empty matches nothing, on every dialect: Postgres\n"
    ++ codes "// binds an empty array to `= ANY`, and the other two expand to `IN (NULL)` because\n"
    ++ codes "// `IN ()` is a syntax error there. Asking for the rows whose key is in an empty\n"
    ++ codes "// set gets no rows back, which is what the empty set says, so a caller does not\n"
    ++ codes "// have to guard the call.\n"
    ++ codes "//\n"
    ++ codes "// The negation is where they part company, and nothing below can warn you. An\n"
    ++ codes "// empty list makes `NOT IN (NULL)` never true, so it matches nothing, while\n"
    ++ codes "// Postgres's empty `<> ALL` is true and matches everything. Both readings are\n"
    ++ codes "// defensible and no shared signature can say which was meant "
    ++ dash
    ++ codes " so test\n"
    ++ codes "// membership rather than its negation, and let the caller decide what an empty\n"
    ++ codes "// set means before it calls.\n"
