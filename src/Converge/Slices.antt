-- ===== src/Converge/Slices.antt =====
-- internal/converge/slices.go: how a dialect binds a list, and where its expansion may stand.
pub mod Sites
use sqlc_gen_unison.Base.{
  ℕ, suc, ◌+◌, Bool, true, false, not, List, [], ◌∷◌, ◌++◌, Text, codes, text_eq, ltb, ◌==◌,
  if◌then◌else◌, length, Result, ok, err,
}
use sqlc_gen_unison.Ir.{Arg}
use sqlc_gen_unison.Strings.{count}
use sqlc_gen_unison.Converge.Analysis.{
  Column, ConvergeError, many_dims, missing_site, list_not_last,
}

pub data ListKind : Type 0 where
  not_a_list bound_list expanded_list : ListKind

abbrev pub slice_placeholder : Text
slice_placeholder = codes "?"

abbrev pub slice_marker : Text → Text
slice_marker reported = codes "/*SLICE:" ++ reported ++ codes "*/" ++ slice_placeholder

unfoldable pub list_of : Column → Result ConvergeError ListKind
list_of column =
    if column.is_sqlc_slice
    then ok expanded_list
    else if column.is_array
    then if ltb 1 column.array_dims then err (many_dims column.array_dims) else ok bound_list
    else ok not_a_list

-- A column that is absent has the empty type name, as the source's test says once more.
unfoldable pub element_type_name : Column → Text
element_type_name column = column.type_name

-- `i` placeholders of `total` stand before these.
unfoldable pub check_from : Text → ℕ → ℕ → List Arg → Result ConvergeError (Unit {0})
check_from text i total [] = ok tt
check_from text i total (arg ∷ args) =
    if text_eq arg.expand []
    then check_from text (i + 1) total args
    else if not (count text arg.expand == 1)
    then err (missing_site arg.name (count text arg.expand))
    else if not (i + 1 == total)
    then err (list_not_last arg.name (i + 1) total)
    else check_from text (i + 1) total args

unfoldable pub check_expansions : Text → List Arg → Result ConvergeError (Unit {0})
unfolding check_from
check_expansions text args = check_from text 0 (length args) args
