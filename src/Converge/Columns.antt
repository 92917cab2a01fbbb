-- ===== src/Converge/Columns.antt =====
-- internal/converge/converge.go, `convergeColumns`: the projection as the row's fields.
pub mod Rows
use sqlc_gen_unison.Base.{
  ℕ, suc, ◌+◌, Bool, true, false, not, Option, none, some, List, [], ◌∷◌, ◌++◌, Text, codes,
  text_eq, ◌==◌, if◌then◌else◌, length, Result, ok, err, ◌>>=◌, ◌>>◌, refuse,
}
use sqlc_gen_unison.Ir.{FieldType, Field, Command, returns_rows}
use sqlc_gen_unison.Options.{Options, map_get, override_for}
use sqlc_gen_unison.Converge.Analysis.{
  Column, ConvergeError, no_columns, unnamed_column, repeated_column,
}
use sqlc_gen_unison.Converge.Types.{map_type}

-- An absent column is one whose getters read zero, so its name is the empty one.
unfoldable pub column_type_name : Column → Text
column_type_name column =
    if column.is_array then column.type_name ++ codes "[]" else column.type_name

unfoldable pub refuse_seen : Text → ℕ → List (Text × ℕ) → Result ConvergeError (Unit {0})
refuse_seen name i seen = elim (map_get name seen) [
  | none ↦ ok tt
  | some first ↦ err (repeated_column name (first + 1) (i + 1))
]

module _ (opts : Options) where
  -- The loop at index `i`; the fields that it appends are those of what is left.
  unfoldable pub columns_from :
      ℕ → List (Text × ℕ) → List Column → Result ConvergeError (List Field)
  columns_from i seen [] = ok []
  columns_from i seen (column ∷ rest) = do
    refuse (text_eq column.name []) (unnamed_column (i + 1))
    refuse_seen column.name i seen
    t ←
        map_type column.table_name column.name (column_type_name column) column.not_null
          (override_for opts)
    fields ← columns_from (i + 1) ((column.name, i) ∷ seen) rest
    ok (record { name = column.name; type = t } ∷ fields)

  unfoldable pub converge_columns : List Column → Command → Result ConvergeError (List Field)
  unfolding columns_from
  converge_columns columns command =
      if not (returns_rows command)
      then ok []
      else if length columns == 0
      then err (no_columns command)
      else columns_from 0 [] columns
