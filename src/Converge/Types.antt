-- ===== src/Converge/Types.antt =====
-- internal/converge/types.go and times.go: the one table from the engines' type names to kinds.
pub mod Spelling
pub mod Mapped
use sqlc_gen_unison.Base.{
  ℕ, Bool, true, false, ◌||◌, not, Option, none, some, List, [], ◌∷◌, ◌++◌, Text, codes, text_eq,
  if◌then◌else◌, Result, ok, err,
}
use sqlc_gen_unison.Ir.{
  Kind, kind_invalid, kind_string, kind_int64, kind_float64, kind_bool, kind_time, kind_bytes,
  FieldType,
}
use sqlc_gen_unison.Options.{map_get, wildcard_key, column_key}
use sqlc_gen_unison.Strings.{trim_space, to_lower, trim_prefix, trim_suffix, cut_at}
use sqlc_gen_unison.Converge.Analysis.{ConvergeError, unresolved_type, unmapped_type}

unfoldable pub all_of : Kind → List Text → List (Text × Kind)
all_of kind [] = []
all_of kind (name ∷ names) = (name, kind) ∷ all_of kind names

unfoldable pub engine_types : List (Text × Kind)
unfolding all_of
engine_types =
    all_of kind_string (
      codes "text"
      ∷ codes "varchar"
      ∷ codes "char"
      ∷ codes "bpchar"
      ∷ codes "character"
      ∷ codes "character varying"
      ∷ codes "nvarchar"
      ∷ codes "tinytext"
      ∷ codes "mediumtext"
      ∷ codes "longtext"
      ∷ codes "clob"
      ∷ codes "uuid"
      ∷ [])
    ++ all_of kind_time (
        codes "timestamptz"
        ∷ codes "timestamp"
        ∷ codes "timestamp with time zone"
        ∷ codes "timestamp without time zone"
        ∷ codes "datetime"
        ∷ codes "date"
        ∷ codes "time"
        ∷ [])
    ++ all_of kind_bool (codes "bool" ∷ codes "boolean" ∷ codes "tinyint" ∷ [])
    ++ all_of kind_int64 (
        codes "bigint"
        ∷ codes "int8"
        ∷ codes "integer"
        ∷ codes "int"
        ∷ codes "int4"
        ∷ codes "mediumint"
        ∷ codes "smallint"
        ∷ codes "int2"
        ∷ codes "serial"
        ∷ codes "bigserial"
        ∷ codes "int unsigned"
        ∷ [])
    ++ all_of kind_float64 (
        codes "double"
        ∷ codes "double precision"
        ∷ codes "float"
        ∷ codes "float4"
        ∷ codes "float8"
        ∷ codes "real"
        ∷ [])
    ++ all_of kind_bytes (
        codes "blob"
        ∷ codes "bytea"
        ∷ codes "binary"
        ∷ codes "varbinary"
        ∷ codes "tinyblob"
        ∷ codes "mediumblob"
        ∷ codes "longblob"
        ∷ [])

abbrev pub catalog_qualifier : Text
catalog_qualifier = codes "pg_catalog."

abbrev pub unsigned : Text
unsigned = codes " unsigned"

-- What stands before a parenthesis, trimmed, if there is one.
unfoldable pub drop_length : Text → Text
unfolding cut_at trim_space
drop_length name = elim (cut_at b'(' name) [ none ↦ name | some before ↦ trim_space before ]

unfoldable pub normalize_type_name : Text → Text
unfolding drop_length to_lower trim_space trim_prefix trim_suffix
normalize_type_name name =
    trim_suffix (drop_length (trim_prefix (to_lower (trim_space name)) catalog_qualifier)) unsigned

unfoldable pub unmapped_type_error : Text → Text → Text → ConvergeError
unmapped_type_error table column engine_type =
    let where' = if text_eq table [] then column else column_key table column in
    if text_eq (normalize_type_name engine_type) (codes "any") || text_eq engine_type []
    then unresolved_type where' (wildcard_key column)
    else unmapped_type where' engine_type (wildcard_key column)

unfoldable pub map_type :
    Text → Text → Text → Bool → (Text → Text → Option Text) → Result ConvergeError FieldType
map_type table column engine_type not_null override = elim (override table column) [
  | some go_type ↦
      ok (record { override = go_type; kind = kind_invalid; nullable = false; slice = false })
  | none ↦ elim (map_get (normalize_type_name engine_type) engine_types) [
    | none ↦ err (unmapped_type_error table column engine_type)
    | some kind ↦ ok (record { override = []; kind = kind; nullable = not not_null; slice = false })
  ]
]

abbrev pub text_time_layout : Text
text_time_layout = codes "2006-01-02 15:04:05"

unfoldable pub time_layout : Text → Text
time_layout dialect = if text_eq dialect (codes "sqlite") then text_time_layout else []
