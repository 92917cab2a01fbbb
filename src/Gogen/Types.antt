-- ===== src/Gogen/Types.antt =====
-- internal/emit/gogen/types.go: a field's type as Go source, with the import that it needs.
pub mod Total
pub mod Renders
use sqlc_gen_unison.Base.{
  ℕ, zero, suc, Bool, true, false, ◌&&◌, not, Option, none, some, List, [], ◌∷◌, ◌++◌, Text, codes,
  text_eq, ltb, ◌==◌, if◌then◌else◌, length, Result, ok, err, ◌>>=◌, ◌>>◌,
}
use sqlc_gen_unison.Ir.{
  Kind, kind_invalid, kind_string, kind_int64, kind_float64, kind_bool, kind_time, kind_bytes,
  FieldType,
}
use sqlc_gen_unison.Options.{null_sql}
use sqlc_gen_unison.Strings.{trim_space, cut_prefix, contains}
use sqlc_gen_unison.Gogen.Imports.{ImportSet, add}

-- The errors of the emitter, over the values that their messages show. `too_deep` is the model's own:
-- it stands for a run out of fuel.
pub data EmitError : Type 0 where
  untyped_field too_deep : EmitError
  no_null_wrapper : Kind → EmitError
  no_import_path no_type_name : Text → EmitError
  no_command : Text → EmitError
  no_statement : Text → Text → EmitError
  in_part : Text → EmitError → EmitError
  unparsable : Text → EmitError

-- A rendered text and the imports so far.
abbrev pub Rendered : Type 0
Rendered = Result EmitError (Text × ImportSet)

unfoldable pub plain_type : Kind → ImportSet → Rendered
plain_type kind_string imports = ok (codes "string", imports)
plain_type kind_int64 imports = ok (codes "int64", imports)
plain_type kind_float64 imports = ok (codes "float64", imports)
plain_type kind_bool imports = ok (codes "bool", imports)
plain_type kind_time imports = ok (codes "time.Time", add (codes "time") imports)
plain_type kind_bytes imports = ok (codes "[]byte", imports)
plain_type kind_invalid imports = err untyped_field

unfoldable pub sql_null_type : Kind → Result EmitError Text
sql_null_type kind_string = ok (codes "sql.NullString")
sql_null_type kind_int64 = ok (codes "sql.NullInt64")
sql_null_type kind_float64 = ok (codes "sql.NullFloat64")
sql_null_type kind_bool = ok (codes "sql.NullBool")
sql_null_type kind_time = ok (codes "sql.NullTime")
sql_null_type kind = err (no_null_wrapper kind)

-- What stands before and behind the last `b`: `strings.LastIndex` and the two slices.
unfoldable pub cut_last : ℕ → Text → Option (Text × Text)
cut_last b [] = none
cut_last b (c ∷ s) = elim (cut_last b s) [
  | some (before, behind) ↦ some (c ∷ before, behind)
  | none ↦ if c == b then some ([], s) else none
]

unfoldable pub last_element : Text → Text
unfolding cut_last
last_element path = elim (cut_last b'/' path) [ none ↦ path | some (_, behind) ↦ behind ]

-- A type with a slash, whose package is imported. The last dot has to lie behind the last slash.
unfoldable pub render_qualified : Text → ImportSet → Rendered
unfolding cut_last last_element
render_qualified override imports = elim (cut_last b'.' override) [
  | none ↦ err (no_type_name override)
  | some (import_path, type_name) ↦
      if contains type_name (codes "/")
      then err (no_type_name override)
      else ok (last_element import_path ++ codes "." ++ type_name, add import_path imports)
]

unfoldable pub render_plain : Text → ImportSet → Rendered
render_plain override imports =
    if not (contains override (codes "/"))
    then if contains override (codes ".")
      then err (no_import_path override)
      else ok (override, imports)
    else render_qualified override imports

-- `renderOverride`, which calls itself behind each star.
unfoldable pub render_starred : ℕ → Text → ImportSet → Rendered
render_starred zero override imports = err too_deep
render_starred (suc fuel) override imports =
    let trimmed = trim_space override in
    elim (cut_prefix trimmed (codes "*")) [
      | some pointee ↦ do
        (rendered, imports') ← render_starred fuel pointee imports
        ok (codes "*" ++ rendered, imports')
      | none ↦ render_plain trimmed imports
    ]

unfoldable pub render_override : Text → ImportSet → Rendered
unfolding render_starred render_plain render_qualified trim_space cut_prefix contains
render_override override imports = render_starred (suc (length override)) override imports

abbrev pub is_bytes : Kind → Bool
is_bytes kind_bytes = true
is_bytes _ = false

-- `goType` of a type that is no list.
unfoldable pub element_type : FieldType → Text → ImportSet → Rendered
element_type t null_as imports =
    if not (text_eq t.override [])
    then render_override t.override imports
    else if is_bytes t.kind
    then ok (codes "[]byte", imports)
    else if not t.nullable
    then plain_type t.kind imports
    else if text_eq null_as null_sql
    then (do rendered ← sql_null_type t.kind; ok (rendered, add (codes "database/sql") imports))
    else do (plain, imports') ← plain_type t.kind imports; ok (codes "*" ++ plain, imports')

unfoldable pub go_type : FieldType → Text → ImportSet → Rendered
unfolding element_type
go_type t null_as imports =
    if t.slice
    then (do
      (rendered, imports') ← element_type (record t { slice = false }) null_as imports
      ok (codes "[]" ++ rendered, imports'))
    else element_type t null_as imports
