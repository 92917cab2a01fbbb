-- ===== src/Gogen/Times/Spelled.antt =====
-- internal/emit/gogen/times.go: how each parameter should reach the driver, from its type alone.
use sqlc_gen_unison.Base.{
  Bool, true, false, ◌&&◌, ◌||◌, not, Option, none, some, List, [], ◌∷◌, ◌++◌, Text, codes, text_eq,
  if◌then◌else◌,
}
use sqlc_gen_unison.Ir.{kind_time, FieldType, Field, Query, Package}

abbrev pub field_of : Text → List Field → Option Field
field_of name [] = none
field_of name (f ∷ fields) = if text_eq f.name name then some f else field_of name fields

-- The engine has no date type, and the value is a time of the converged kind, not a consumer's own.
abbrev pub is_bound_as_text : Text → FieldType → Bool
is_bound_as_text layout t =
    not (text_eq layout []) && text_eq t.override [] && elim t.kind [ kind_time ↦ true | _ ↦ false ]

-- A field as a whole; a list is not bound as one.
abbrev pub value_text : Text → Text → FieldType → Text → Text
value_text layout null_as t field =
    if not (is_bound_as_text layout t) || t.slice
    then field
    else if not t.nullable
    then codes "timeText(" ++ field ++ codes ")"
    else if text_eq null_as (codes "sql")
    then codes "timeTextNull(" ++ field ++ codes ")"
    else codes "timeTextPtr(" ++ field ++ codes ")"

-- An element of a list.
abbrev pub element_text : Text → FieldType → Text → Text
element_text layout t element =
    if is_bound_as_text layout t && t.slice
    then codes "timeText(" ++ element ++ codes ")"
    else element

-- What is bound for the parameter of a name.
abbrev pub value_of_field : Package → Text → Option Field → Text
value_of_field pkg field none = field
value_of_field pkg field (some f) = value_text pkg.time_layout pkg.null_as f.type field

abbrev pub value_for : Package → Query → Text → Text → Text
value_for pkg query name field = value_of_field pkg field (field_of name query.params)

abbrev pub element_of_field : Package → Text → Option Field → Text
element_of_field pkg element none = element
element_of_field pkg element (some f) = element_text pkg.time_layout f.type element

abbrev pub element_for : Package → Query → Text → Text → Text
element_for pkg query name element = element_of_field pkg element (field_of name query.params)
