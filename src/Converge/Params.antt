-- ===== src/Converge/Params.antt =====
-- internal/converge/converge.go, `convergeParams`: the distinct parameters, and which of them each
-- placeholder binds. The three variables of the loop are the state of one step.
pub mod Names
pub mod Shapes
pub mod Bindings
pub mod Fields
use sqlc_gen_unison.Base.{
  ℕ, Bool, true, false, ◌&&◌, not, Option, none, some, List, [], ◌∷◌, ◌++◌, Text, codes, text_eq,
  if◌then◌else◌, Result, ok, err, ◌>>=◌, ◌>>◌, refuse, map_err,
}
use sqlc_gen_unison.Ir.{
  Kind, kind_invalid, kind_string, kind_int64, kind_float64, kind_bool, kind_time, kind_bytes,
  kind_name, FieldType, Field, Arg,
}
use sqlc_gen_unison.Options.{Options, map_get, override_for}
use sqlc_gen_unison.Converge.Analysis.{
  Column, Parameter, ConvergeError, unnamed_param, in_param, nullable_list, retyped_param,
  rebound_list,
}
use sqlc_gen_unison.Converge.Types.{map_type}
use sqlc_gen_unison.Converge.Slices.{
  ListKind, not_a_list, bound_list, expanded_list, list_of, element_type_name, slice_marker,
  slice_placeholder,
}

-- A type as an error message shows it.
unfoldable pub describe : FieldType → Text
unfolding text_eq kind_name
describe t =
    let bare = if text_eq t.override [] then kind_name t.kind else t.override in
    let name = if t.nullable then codes "nullable " ++ bare else bare in
    if t.slice then codes "a list of " ++ name else name

unfoldable pub kind_eq : Kind → Kind → Bool
kind_eq kind_invalid kind_invalid = true
kind_eq kind_string kind_string = true
kind_eq kind_int64 kind_int64 = true
kind_eq kind_float64 kind_float64 = true
kind_eq kind_bool kind_bool = true
kind_eq kind_time kind_time = true
kind_eq kind_bytes kind_bytes = true
kind_eq _ _ = false

abbrev bool_eq : Bool → Bool → Bool
bool_eq a b = if a then b else not b

-- `==` on two types: all their fields agree.
unfoldable pub type_eq : FieldType → FieldType → Bool
unfolding kind_eq
type_eq a b =
    text_eq a.override b.override
    && kind_eq a.kind b.kind
    && bool_eq a.nullable b.nullable
    && bool_eq a.slice b.slice

pub record Params : Type 0 where
  pub params : List Field
  pub args : List Arg
  pub seen : List (Text × FieldType)

abbrev pub renamed : List (Text × Text) → Text → Text
renamed renames reported = elim (map_get reported renames) [ none ↦ reported | some name ↦ name ]

abbrev pub is_list : ListKind → Bool
is_list not_a_list = false
is_list _ = true

-- The map `seen` and the list of fields, for a parameter of this name and type.
unfoldable pub see : Text → FieldType → Params → Result ConvergeError Params
see name t st = elim (map_get name st.seen) [
  | some previous ↦
      if not (type_eq previous t)
      then err (retyped_param name (describe previous) (describe t))
      else if t.slice
      then err (rebound_list name)
      else ok st
  | none ↦ ok (record st {
    params = st.params ++ record { name = name; type = t } ∷ [];
    seen = (name, t) ∷ st.seen;
  })
]

unfoldable pub bind_arg : Text → Text → ListKind → Arg
bind_arg name reported expanded_list = record {
  name = name;
  expand = slice_marker reported;
  placeholder = slice_placeholder;
}
bind_arg name reported _ = record { name = name; expand = []; placeholder = [] }

module _ (opts : Options) (renames : List (Text × Text)) where
  -- One round of the loop.
  unfoldable pub converge_param : Params → Parameter → Result ConvergeError Params
  converge_param st param = do
    let column = param.column
    refuse (text_eq column.name []) (unnamed_param param.number)
    let name = renamed renames column.name
    list ← map_err (in_param name) (list_of column)
    mapped ←
        map_type column.table_name name (element_type_name column) column.not_null
          (override_for opts)
    let t = record mapped { slice = is_list list }
    refuse (t.slice && t.nullable) (nullable_list name)
    st' ← see name t st
    ok (record st' { args = st'.args ++ bind_arg name column.name list ∷ [] })

  unfoldable pub params_from : Params → List Parameter → Result ConvergeError Params
  params_from st [] = ok st
  params_from st (param ∷ rest) = do st' ← converge_param st param; params_from st' rest

  unfoldable pub converge_params : List Parameter → Result ConvergeError (List Field × List Arg)
  converge_params params = do
    st ← params_from (record { params = []; args = []; seen = [] }) params
    ok (st.params, st.args)
