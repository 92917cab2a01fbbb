-- ===== src/Options.antt =====
-- internal/options/options.go: the settings that every invocation receives. A Go map is a list of
-- its entries, and a method that changes its receiver returns the new one, or the error.
pub mod Normalize
pub mod Override
use sqlc_gen_unison.Base.{
  ℕ, Bool, true, false, ◌&&◌, ◌||◌, not, Option, none, some, List, [], ◌∷◌, ◌++◌, Text, codes,
  text_eq, ◌==◌, if◌then◌else◌, length, Result, ok, err, ◌>>=◌, ◌>>◌, refuse, any,
}
use sqlc_gen_unison.Base.Order.{text_le, sort_by}
use sqlc_gen_unison.Strings.{trim_space}

pub record TypeOverride : Type 0 where
  pub column : Text
  pub go_type : Text

pub record Options : Type 0 where
  pub rename_params : List (Text × List (Text × Text))
  pub package_name : Text
  pub null_as : Text
  pub roster : List Text
  pub type_overrides : List TypeOverride
  pub table_prefix_var : Bool

abbrev pub null_pointer : Text
null_pointer = codes "pointer"

abbrev pub null_sql : Text
null_sql = codes "sql"

pub data OptionsError : Type 0 where
  no_options unreadable_options no_package no_roster : OptionsError
  repeated_dialect : List Text → OptionsError
  unknown_null_as : Text → OptionsError
  incomplete_override : TypeOverride → OptionsError

-- `slices.Compact`
unfoldable pub compact : List Text → List Text
compact [] = []
compact (x ∷ []) = x ∷ []
compact (x ∷ y ∷ ys) = let rest = compact (y ∷ ys) in if text_eq x y then rest else x ∷ rest

unfoldable pub null_style : Text → Result OptionsError Text
null_style style =
    if text_eq style []
    then ok null_pointer
    else if text_eq style null_pointer || text_eq style null_sql
    then ok style
    else err (unknown_null_as style)

abbrev pub override_le : TypeOverride → TypeOverride → Bool
override_le a b = text_le a.column b.column

abbrev pub is_incomplete : TypeOverride → Bool
is_incomplete o = text_eq o.column [] || text_eq o.go_type []

unfoldable pub check_overrides : List TypeOverride → Result OptionsError (Unit {0})
check_overrides [] = ok tt
check_overrides (o ∷ rest) =
    if is_incomplete o then err (incomplete_override o) else check_overrides rest

unfoldable pub normalize : Options → Result OptionsError Options
normalize o = do
  refuse (text_eq (trim_space o.package_name) []) no_package
  refuse (length o.roster == 0) no_roster
  let roster = sort_by text_le o.roster
  refuse (not (length (compact roster) == length roster)) (repeated_dialect roster)
  null_as ← null_style o.null_as
  let overrides = sort_by override_le o.type_overrides
  check_overrides overrides
  ok (record o { null_as = null_as; roster = roster; type_overrides = overrides })

-- `decode` is the JSON decoder of the standard library over the fields of `Options`, with unknown
-- fields refused: `none` where it reports an error.
unfoldable pub parse : (Text → Option Options) → Text → Result OptionsError Options
parse decode raw =
    if length raw == 0
    then err no_options
    else elim (decode raw) [ none ↦ err unreadable_options | some opts ↦ normalize opts ]

-- A key that a map lacks gives the value type's zero.
unfoldable pub map_get {ℓ} : {V : Type ℓ} → Text → List (Text × V) → Option V
map_get key [] = none
map_get key ((k, v) ∷ m) = if text_eq k key then some v else map_get key m

unfoldable pub renames : Options → Text → List (Text × Text)
renames o dialect = elim (map_get dialect o.rename_params) [ none ↦ [] | some m ↦ m ]

abbrev pub wildcard_key : Text → Text
wildcard_key column = codes "*." ++ column

abbrev pub column_key : Text → Text → Text
column_key table column = table ++ codes "." ++ column

unfoldable pub override_from : Text → Text → Text → List TypeOverride → Option Text
override_from wildcard table column [] = if text_eq wildcard [] then none else some wildcard
override_from wildcard table column (o ∷ rest) =
    let wildcard' = if text_eq o.column (wildcard_key column) then o.go_type else wildcard in
    let later = override_from wildcard' table column rest in
    if text_eq o.column (column_key table column) then some o.go_type else later

unfoldable pub override_for : Options → Text → Text → Option Text
override_for o table column = override_from [] table column o.type_overrides
