-- ===== src/Gogen/Times.antt =====
-- internal/emit/gogen/times.go: how a time argument reaches the driver of an engine that has no date
-- type. A Go map is a list of its entries, each key once.
pub mod Needs
pub mod Binders
pub mod Helpers
pub mod Spelled
pub mod Lookups
pub mod Wrapped
use sqlc_gen_unison.Base.{
  Bool, true, false, ◌&&◌, ◌||◌, not, Option, none, some, List, [], ◌∷◌, ◌++◌, Text, codes, text_eq,
  if◌then◌else◌,
}
use sqlc_gen_unison.Ir.{Kind, kind_time, FieldType, Field, Query, Package}
use sqlc_gen_unison.Options.{null_sql, map_get}
use sqlc_gen_unison.Gogen.Imports.{ImportSet, add}
use sqlc_gen_unison.Gogen.Templates.Methods.{time_text, time_ptr_text, time_null_text}

abbrev pub time_text_func : Text
time_text_func = codes "timeText"

abbrev pub time_text_ptr_func : Text
time_text_ptr_func = codes "timeTextPtr"

abbrev pub time_text_null_func : Text
time_text_null_func = codes "timeTextNull"

-- The functions that wrap a whole field and one element of a list; empty where none does.
pub record TimeBinder : Type 0 where
  pub value : Text
  pub element : Text

abbrev pub TimeBinders : Type 0
TimeBinders = List (Text × TimeBinder)

-- `m[key] = v`
unfoldable pub put : Text → TimeBinder → TimeBinders → TimeBinders
put key v [] = (key, v) ∷ []
put key v ((k, w) ∷ m) =
    let rest = put key v m in if text_eq k key then (key, v) ∷ m else (k, w) ∷ rest

abbrev pub is_time : FieldType → Bool
is_time t = elim t.kind [ kind_time ↦ text_eq t.override [] | _ ↦ false ]

unfoldable pub binder_of : Text → FieldType → TimeBinder
binder_of null_as t =
    if t.slice
    then record { value = []; element = time_text_func }
    else if not t.nullable
    then record { value = time_text_func; element = [] }
    else if text_eq null_as null_sql
    then record { value = time_text_null_func; element = [] }
    else record { value = time_text_ptr_func; element = [] }

unfoldable pub binders_from : Text → TimeBinders → List Field → TimeBinders
binders_from null_as m [] = m
binders_from null_as m (f ∷ fields) =
    binders_from null_as (if is_time f.type then put f.name (binder_of null_as f.type) m else m)
      fields

unfoldable pub time_binders : Package → Query → TimeBinders
unfolding binders_from
time_binders pkg query =
    if text_eq pkg.time_layout [] then [] else binders_from pkg.null_as [] query.params

-- A name that the map lacks has the zero binder.
unfoldable pub binder_for : TimeBinders → Text → TimeBinder
binder_for binders name = elim (map_get name binders) [
  | none ↦ record { value = []; element = [] }
  | some b ↦ b
]

unfoldable pub bind_value : Text → TimeBinder → Text
bind_value field binder =
    if text_eq binder.value [] then field else binder.value ++ codes "(" ++ field ++ codes ")"

unfoldable pub bind_element : Text → TimeBinder → Text
bind_element element binder =
    if text_eq binder.element []
    then element
    else binder.element ++ codes "(" ++ element ++ codes ")"

-- Which of the three functions are needed: the variables `value`, `ptr` and `null`.
pub record Forms : Type 0 where
  pub of_value : Bool
  pub of_ptr : Bool
  pub of_null : Bool

unfoldable pub need : TimeBinder → Forms → Forms
need b forms =
    if not (text_eq b.element []) || text_eq b.value time_text_func
    then record forms { of_value = true }
    else if text_eq b.value time_text_ptr_func
    then record forms { of_ptr = true }
    else if text_eq b.value time_text_null_func
    then record forms { of_null = true }
    else forms

unfoldable pub need_all : TimeBinders → Forms → Forms
need_all [] forms = forms
need_all ((_, b) ∷ binders) forms = need_all binders (need b forms)

unfoldable pub forms_from : Package → List Query → Forms → Forms
forms_from pkg [] forms = forms
forms_from pkg (query ∷ queries) forms =
    forms_from pkg queries (need_all (time_binders pkg query) forms)

abbrev pub forms_of : Package → Forms
forms_of pkg =
    forms_from pkg pkg.queries (record { of_value = false; of_ptr = false; of_null = false })

abbrev pub needs_any : Forms → Bool
needs_any forms = forms.of_value || forms.of_ptr || forms.of_null

-- What `writeTimeHelpers` writes, and the imports after it.
unfoldable pub write_time_helpers : Package → ImportSet → Text × ImportSet
unfolding forms_from
write_time_helpers pkg imports =
    let forms = forms_of pkg in
    if text_eq pkg.time_layout [] || not (needs_any forms) then ([], imports) else (
      time_text time_text_func pkg.time_layout
          ++ (if forms.of_ptr then time_ptr_text time_text_ptr_func time_text_func else [])
          ++ (if forms.of_null then time_null_text time_text_null_func time_text_func else []),
      if forms.of_null
          then add (codes "database/sql") (add (codes "time") imports)
          else add (codes "time") imports,
    )
