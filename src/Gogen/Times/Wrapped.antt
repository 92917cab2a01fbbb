-- ===== src/Gogen/Times/Wrapped.antt =====
-- internal/emit/gogen/times.go, `bindValue` and `bindElement`: each parameter is wrapped as its type asks.
use sqlc_gen_unison.Base.{
  ◌≡◌, refl, sym, ap, ◌∙◌, inl, inr, Bool, true, false, ◌&&◌, Option, none, some, [], map, Text,
  text_eq, if◌then◌else◌, arith, Bool-cases, Option-cases,
}
use sqlc_gen_unison.Base.Sets.{AreDistinct}
use sqlc_gen_unison.Ir.{
  Kind, kind_invalid, kind_string, kind_int64, kind_float64, kind_bool, kind_bytes, kind_time,
  FieldType, Field, Query, Package,
}
use sqlc_gen_unison.Options.{map_get}
use sqlc_gen_unison.Gogen.Times.{
  TimeBinder, TimeBinders, is_time, binder_of, time_binders, binder_for, bind_value, bind_element,
}
use sqlc_gen_unison.Gogen.Times.Spelled.{
  field_of, is_bound_as_text, value_text, element_text, value_of_field, value_for, element_of_field,
  element_for,
}
use sqlc_gen_unison.Gogen.Times.Lookups.{made, binders_from-made}

is_time-split :
    (k : Kind) (b : Bool)
    → (elim k [ kind_time ↦ b | _ ↦ false ]) ≡ (b && elim k [ kind_time ↦ true | _ ↦ false ])
is_time-split kind_time true = refl
is_time-split kind_time false = refl
is_time-split kind_invalid b = ground arith
is_time-split kind_string b = ground arith
is_time-split kind_int64 b = ground arith
is_time-split kind_float64 b = ground arith
is_time-split kind_bool b = ground arith
is_time-split kind_bytes b = ground arith

is_time-is_bound_as_text :
    (layout : Text) (t : FieldType)
    → text_eq layout [] ≡ false
    → is_bound_as_text layout t ≡ is_time t
is_time-is_bound_as_text layout t h = rw h (sym (is_time-split t.kind (text_eq t.override [])))

abbrev no_binder : TimeBinder
no_binder = record { value = []; element = [] }

-- The binder that a lookup gives.
abbrev found : Option TimeBinder → TimeBinder
found none = no_binder
found (some b) = b

binder_for-found :
    (binders : TimeBinders) (name : Text) → binder_for binders name ≡ found (map_get name binders)
unfolding binder_for
binder_for-found binders name = elim (Option-cases (map_get name binders)) [
  | inl e ↦ rw (binder_for, e) refl
  | inr (b, e) ↦ rw (binder_for, e) refl
]

module _ (layout null_as : Text) (t : FieldType) (h : text_eq layout [] ≡ false) where
  bind_value-made :
      (field : Text)
      → bind_value field (found (if is_time t then some (binder_of null_as t) else none))
        ≡ value_text layout null_as t field
  unfolding bind_value binder_of text_eq
  bind_value-made field = elim (Bool-cases (is_time t)) [
    | inl e ↦
        let it : is_bound_as_text layout t ≡ true = is_time-is_bound_as_text layout t h ∙ e in
        rw (e, it) (ground arith)
    | inr e ↦
        let it : is_bound_as_text layout t ≡ false = is_time-is_bound_as_text layout t h ∙ e in
        rw (e, it) refl
  ]

  bind_element-made :
      (element : Text)
      → bind_element element (found (if is_time t then some (binder_of null_as t) else none))
        ≡ element_text layout t element
  unfolding bind_element binder_of text_eq
  bind_element-made element = elim (Bool-cases (is_time t)) [
    | inl e ↦
        let it : is_bound_as_text layout t ≡ true = is_time-is_bound_as_text layout t h ∙ e in
        rw (e, it) (ground arith)
    | inr e ↦
        let it : is_bound_as_text layout t ≡ false = is_time-is_bound_as_text layout t h ∙ e in
        rw (e, it) refl
  ]

module _ (pkg : Package) (name text : Text) where
  value_of_field-layout :
      (o : Option Field) → text_eq pkg.time_layout [] ≡ true → text ≡ value_of_field pkg text o
  value_of_field-layout none h = refl
  value_of_field-layout (some f) h = rw h refl

  element_of_field-layout :
      (o : Option Field) → text_eq pkg.time_layout [] ≡ true → text ≡ element_of_field pkg text o
  element_of_field-layout none h = refl
  element_of_field-layout (some f) h = rw h refl

  bind_value-of_field :
      (o : Option Field)
      → text_eq pkg.time_layout [] ≡ false
      → bind_value text (found (made pkg.null_as [] name o)) ≡ value_of_field pkg text o
  unfolding map_get bind_value text_eq
  bind_value-of_field none h = refl
  bind_value-of_field (some f) h = bind_value-made pkg.time_layout pkg.null_as f.type h text

  bind_element-of_field :
      (o : Option Field)
      → text_eq pkg.time_layout [] ≡ false
      → bind_element text (found (made pkg.null_as [] name o)) ≡ element_of_field pkg text o
  unfolding map_get bind_element text_eq
  bind_element-of_field none h = refl
  bind_element-of_field (some f) h = bind_element-made pkg.time_layout pkg.null_as f.type h text

module _ (pkg : Package) (query : Query) (distinct : AreDistinct (map (λ f. f.name) query.params))
    (name : Text) where
  time_binders-made :
      text_eq pkg.time_layout [] ≡ false
      → map_get name (time_binders pkg query)
        ≡ made pkg.null_as [] name (field_of name query.params)
  unfolding time_binders
  time_binders-made h = rw h (binders_from-made pkg.null_as name [] query.params distinct)

  binder_for-layout :
      text_eq pkg.time_layout [] ≡ true → binder_for (time_binders pkg query) name ≡ no_binder
  unfolding time_binders binder_for map_get
  binder_for-layout h = rw h refl

  binder_for-made :
      text_eq pkg.time_layout [] ≡ false
      → binder_for (time_binders pkg query) name
        ≡ found (made pkg.null_as [] name (field_of name query.params))
  binder_for-made h =
      binder_for-found (time_binders pkg query) name ∙ ap found (time_binders-made h)

  pub bind_value-value_for :
      (field : Text)
      → bind_value field (binder_for (time_binders pkg query) name) ≡ value_for pkg query name field
  bind_value-value_for field = elim (Bool-cases (text_eq pkg.time_layout [])) [
    | inl h ↦
        ap (bind_value field) (binder_for-layout h)
        ∙ unfold bind_value text_eq in value_of_field-layout pkg name field _ h
    | inr h ↦ ap (bind_value field) (binder_for-made h) ∙ bind_value-of_field pkg name field _ h
  ]

  pub bind_element-element_for :
      (element : Text)
      → bind_element element (binder_for (time_binders pkg query) name)
        ≡ element_for pkg query name element
  bind_element-element_for element = elim (Bool-cases (text_eq pkg.time_layout [])) [
    | inl h ↦
        ap (bind_element element) (binder_for-layout h)
        ∙ unfold bind_element text_eq in element_of_field-layout pkg name element _ h
    | inr h ↦
        ap (bind_element element) (binder_for-made h) ∙ bind_element-of_field pkg name element _ h
  ]
