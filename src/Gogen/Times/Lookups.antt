-- ===== src/Gogen/Times/Lookups.antt =====
-- internal/emit/gogen/times.go, `timeBinders`: what a lookup in the index gives.
use sqlc_gen_unison.Base.{
  ◌≡◌, ◌≢◌, refl, sym, ap, subst, ◌∙◌, inl, inr, ◌&&◌, Option, none, some, List, [], ◌∷◌, map, Text,
  text_eq, text_eq_iff, if◌then◌else◌, arith, All, Bool-cases, Option-cases,
}
use sqlc_gen_unison.Base.Sets.{AreDistinct}
use sqlc_gen_unison.Ir.{Field}
use sqlc_gen_unison.Options.{map_get}
use sqlc_gen_unison.Gogen.Times.{TimeBinder, TimeBinders, put, is_time, binder_of, binders_from}
use sqlc_gen_unison.Gogen.Times.Spelled.{field_of}

field_of-none :
    (name : Text) (fields : List Field)
    → All (λ n. name ≢ n) (map (λ f. f.name) fields)
    → field_of name fields ≡ none
field_of-none name [] h = refl
field_of-none name (f ∷ fields) (h, hs) = elim (Bool-cases (text_eq f.name name)) [
  | inl e ↦ absurd (h (sym ((text_eq_iff f.name name).0 e)))
  | inr e ↦ rw e (field_of-none name fields hs)
]

map_get-put :
    (name key : Text) (v : TimeBinder) (m : TimeBinders)
    → map_get name (put key v m) ≡ (if text_eq key name then some v else map_get name m)
unfolding put map_get
map_get-put name key v [] = refl
map_get-put name key v ((k, w) ∷ m) = elim (Bool-cases (text_eq k key)) [
  | inl e ↦
      let same : k ≡ key = (text_eq_iff k key).0 e in
      rw (put, map_get, e, same)
        (elim (Bool-cases (text_eq key name)) [ inl f ↦ rw f refl | inr f ↦ rw f refl ])
  | inr e ↦
      ground (
        arith,
        map_get-put name key v m,
        text_eq_iff k name,
        text_eq_iff key name,
        text_eq_iff k key,
      )
]

-- The binder of a type, where one is made.
abbrev pub made : Text → TimeBinders → Text → Option Field → Option TimeBinder
made null_as m name none = map_get name m
made null_as m name (some f) =
    if is_time f.type then some (binder_of null_as f.type) else map_get name m

abbrev bound_by : Text → TimeBinders → Field → TimeBinders
bound_by null_as m f = if is_time f.type then put f.name (binder_of null_as f.type) m else m

map_get-bound_by :
    (null_as name : Text) (m : TimeBinders) (f : Field)
    → map_get name (bound_by null_as m f) ≡ (
        if text_eq f.name name && is_time f.type
        then some (binder_of null_as f.type)
        else map_get name m)
map_get-bound_by null_as name m f = elim (Bool-cases (is_time f.type)) [
  | inl e ↦ ground (arith, map_get-put name f.name (binder_of null_as f.type) m)
  | inr e ↦ ground arith
]

pub binders_from-made :
    (null_as name : Text) (m : TimeBinders) (fields : List Field)
    → AreDistinct (map (λ f. f.name) fields)
    → map_get name (binders_from null_as m fields) ≡ made null_as m name (field_of name fields)
unfolding binders_from
binders_from-made null_as name m [] h = refl
binders_from-made null_as name m (f ∷ fields) (h, hs) =
    let later = binders_from-made null_as name (bound_by null_as m f) fields hs in
    let here = map_get-bound_by null_as name m f in
    elim (Bool-cases (text_eq f.name name)) [
      | inl e ↦
          let same : f.name ≡ name = (text_eq_iff f.name name).0 e in
          let last =
            field_of-none name fields
              (subst (λ n. All (λ x. n ≢ x) (map (λ f. f.name) fields)) same h) in
          rw e (later ∙ ap (made null_as (bound_by null_as m f) name) last ∙ here ∙ (rw e refl))
      | inr e ↦
          let kept : map_get name (bound_by null_as m f) ≡ map_get name m = here ∙ rw e refl in
          rw e (
            later ∙ elim (Option-cases (field_of name fields)) [
              | inl g ↦ rw g kept
              | inr (x, g) ↦
                  rw g
                    (ap (λ o. if is_time x.type then some (binder_of null_as x.type) else o) kept)
            ])
    ]
