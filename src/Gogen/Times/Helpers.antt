-- ===== src/Gogen/Times/Helpers.antt =====
-- internal/emit/gogen/times.go: each function that a method calls is written.
use sqlc_gen_unison.Base.{
  ◌≡◌, refl, sym, subst, ◌⊎◌, inl, inr, true, false, [], ◌∷◌, ◌++◌, Text, codes, text_eq,
  text_eq_iff, if◌then◌else◌, arith, All, All-map, All-map₂, Bool-cases,
}
use sqlc_gen_unison.Ir.{Query, Package}
use sqlc_gen_unison.Options.{map_get}
use sqlc_gen_unison.Strings.{contains, has_prefix}
use sqlc_gen_unison.Strings.Laws.{contains-behind, contains-before}
use sqlc_gen_unison.Gogen.Imports.{ImportSet}
use sqlc_gen_unison.Gogen.Times.{
  time_text_func, time_text_ptr_func, time_text_null_func, TimeBinder, TimeBinders, time_binders,
  binder_for, Forms, forms_of, needs_any, write_time_helpers,
}
use sqlc_gen_unison.Gogen.Templates.Methods.{time_text, time_ptr_text, time_null_text}
use sqlc_gen_unison.Gogen.Times.Needs.{covers, AreCovered, forms_from-AreCovered}
use sqlc_gen_unison.Gogen.Times.Binders.{is_binder, time_binders-AreBinders}

abbrev pub function : Text → Text
function name = codes "func " ++ name ++ codes "("

-- A function of this name is declared.
abbrev pub Declares : Text → Text → Type 0
Declares text name = contains text (function name) ≡ true

-- Whatever a binder wraps a value in is declared.
abbrev pub IsDeclared : Text → TimeBinder → Type 0
IsDeclared text b =
    ((b.value ≡ []) ⊎ Declares text b.value) × ((b.element ≡ []) ⊎ Declares text b.element)

time_text-Declares : (layout : Text) → Declares (time_text time_text_func layout) time_text_func
unfolding time_text contains has_prefix
time_text-Declares layout = refl

time_ptr_text-Declares :
    Declares (time_ptr_text time_text_ptr_func time_text_func) time_text_ptr_func
unfolding time_ptr_text contains has_prefix
time_ptr_text-Declares = refl

time_null_text-Declares :
    Declares (time_null_text time_text_null_func time_text_func) time_text_null_func
unfolding time_null_text contains has_prefix
time_null_text-Declares = refl

unneeded-IsDeclared :
    (forms : Forms) (text : Text) (b : TimeBinder)
    → needs_any forms ≡ false
    → is_binder b ≡ true
    → covers forms b ≡ true
    → IsDeclared text b
unfolding covers is_binder
unneeded-IsDeclared forms text b h v c =
    (inl (ground (arith, text_eq_iff b.value [])), inl (ground (arith, text_eq_iff b.element [])))

-- What is written for some forms.
abbrev written : Text → Forms → Text
written layout forms =
    time_text time_text_func layout
    ++ (if forms.of_ptr then time_ptr_text time_text_ptr_func time_text_func else [])
    ++ (if forms.of_null then time_null_text time_text_null_func time_text_func else [])

module _ (layout : Text) (forms : Forms) where
  abbrev time_part : Text
  time_part = time_text time_text_func layout

  abbrev ptr_part : Text
  ptr_part = if forms.of_ptr then time_ptr_text time_text_ptr_func time_text_func else []

  abbrev null_part : Text
  null_part = if forms.of_null then time_null_text time_text_null_func time_text_func else []

  Declares-part :
      (name : Text)
      → (Declares (time_text time_text_func layout) name ⊎ Declares ptr_part name)
        ⊎ Declares null_part name
      → Declares (written layout forms) name
  Declares-part name (inl (inl h)) =
      contains-before (time_part ++ ptr_part) null_part (function name)
        (contains-before time_part ptr_part (function name) h)
  Declares-part name (inl (inr h)) =
      contains-before (time_part ++ ptr_part) null_part (function name)
        (contains-behind time_part ptr_part (function name) h)
  Declares-part name (inr h) = contains-behind (time_part ++ ptr_part) null_part (function name) h

  covers-Declares :
      (b : TimeBinder)
      → is_binder b ≡ true
      → covers forms b ≡ true
      → IsDeclared (written layout forms) b
  unfolding covers is_binder
  covers-Declares b v c = (
    elim (Bool-cases (text_eq b.value time_text_func)) [
      | inl e ↦ inr (
          subst (Declares (written layout forms)) (sym ((text_eq_iff _ _).0 e))
            (Declares-part time_text_func (inl (inl (time_text-Declares layout)))))
      | inr e ↦ elim (Bool-cases (text_eq b.value time_text_ptr_func)) [
        | inl p ↦
            let marked : forms.of_ptr ≡ true =
              ground (arith, text_eq_iff b.value [], text_eq_iff b.value time_text_ptr_func) in
            inr (
              subst (Declares (written layout forms)) (sym ((text_eq_iff _ _).0 p))
                (Declares-part time_text_ptr_func (inl (inr (rw marked time_ptr_text-Declares)))))
        | inr p ↦ elim (Bool-cases (text_eq b.value time_text_null_func)) [
          | inl n ↦
              let marked : forms.of_null ≡ true =
                ground (arith, text_eq_iff b.value [], text_eq_iff b.value time_text_null_func) in
              inr (
                subst (Declares (written layout forms)) (sym ((text_eq_iff _ _).0 n))
                  (Declares-part time_text_null_func (inr (rw marked time_null_text-Declares))))
          | inr n ↦ inl (ground (arith, text_eq_iff b.value []))
        ]
      ]
    ],
    elim (Bool-cases (text_eq b.element time_text_func)) [
      | inl e ↦ inr (
          subst (Declares (written layout forms)) (sym ((text_eq_iff _ _).0 e))
            (Declares-part time_text_func (inl (inl (time_text-Declares layout)))))
      | inr e ↦ inl (ground (arith, text_eq_iff b.element []))
    ],
  )

module _ (pkg : Package) (imports : ImportSet) where
  helpers-written :
      text_eq pkg.time_layout [] ≡ false
      → needs_any (forms_of pkg) ≡ true
      → (write_time_helpers pkg imports).0 ≡ written pkg.time_layout (forms_of pkg)
  unfolding write_time_helpers
  helpers-written h e = ground arith

  helpers-IsDeclared :
      (b : TimeBinder)
      → text_eq pkg.time_layout [] ≡ false
      → is_binder b ≡ true
      → covers (forms_of pkg) b ≡ true
      → IsDeclared (write_time_helpers pkg imports).0 b
  helpers-IsDeclared b h v c = elim (Bool-cases (needs_any (forms_of pkg))) [
    | inl e ↦
        subst (λ t. IsDeclared t b) (sym (helpers-written h e))
          (covers-Declares pkg.time_layout (forms_of pkg) b v c)
    | inr e ↦ unneeded-IsDeclared (forms_of pkg) _ b e v c
  ]

map_get-All :
    (P : TimeBinder → Type 0) (name : Text) (m : TimeBinders)
    → All (λ kb. P kb.1) m
    → P (record { value = []; element = [] })
    → P (binder_for m name)
unfolding binder_for map_get
map_get-All P name [] h z = z
map_get-All P name ((k, b) ∷ m) (h, hs) z = elim (Bool-cases (text_eq k name)) [
  | inl e ↦ rw (e, binder_for) h
  | inr e ↦ rw (e, binder_for) (map_get-All P name m hs z)
]

time_binders-nil :
    (pkg : Package) (q : Query) → text_eq pkg.time_layout [] ≡ true → time_binders pkg q ≡ []
unfolding time_binders
time_binders-nil pkg q e = ground arith

IsDeclared-nil : (text name : Text) → IsDeclared text (binder_for [] name)
unfolding binder_for map_get
IsDeclared-nil text name = (inl refl, inl refl)

query-IsDeclared :
    (pkg : Package) (imports : ImportSet) (q : Query)
    → AreCovered (forms_of pkg) (time_binders pkg q)
    → (name : Text)
    → IsDeclared (write_time_helpers pkg imports).0 (binder_for (time_binders pkg q) name)
query-IsDeclared pkg imports q covered name = elim (Bool-cases (text_eq pkg.time_layout [])) [
  | inl e ↦
      subst (λ m. IsDeclared (write_time_helpers pkg imports).0 (binder_for m name))
        (sym (time_binders-nil pkg q e)) (IsDeclared-nil _ name)
  | inr e ↦
      map_get-All (IsDeclared (write_time_helpers pkg imports).0) name (time_binders pkg q)
        (All-map₂ (λ kb v c. helpers-IsDeclared pkg imports kb.1 e v c) (time_binders pkg q)
          (time_binders-AreBinders pkg q) covered)
        (inl refl, inl refl)
]

-- Whatever function a method wraps a parameter or an element of a list in, whichever the query and
-- the parameter, is declared in the text that is written beside the methods.
pub write_time_helpers-IsDeclared :
    (pkg : Package) (imports : ImportSet)
    → All
        (λ q.
          (name : Text)
          → IsDeclared (write_time_helpers pkg imports).0 (binder_for (time_binders pkg q) name))
        pkg.queries
write_time_helpers-IsDeclared pkg imports =
    All-map (λ q covered name. query-IsDeclared pkg imports q covered name) pkg.queries
      (forms_from-AreCovered pkg pkg.queries _)
