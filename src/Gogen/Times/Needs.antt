-- ===== src/Gogen/Times/Needs.antt =====
-- internal/emit/gogen/times.go: the forms of the functions that the binders of a package need.
use sqlc_gen_unison.Base.{
  ◌≡◌, Bool, true, ◌||◌, not, List, [], ◌∷◌, text_eq, if◌then◌else◌, arith, All,
}
use sqlc_gen_unison.Ir.{Query, Package}
use sqlc_gen_unison.Gogen.Times.{
  time_text_func, time_text_ptr_func, time_text_null_func, TimeBinder, TimeBinders, time_binders,
  Forms, need, need_all, forms_from,
}

-- The form that a binder calls for is marked.
unfoldable pub covers : Forms → TimeBinder → Bool
covers forms b =
    if not (text_eq b.element []) || text_eq b.value time_text_func
    then forms.of_value
    else if text_eq b.value time_text_ptr_func
    then forms.of_ptr
    else if text_eq b.value time_text_null_func
    then forms.of_null
    else true

record Grows (f g : Forms) : Type 0 where
  of_value : f.of_value ≡ true → g.of_value ≡ true
  of_ptr : f.of_ptr ≡ true → g.of_ptr ≡ true
  of_null : f.of_null ≡ true → g.of_null ≡ true

Grows-trans : (f g h : Forms) → Grows f g → Grows g h → Grows f h
Grows-trans f g h a b = record {
  of_value = λ e. b.of_value (a.of_value e);
  of_ptr = λ e. b.of_ptr (a.of_ptr e);
  of_null = λ e. b.of_null (a.of_null e);
}

need-Grows : (b : TimeBinder) (f : Forms) → Grows f (need b f)
unfolding need
need-Grows b f = record {
  of_value = λ e. ground arith;
  of_ptr = λ e. ground arith;
  of_null = λ e. ground arith;
}

covers-Grows : (b : TimeBinder) (f g : Forms) → Grows f g → covers f b ≡ true → covers g b ≡ true
unfolding covers
covers-Grows b f g h e = ground (arith, h.of_value, h.of_ptr, h.of_null)

covers-need : (b : TimeBinder) (f : Forms) → covers (need b f) b ≡ true
unfolding covers need
covers-need b f = ground arith

need_all-Grows : (m : TimeBinders) (f : Forms) → Grows f (need_all m f)
unfolding need_all
need_all-Grows [] f = record { of_value = λ e. e; of_ptr = λ e. e; of_null = λ e. e }
need_all-Grows ((k, b) ∷ m) f =
    Grows-trans f (need b f) _ (need-Grows b f) (need_all-Grows m (need b f))

need_all-covers : (m : TimeBinders) (f : Forms) → All (λ kb. covers (need_all m f) kb.1 ≡ true) m
unfolding need_all
need_all-covers [] f = tt
need_all-covers ((k, b) ∷ m) f = (
  covers-Grows b (need b f) _ (need_all-Grows m (need b f)) (covers-need b f),
  need_all-covers m (need b f),
)

forms_from-Grows : (pkg : Package) (qs : List Query) (f : Forms) → Grows f (forms_from pkg qs f)
unfolding forms_from
forms_from-Grows pkg [] f = record { of_value = λ e. e; of_ptr = λ e. e; of_null = λ e. e }
forms_from-Grows pkg (q ∷ qs) f =
    Grows-trans f _ _ (need_all-Grows (time_binders pkg q) f) (forms_from-Grows pkg qs _)

abbrev pub AreCovered : Forms → TimeBinders → Type 0
AreCovered f = All (λ kb. covers f kb.1 ≡ true)

AreCovered-Grows : (m : TimeBinders) (f g : Forms) → Grows f g → AreCovered f m → AreCovered g m
AreCovered-Grows [] f g h a = tt
AreCovered-Grows ((k, b) ∷ m) f g h (a, rest) =
    (covers-Grows b f g h a, AreCovered-Grows m f g h rest)

pub forms_from-AreCovered :
    (pkg : Package) (qs : List Query) (f : Forms)
    → All (λ q. AreCovered (forms_from pkg qs f) (time_binders pkg q)) qs
unfolding forms_from
forms_from-AreCovered pkg [] f = tt
forms_from-AreCovered pkg (q ∷ qs) f = (
  AreCovered-Grows (time_binders pkg q) (need_all (time_binders pkg q) f) _
      (forms_from-Grows pkg qs _) (need_all-covers (time_binders pkg q) f),
  forms_from-AreCovered pkg qs _,
)
