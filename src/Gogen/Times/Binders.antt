-- ===== src/Gogen/Times/Binders.antt =====
-- internal/emit/gogen/times.go: the binders that a query can have.
use sqlc_gen_unison.Base.{
  ◌≡◌, inl, inr, Bool, true, ◌&&◌, ◌||◌, List, [], ◌∷◌, Text, text_eq, if◌then◌else◌, arith, All,
  Bool-cases,
}
use sqlc_gen_unison.Ir.{Field, Query, Package}
use sqlc_gen_unison.Gogen.Times.{
  time_text_func, time_text_ptr_func, time_text_null_func, TimeBinder, TimeBinders, put, is_time,
  binder_of, binders_from, time_binders,
}

-- A binder that `binder_of` makes, or the one of a name that needs none.
unfoldable pub is_binder : TimeBinder → Bool
is_binder b =
    if text_eq b.element []
    then text_eq b.value []
      || text_eq b.value time_text_func
      || text_eq b.value time_text_ptr_func
      || text_eq b.value time_text_null_func
    else text_eq b.element time_text_func && text_eq b.value []

abbrev pub AreBinders : TimeBinders → Type 0
AreBinders = All (λ kb. is_binder kb.1 ≡ true)

pub binder_of-is_binder : (null_as : Text) (f : Field) → is_binder (binder_of null_as f.type) ≡ true
unfolding is_binder binder_of text_eq
binder_of-is_binder null_as f = ground arith

pub put-AreBinders :
    (key : Text) (b : TimeBinder) (m : TimeBinders)
    → is_binder b ≡ true
    → AreBinders m
    → AreBinders (put key b m)
unfolding put
put-AreBinders key b [] h hs = (h, tt)
put-AreBinders key b ((k, c) ∷ m) h (g, hs) = elim (Bool-cases (text_eq k key)) [
  | inl e ↦ rw (e, put) (h, hs)
  | inr e ↦ rw (e, put) (g, put-AreBinders key b m h hs)
]

pub binders_from-AreBinders :
    (null_as : Text) (m : TimeBinders) (fields : List Field)
    → AreBinders m
    → AreBinders (binders_from null_as m fields)
unfolding binders_from
binders_from-AreBinders null_as m [] h = h
binders_from-AreBinders null_as m (f ∷ fields) h =
    binders_from-AreBinders null_as
      (if is_time f.type then put f.name (binder_of null_as f.type) m else m) fields
      (elim (Bool-cases (is_time f.type)) [
        | inl e ↦ rw e (put-AreBinders f.name _ m (binder_of-is_binder null_as f) h)
        | inr e ↦ rw e h
      ])

pub time_binders-AreBinders : (pkg : Package) (q : Query) → AreBinders (time_binders pkg q)
unfolding time_binders
time_binders-AreBinders pkg q = elim (Bool-cases (text_eq pkg.time_layout [])) [
  | inl e ↦ rw e tt
  | inr e ↦ rw e (binders_from-AreBinders pkg.null_as [] q.params tt)
]
