-- ===== src/Gogen/Queries/Arguments.antt =====
-- internal/emit/gogen/queries.go, `bindArgs` and `expansionPrelude`: what a method binds to its
-- placeholders, read back from the text.
use sqlc_gen_unison.Base.{
  ap₂, ◌≡◌, List, if◌then◌else◌, inl, inr, Bool-cases, text_eq, refl, ap, ◌∙◌, false, none, some,
  [], ◌∷◌, ◌++◌, append_assoc, map, Text, codes, ◌==◌, length, any, arith, Option-cases,
}
use sqlc_gen_unison.Ir.{Query, Arg, Package}
use sqlc_gen_unison.Strings.{cut_prefix, trim_suffix}
use sqlc_gen_unison.Gogen.Names.Identifiers.{IsSqlName}
use sqlc_gen_unison.Gogen.Times.{TimeBinders, time_binders, binder_for, bind_value}
use sqlc_gen_unison.Gogen.Times.Binders.{AreBinders, time_binders-AreBinders}
use sqlc_gen_unison.Base.Sets.{AreDistinct}
use sqlc_gen_unison.Gogen.Times.Spelled.{value_for, element_for}
use sqlc_gen_unison.Gogen.Times.Wrapped.{bind_value-value_for, bind_element-element_for}
use sqlc_gen_unison.Gogen.Queries.Methods.{arg_field, bind_args_from, bind_args, append_args}
use sqlc_gen_unison.Gogen.Queries.Lines.{
  lines, OnLine, OnLine-append, OnLine-of_any, arg_field-OnLine, binder_for-IsBinder,
  bind_value-OnLine, lines-part, trim_suffix-append,
}
use sqlc_gen_unison.Gogen.Queries.Appends.{
  Bound, one, each, bound_of, read_bounds, AreSqlNames, read_bounds-append_args,
}

-- The expressions of the lines that stand two tabs deep, without the comma at their end.
unfoldable pub read_args : List Text → List Text
unfolding cut_prefix trim_suffix
read_args [] = []
read_args (line ∷ lines) = elim (cut_prefix line (codes "\t\t")) [
  | some e ↦ trim_suffix e (codes ",") ∷ read_args lines
  | none ↦ read_args lines
]

abbrev pub value_of : TimeBinders → Arg → Text
value_of binders a = bind_value (arg_field a.name) (binder_for binders a.name)

read_args-cons :
    (l : Text) (ls : List Text) → read_args (l ∷ ls) ≡ read_args (l ∷ []) ++ read_args ls
unfolding read_args
read_args-cons l ls = elim (Option-cases (cut_prefix l (codes "\t\t"))) [
  | inl e ↦ rw (read_args, e) refl
  | inr (x, e) ↦ rw (read_args, e) refl
]

read_args-value :
    (value : Text) → read_args ((codes "\t\t" ++ value ++ codes ",") ∷ []) ≡ value ∷ []
unfolding read_args cut_prefix
read_args-value value = ap (λ e. e ∷ []) (trim_suffix-append value b',' [])

module _ (binders : TimeBinders) (hb : AreBinders binders) where
  value_of-OnLine : (a : Arg) → IsSqlName a.name → OnLine (value_of binders a)
  value_of-OnLine a h =
      bind_value-OnLine (arg_field a.name) (binder_for binders a.name) (arg_field-OnLine a.name h)
        (binder_for-IsBinder a.name binders hb)

  -- The line that is open, and those of the arguments that follow.
  read_args-bind_args_from :
      (line : Text) (args : List Arg)
      → OnLine line
      → AreSqlNames args
      → read_args (lines (line ++ (bind_args_from binders args ++ codes ",\n\t")))
        ≡ read_args ((line ++ codes ",") ∷ []) ++ map (value_of binders) args
  unfolding bind_args_from lines
  read_args-bind_args_from line [] h _ =
      ap read_args (
        lines-part line (codes ",") (codes "\t") h (OnLine-of_any (codes ",") (unfold any in refl)))
      ∙ read_args-cons (line ++ codes ",") (codes "\t" ∷ [])
      ∙ ap (λ es. read_args ((line ++ codes ",") ∷ []) ++ es) (unfold read_args cut_prefix in refl)
  read_args-bind_args_from line (a ∷ args) h (n, ns) =
      let value = value_of binders a in
      let end = codes ",\n\t" in
      let rest = bind_args_from binders args in
      let next = codes "\t\t" ++ value in
      let on =
        OnLine-append (codes "\t\t") value (OnLine-of_any (codes "\t\t") (unfold any in refl))
          (value_of-OnLine a n) in
      ap read_args (
        lines-part line (codes ",") (next ++ rest ++ end) h
          (OnLine-of_any (codes ",") (unfold any in refl)))
      ∙ read_args-cons (line ++ codes ",") (lines (next ++ rest ++ end))
      ∙ ap (λ s. read_args ((line ++ codes ",") ∷ []) ++ read_args (lines s))
          (append_assoc next rest end)
      ∙ ap (λ es. read_args ((line ++ codes ",") ∷ []) ++ es)
          (read_args-bind_args_from next args on ns
            ∙ ap (λ es. es ++ map (value_of binders) args) (read_args-value value))

  read_args-bind_args :
      (args : List Arg)
      → AreSqlNames args
      → read_args (lines (bind_args binders args)) ≡ map (value_of binders) args
  unfolding bind_args lines read_args cut_prefix
  read_args-bind_args [] h = refl
  read_args-bind_args (a ∷ args) h =
      let some_args : (length (a ∷ args) == 0) ≡ false = ground arith in
      rw (bind_args, some_args) (read_args-bind_args_from [] (a ∷ args) tt h)

-- What a method should pass for each placeholder, from the parameters' types: the field, or the elements
-- of the list that stands there.
abbrev pub expected_value : Package → Query → Arg → Text
expected_value pkg query a = value_for pkg query a.name (arg_field a.name)

abbrev pub expected_bound : Package → Query → Arg → Bound
expected_bound pkg query a =
    if text_eq a.expand []
    then one (value_for pkg query a.name (arg_field a.name))
    else each (arg_field a.name) (element_for pkg query a.name (codes "v"))

map-eq :
    {B : Type 0} (f g : Arg → B) (args : List Arg)
    → ((a : Arg) → f a ≡ g a)
    → map f args ≡ map g args
map-eq f g [] h = refl
map-eq f g (a ∷ args) h = ap₂ (λ b bs. b ∷ bs) (h a) (map-eq f g args h)

bound_of-expected :
    (pkg : Package) (query : Query) (a : Arg)
    → AreDistinct (map (λ f. f.name) query.params)
    → bound_of (time_binders pkg query) a ≡ expected_bound pkg query a
bound_of-expected pkg query a distinct = elim (Bool-cases (text_eq a.expand [])) [
  | inl e ↦ rw e (ap one (bind_value-value_for pkg query distinct a.name (arg_field a.name)))
  | inr e ↦ rw e (
      ap (each (arg_field a.name)) (bind_element-element_for pkg query distinct a.name (codes "v")))
]

-- If the parameters have distinct names, of letters, digits and separators, then the text of a query's
-- arguments reads back to what their types ask for: one expression for each placeholder, in the order of
-- the placeholders, is the placeholder's field; and where lists are expanded, one append for each
-- placeholder, in their order, or one for each element of the list that stands there. A field or an
-- element is wrapped exactly where the engine has no date type and the value is a time that is no
-- consumer's own: by the function for plain, for pointer or for database/sql times, as it is nullable.
pub arguments_read :
    (pkg : Package) (query : Query) (args : List Arg)
    → AreDistinct (map (λ f. f.name) query.params)
    → AreSqlNames args
    → let binders = time_binders pkg query in
      (read_args (lines (bind_args binders args)) ≡ map (expected_value pkg query) args)
      × (read_bounds none (lines (append_args binders args)) ≡ map (expected_bound pkg query) args)
arguments_read pkg query args distinct h =
    let binders = time_binders pkg query in
    let hb = time_binders-AreBinders pkg query in
    (
      read_args-bind_args binders hb args h
          ∙ map-eq (value_of binders) (expected_value pkg query) args
              (λ a. bind_value-value_for pkg query distinct a.name (arg_field a.name)),
      read_bounds-append_args binders args hb h
          ∙ map-eq (bound_of binders) (expected_bound pkg query) args
              (λ a. bound_of-expected pkg query a distinct),
    )
