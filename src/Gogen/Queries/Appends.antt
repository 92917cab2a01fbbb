-- ===== src/Gogen/Queries/Appends.antt =====
-- internal/emit/gogen/queries.go, `expansionPrelude`: the appends of the emitted lines, read back from the
-- text.
use sqlc_gen_unison.Base.{
  ◌≡◌, refl, sym, ap, ◌∙◌, inl, inr, Option, none, some, List, [], ◌∷◌, ◌++◌, append_assoc, map,
  Text, codes, text_eq, if◌then◌else◌, any, All, All-append, Bool-cases,
}
use sqlc_gen_unison.Ir.{Arg}
use sqlc_gen_unison.Strings.{cut_prefix, trim_suffix}
use sqlc_gen_unison.Gogen.Names.Identifiers.{IsSqlName}
use sqlc_gen_unison.Gogen.Imports.{quoted}
use sqlc_gen_unison.Gogen.Times.{TimeBinders, binder_for, bind_value, bind_element}
use sqlc_gen_unison.Gogen.Times.Binders.{AreBinders}
use sqlc_gen_unison.Gogen.Queries.Methods.{expands_arg, arg_field, append_arg, append_args}
use sqlc_gen_unison.Gogen.Queries.Lines.{
  lines, OnLine, OnLine-append, lines-append, OnLine-of_any, quoted-OnLine, arg_field-OnLine,
  binder_for-IsBinder, bind_value-OnLine, bind_element-OnLine, lines-part, lines-parts,
  trim_suffix-append,
}

-- What the method passes for one placeholder: an expression, or an expression for each element `v` of
-- a list.
pub data Bound : Type 0 where
  one : Text → Bound
  each : Text → Text → Bound

-- The appends of some lines of Go, in the order in which they run: those of a loop over a list belong
-- to each of its elements. `loop` is the list of the loop that is open.
unfoldable pub read_bounds : Option Text → List Text → List Bound
unfolding cut_prefix trim_suffix text_eq
read_bounds loop [] = []
read_bounds none (line ∷ lines) = elim (cut_prefix line (codes "\targs = append(args, ")) [
  | some e ↦ one (trim_suffix e (codes ")")) ∷ read_bounds none lines
  | none ↦ elim (cut_prefix line (codes "\tfor _, v := range ")) [
    | some list ↦ read_bounds (some (trim_suffix list (codes " {"))) lines
    | none ↦ read_bounds none lines
  ]
]
read_bounds (some list) (line ∷ lines) = elim (cut_prefix line (codes "\t\targs = append(args, ")) [
  | some e ↦ each list (trim_suffix e (codes ")")) ∷ read_bounds (some list) lines
  | none ↦ read_bounds (if text_eq line (codes "\t}") then none else some list) lines
]

-- What a placeholder should bind: the field, or its elements, wrapped where the driver needs text.
abbrev pub bound_of : TimeBinders → Arg → Bound
bound_of binders a =
    if expands_arg a
    then each (arg_field a.name) (bind_element (codes "v") (binder_for binders a.name))
    else one (bind_value (arg_field a.name) (binder_for binders a.name))

-- The text of one append, with what follows, as lines.
lines-plain :
    (before e rest : Text)
    → OnLine before
    → OnLine e
    → lines (before ++ e ++ codes ")\n\n" ++ rest) ≡ (before ++ e ++ codes ")") ∷ [] ∷ lines rest
unfolding lines any
lines-plain before e rest h k =
    ap lines (
      append_assoc (before ++ e) (codes ")\n\n") rest
      ∙ sym (append_assoc (before ++ e) (codes ")") (10 ∷ 10 ∷ rest)))
    ∙ lines-append (before ++ e ++ codes ")") (10 ∷ rest) (
        All-append _ (before ++ e) (codes ")") (All-append _ before e h k)
          (OnLine-of_any (codes ")") refl))

read_bounds-plain :
    (e : Text) (ls : List Text)
    → read_bounds none ((codes "\targs = append(args, " ++ e ++ codes ")") ∷ [] ∷ ls)
      ≡ one e ∷ read_bounds none ls
unfolding read_bounds cut_prefix
read_bounds-plain e ls = ap (λ x. one x ∷ read_bounds none ls) (trim_suffix-append e b')' [])

-- The lines of an expanded list: the rewriting of the statement, and the loop.
lines-loop :
    (head field e rest : Text)
    → OnLine head
    → OnLine field
    → OnLine e
    → lines (
        head
        ++ codes ")), 1)\n\n"
        ++ codes "\tfor _, v := range "
        ++ field
        ++ codes " {\n\t\targs = append(args, "
        ++ e
        ++ codes ")\n\t}\n\n"
        ++ rest)
      ≡ (head ++ codes ")), 1)")
        ∷ []
        ∷ (codes "\tfor _, v := range " ++ field ++ codes " {")
        ∷ (codes "\t\targs = append(args, " ++ e ++ codes ")")
        ∷ codes "\t}"
        ∷ []
        ∷ lines rest
unfolding lines any
lines-loop head field e rest h k l =
    let close = codes ")), 1)\n\n" in
    let for = codes "\tfor _, v := range " in
    let open_loop = codes " {\n\t\targs = append(args, " in
    let end = codes ")\n\t}\n\n" in
    let regrouped =
      append_assoc (head ++ close ++ for ++ field ++ open_loop ++ e) end rest
      ∙ append_assoc (head ++ close ++ for ++ field ++ open_loop) e (end ++ rest)
      ∙ append_assoc (head ++ close ++ for ++ field) open_loop (e ++ (end ++ rest))
      ∙ append_assoc (head ++ close ++ for) field (open_loop ++ (e ++ (end ++ rest)))
      ∙ append_assoc (head ++ close) for (field ++ (open_loop ++ (e ++ (end ++ rest))))
      ∙ append_assoc head close (for ++ (field ++ (open_loop ++ (e ++ (end ++ rest))))) in
    ap lines regrouped
    ∙ lines-part head (codes ")), 1)") (10 ∷ for ++ (field ++ (open_loop ++ (e ++ (end ++ rest)))))
        h (OnLine-of_any (codes ")), 1)") refl)
    ∙ ap (λ ls. (head ++ codes ")), 1)") ∷ [] ∷ ls)
        (lines-parts for field (codes " {")
            (codes "\t\targs = append(args, " ++ (e ++ (end ++ rest))) (OnLine-of_any for refl) k
            (OnLine-of_any (codes " {") refl)
          ∙ ap (λ ls. (for ++ field ++ codes " {") ∷ ls)
              (lines-parts (codes "\t\targs = append(args, ") e (codes ")")
                (codes "\t}\n\n" ++ rest) (OnLine-of_any (codes "\t\targs = append(args, ") refl) l
                (OnLine-of_any (codes ")") refl)))

read_bounds-loop :
    (first field e : Text) (ls : List Text)
    → cut_prefix first (codes "\targs = append(args, ") ≡ none
    → cut_prefix first (codes "\tfor _, v := range ") ≡ none
    → read_bounds none (
        first
        ∷ []
        ∷ (codes "\tfor _, v := range " ++ field ++ codes " {")
        ∷ (codes "\t\targs = append(args, " ++ e ++ codes ")")
        ∷ codes "\t}"
        ∷ []
        ∷ ls)
      ≡ each field e ∷ read_bounds none ls
unfolding read_bounds cut_prefix text_eq
read_bounds-loop first field e ls h k =
    rw (h, k)
      (ap (λ x. each x (trim_suffix (e ++ codes ")") (codes ")")) ∷ read_bounds none ls)
          (trim_suffix-append field b' ' (codes "{"))
        ∙ ap (λ x. each field x ∷ read_bounds none ls) (trim_suffix-append e b')' []))

abbrev pub AreSqlNames : List Arg → Type 0
AreSqlNames = All (λ a. IsSqlName a.name)

-- The text behind which the rewriting of the statement goes on.
replace_head : Arg → Text
replace_head a =
    codes "\tquery = strings.Replace(query, "
    ++ quoted a.expand
    ++ codes ", slicePlaceholders("
    ++ quoted a.placeholder
    ++ codes ", len("
    ++ arg_field a.name

replace_head-OnLine : (a : Arg) → IsSqlName a.name → OnLine (replace_head a)
unfolding replace_head any
replace_head-OnLine a h =
    let one = codes "\tquery = strings.Replace(query, " in
    let two = one ++ quoted a.expand in
    let three = two ++ codes ", slicePlaceholders(" in
    let four = three ++ quoted a.placeholder in
    let five = four ++ codes ", len(" in
    let h2 =
      OnLine-append one (quoted a.expand) (OnLine-of_any one refl) (quoted-OnLine a.expand) in
    let h3 =
      OnLine-append two (codes ", slicePlaceholders(") h2
        (OnLine-of_any (codes ", slicePlaceholders(") refl) in
    let h4 = OnLine-append three (quoted a.placeholder) h3 (quoted-OnLine a.placeholder) in
    let h5 = OnLine-append four (codes ", len(") h4 (OnLine-of_any (codes ", len(") refl) in
    OnLine-append five (arg_field a.name) h5 (arg_field-OnLine a.name h)

pub read_bounds-append_args :
    (binders : TimeBinders) (args : List Arg)
    → AreBinders binders
    → AreSqlNames args
    → read_bounds none (lines (append_args binders args)) ≡ map (bound_of binders) args
unfolding append_args append_arg lines replace_head
read_bounds-append_args binders [] hb h = unfold read_bounds cut_prefix in refl
read_bounds-append_args binders (a ∷ args) hb (n, ns) =
    let b = binder_for binders a.name in
    let v = binder_for-IsBinder a.name binders hb in
    let field = arg_field-OnLine a.name n in
    let later = read_bounds-append_args binders args hb ns in
    elim (Bool-cases (text_eq a.expand [])) [
      | inl e ↦
          let value = bind_value (arg_field a.name) b in
          rw (append_args, append_arg, e)
            (ap (read_bounds none) (
                lines-plain (codes "\targs = append(args, ") value (append_args binders args)
                  (OnLine-of_any (codes "\targs = append(args, ") (unfold any in refl))
                  (bind_value-OnLine (arg_field a.name) b field v))
              ∙ read_bounds-plain value (lines (append_args binders args))
              ∙ ap (λ bs. one value ∷ bs) later)
      | inr e ↦
          let element = bind_element (codes "v") b in
          rw (append_args, append_arg, e)
            (ap (read_bounds none) (
                lines-loop (replace_head a) (arg_field a.name) element (append_args binders args)
                  (replace_head-OnLine a n) field
                  (bind_element-OnLine (codes "v") b
                    (OnLine-of_any (codes "v") (unfold any in refl)) v))
              ∙ read_bounds-loop (replace_head a ++ codes ")), 1)") (arg_field a.name) element
                  (lines (append_args binders args)) (unfold cut_prefix in refl)
                  (unfold cut_prefix in refl)
              ∙ ap (λ bs. each (arg_field a.name) element ∷ bs) later)
    ]
