-- ===== src/Converge/Params/Names.antt =====
-- internal/converge/converge.go, `convergeParams`: names and their order. The placeholders keep the
-- order in which the analyzer lists them, and the fields are their distinct names, first seen first.
use sqlc_gen_unison.Base.{
  subst, Bool-cases, ℕ, ◌≡◌, refl, sym, ap, ap₂, ◌∙◌, ◌↔◌, inl, inr, true, false, ◌||◌, none, List,
  [], ◌∷◌, ◌++◌, map, Text, text_eq, text_eq_iff, text_mem, if◌then◌else◌, arith, ok, bind-eq-ok,
  any, append-nil, append_assoc,
}
use sqlc_gen_unison.Ir.{Field, Arg}
use sqlc_gen_unison.Options.{Options, map_get}
use sqlc_gen_unison.Converge.Analysis.{Column, Parameter}
use sqlc_gen_unison.Converge.Params.{
  Params, renamed, is_list, bind_arg, converge_param, params_from, converge_params,
}
use sqlc_gen_unison.Converge.Params.Shapes.{Stepped, converge_param-Stepped, see-eq-ok}
use sqlc_gen_unison.Converge.Params.Bindings.{bind_arg-name}

-- A list without what has come before, in it or in `seen`.
unfoldable pub distinct_from : List Text → List Text → List Text
distinct_from seen [] = []
distinct_from seen (x ∷ xs) = elim (text_mem x seen) [
  | true ↦ distinct_from seen xs
  | false ↦ x ∷ distinct_from (x ∷ seen) xs
]

abbrev pub distinct : List Text → List Text
distinct xs = distinct_from [] xs

distinct_from-append :
    (seen xs : List Text) (x : Text)
    → distinct_from seen (xs ++ x ∷ []) ≡ (
        if text_mem x seen || text_mem x xs
        then distinct_from seen xs
        else distinct_from seen xs ++ x ∷ [])
unfolding distinct_from text_mem any
distinct_from-append seen [] x = ground arith
distinct_from-append seen (y ∷ xs) x =
    ground
      (arith, distinct_from-append seen xs x, distinct_from-append (y ∷ seen) xs x, text_eq_iff x y)

map-concat {ℓ κ} :
    {A : Type ℓ} {B : Type κ} (f : A → B) (xs : List A) (x : A)
    → map f (xs ++ x ∷ []) ≡ map f xs ++ f x ∷ []
map-concat f [] x = refl
map-concat f (y ∷ xs) x = ap (◌∷◌ (f y)) (map-concat f xs x)

abbrev pub arg_names : List Arg → List Text
arg_names = map (λ a. a.name)

abbrev pub field_names : List Field → List Text
field_names = map (λ f. f.name)

distinct-append :
    (xs : List Text) (x : Text)
    → distinct (xs ++ x ∷ []) ≡ (if text_mem x xs then distinct xs else distinct xs ++ x ∷ [])
unfolding text_mem any
distinct-append xs x = distinct_from-append [] xs x

text_mem-append :
    (n : Text) (xs : List Text) (x : Text)
    → text_mem n (xs ++ x ∷ []) ≡ (text_mem n xs || text_eq n x)
unfolding text_mem any
text_mem-append n [] x = ground arith
text_mem-append n (y ∷ xs) x = ground (arith, text_mem-append n xs x)

-- The loop's invariant, when placeholders of the names `done` have been bound.
record Follows (done : List Text) (st : Params) : Type 0 where
  bound : arg_names st.args ≡ done
  fields : field_names st.params ≡ distinct done
  seen : (name : Text) → (map_get name st.seen ≡ none) ↔ (text_mem name done ≡ false)

module _ (opts : Options) (renames : List (Text × Text)) where
  abbrev pub shared_name : Parameter → Text
  shared_name p = renamed renames p.column.name

  Stepped-Follows :
      (done : List Text) (st : Params) (param : Parameter) (st' : Params)
      → Stepped opts renames st param st'
      → Follows done st
      → Follows (done ++ shared_name param ∷ []) st'
  unfolding map_get
  Stepped-Follows done st param st' s v =
      let reported = param.column.name in
      let name = renamed renames reported in
      let t = record (s.mapped) { slice = is_list s.list } in
      let its = bind_arg-name name reported s.list in
      let a = bind_arg name reported s.list in
      let bound = λ (e : arg_names s.after.args ≡ arg_names st.args).
        ap arg_names s.args
        ∙ map-concat (λ a. a.name) s.after.args a
        ∙ ap₂ (λ xs x. xs ++ x ∷ []) (e ∙ v.bound) its in
      elim (see-eq-ok name t st s.after s.saw) [
        | inl (known, scalar, e) ↦ record {
          bound = bound (ap (λ z. arg_names z.args) e);
          fields =
              ap field_names s.params
              ∙ ap (λ z. field_names z.params) e
              ∙ v.fields
              ∙ ground (arith, v.seen name, distinct-append done name);
          seen = λ n.
              ground (
                arith,
                s.seen,
                e,
                v.seen n,
                text_mem-append n done name,
                text_eq_iff n name,
                known,
              );
        }
        | inr (fresh, e) ↦ record {
          bound = bound (ap (λ z. arg_names z.args) e);
          fields =
              ap field_names s.params
              ∙ ap (λ z. field_names z.params) e
              ∙ map-concat (λ f. f.name) st.params (record { name = name; type = t })
              ∙ ap (λ xs. xs ++ name ∷ []) v.fields
              ∙ ground (arith, v.seen name, distinct-append done name);
          seen = λ n. ground (
            arith,
            s.seen,
            ap (λ z. z.seen) e,
            v.seen n,
            text_mem-append n done name,
            text_eq_iff n name,
            text_eq_iff name n,
          );
        }
      ]

  params_from-Follows :
      (done : List Text) (st : Params) (params : List Parameter) (st' : Params)
      → params_from opts renames st params ≡ ok st'
      → Follows done st
      → Follows (done ++ map shared_name params) st'
  unfolding params_from
  params_from-Follows done st [] st' h v = rw append-nil (subst (Follows done) (ground arith) v)
  params_from-Follows done st (p ∷ params) st' h v =
      let (st1, stepped, rest) = bind-eq-ok (converge_param opts renames st p) _ h in
      let s = converge_param-Stepped opts renames st p st1 stepped in
      rw append_assoc at (
        params_from-Follows (done ++ shared_name p ∷ []) st1 params st' rest
          (Stepped-Follows done st p st1 s v))

  -- The placeholders of a run that succeeds bind the analyzed parameters' shared names, in the order
  -- in which the analyzer lists the parameters, and the fields are the distinct ones of those names,
  -- in the order of their first placeholders.
  pub converge_params-names :
      (params : List Parameter) (fields : List Field) (args : List Arg)
      → converge_params opts renames params ≡ ok (fields, args)
      → (arg_names args ≡ map shared_name params) × (field_names fields ≡ distinct (arg_names args))
  unfolding converge_params map_get distinct_from text_mem any
  converge_params-names params fields args h =
      let empty : Params = record { params = []; args = []; seen = [] } in
      let (st, ran, rest) = bind-eq-ok (params_from opts renames empty params) _ h in
      let v =
        params_from-Follows [] empty params st ran
          (record { bound = refl; fields = refl; seen = λ n. (λ _. refl, λ _. refl) }) in
      subst
        (λ (r : List Field × List Arg).
          (arg_names r.1 ≡ map shared_name params) × (field_names r.0 ≡ distinct (arg_names r.1)))
        (ground arith) (v.bound, v.fields ∙ ap distinct (sym v.bound))

  converge_param_number :
      (st : Params) (c : Column) (m n : ℕ) {st' : Params}
      → converge_param opts renames st (record { number = m; column = c }) ≡ ok st'
      → converge_param opts renames st (record { number = n; column = c }) ≡ ok st'
  unfolding converge_param
  converge_param_number st c m n h = elim (Bool-cases (text_eq c.name [])) [
    | inl e ↦ cc (rw e at h)
    | inr e ↦ rw e (rw e at h)
  ]

  params_from_number :
      (st : Params) (ps : List Parameter) (number : Column → ℕ) {st' : Params}
      → params_from opts renames st ps ≡ ok st'
      → params_from opts renames st
          (map {A = Parameter} (λ p. record p { number = number p.column }) ps)
        ≡ ok st'
  unfolding params_from
  params_from_number st [] number h = h
  params_from_number st (p ∷ ps) number h =
      let (st1, stepped, rest) = bind-eq-ok (converge_param opts renames st p) _ h in
      let again = converge_param_number st p.column p.number (number p.column) stepped in
      rw again (params_from_number st1 ps number rest)

  -- The numbers that the analyzer gives to the parameters change nothing in a run that succeeds.
  pub converge_params_number :
      (ps : List Parameter) (number : Column → ℕ) {r : List Field × List Arg}
      → converge_params opts renames ps ≡ ok r
      → converge_params opts renames
          (map {A = Parameter} (λ p. record p { number = number p.column }) ps)
        ≡ ok r
  unfolding converge_params
  converge_params_number ps number h =
      let (st, ran, rest) = bind-eq-ok (params_from opts renames _ ps) _ h in
      rw (params_from_number _ ps number ran) rest
