-- ===== src/Converge/Params/Fields.antt =====
-- internal/converge/converge.go, `convergeParams`: the fields that a run returns have types, each
-- placeholder binds one of them, and a list is bound once.
use sqlc_gen_unison.Base.{
  ◌≡◌, ◌≢◌, refl, sym, ap, ◌∙◌, inl, inr, true, false, none, some, List, [], ◌∷◌, ◌++◌, Text,
  text_eq_iff, text_eq_refl, arith, All, All-append, All-map, All-map₂, ok, bind-eq-ok, subst,
}
use sqlc_gen_unison.Ir.{FieldType, Field, Arg}
use sqlc_gen_unison.Options.{Options, map_get, override_for}
use sqlc_gen_unison.Converge.Analysis.{Parameter}
use sqlc_gen_unison.Converge.Types.Mapped.{map_type-IsMapped, NamesTypes}
use sqlc_gen_unison.Gogen.Types.Renders.{Renders, IsMapped-Renders}
use sqlc_gen_unison.Converge.Params.{
  Params, renamed, is_list, bind_arg, converge_param, params_from, converge_params,
}
use sqlc_gen_unison.Converge.Params.Shapes.{Stepped, converge_param-Stepped, see-eq-ok}
use sqlc_gen_unison.Converge.Params.Bindings.{
  Binds-append, type_of, IsRenderable, Binds, IsBoundOnce, type_of-append, uses-append,
  uses_of_Binds, bind_arg-name, bind_arg_list,
}

-- The loop's invariant.
record Agrees (st : Params) : Type 0 where
  same : (name : Text) → map_get name st.seen ≡ type_of name st.params
  known : All (λ f. type_of f.name st.params ≡ some f.type) st.params
  renderable : All IsRenderable st.params
  bound : All (Binds st.params) st.args
  once : All (IsBoundOnce st.args) st.params

-- What one round adds: a placeholder `a` of this name and type, whose field is new or old.
module _ (name : Text) (t : FieldType) (a : Arg) (its : a.name ≡ name)
    (lists : a.expand ≢ [] → t.slice ≡ true) where
  Agrees-old :
      (st : Params)
      → Agrees st
      → map_get name st.seen ≡ some t
      → t.slice ≡ false
      → Agrees (record st { args = st.args ++ a ∷ [] })
  Agrees-old st v old scalar = record {
    same = v.same;
    known = v.known;
    renderable = v.renderable;
    bound =
        All-append (Binds st.params) st.args (a ∷ []) v.bound
          ((t, ap (λ n. type_of n st.params) its ∙ sym (v.same name) ∙ old, lists), tt);
    once =
        All-map₂
          (λ f known once slice. ground (
            arith,
            once slice,
            uses-append f.name st.args a,
            text_eq_iff a.name f.name,
            v.same name,
          ))
          st.params v.known v.once;
  }

  Agrees-new :
      (st : Params)
      → Agrees st
      → IsRenderable (record { name = name; type = t })
      → map_get name st.seen ≡ none
      → Agrees (record {
        params = st.params ++ record { name = name; type = t } ∷ [];
        seen = (name, t) ∷ st.seen;
        args = st.args ++ a ∷ [];
      })
  unfolding map_get
  Agrees-new st v good fresh = record {
    same = λ n. ground (
      arith,
      type_of-append n st.params (record { name = name; type = t }),
      v.same n,
      v.same name,
      text_eq_iff name n,
    );
    known =
        All-append
          (λ f. type_of f.name (st.params ++ record { name = name; type = t } ∷ []) ≡ some f.type)
          st.params _
          (All-map
            (λ f known.
              ground (arith, type_of-append f.name st.params (record { name = name; type = t })))
            st.params v.known)
          (added, tt);
    renderable = All-append IsRenderable st.params _ v.renderable (good, tt);
    bound =
        All-append (Binds (st.params ++ record { name = name; type = t } ∷ [])) st.args (a ∷ [])
          (All-map (Binds-append st.params (record { name = name; type = t })) st.args v.bound)
          (
            (
              t,
              ap (λ n. type_of n (st.params ++ record { name = name; type = t } ∷ [])) its ∙ added,
              lists,
            ),
            tt,
          );
    once =
        All-append (IsBoundOnce (st.args ++ a ∷ [])) st.params _
          (All-map₂
            (λ f known once slice. ground (
              arith,
              once slice,
              uses-append f.name st.args a,
              text_eq_iff a.name f.name,
              v.same name,
            ))
            st.params v.known v.once)
          (
            (λ slice. ground (
              arith,
              uses-append name st.args a,
              text_eq_iff a.name name,
              uses_of_Binds name st.params st.args v.bound,
              v.same name,
            )),
            tt,
          );
  }
    where
      added : type_of name (st.params ++ record { name = name; type = t } ∷ []) ≡ some t
      added = ground (
        arith,
        type_of-append name st.params (record { name = name; type = t }),
        v.same name,
        text_eq_refl name,
      )

module _ (opts : Options) (names : NamesTypes (override_for opts))
    (renames : List (Text × Text)) where
  Stepped-Agrees :
      (st : Params) (param : Parameter) (st' : Params)
      → Stepped opts renames st param st'
      → Agrees st
      → Agrees st'
  Stepped-Agrees st param st' s v =
      let reported = param.column.name in
      let name = renamed renames reported in
      let t = record (s.mapped) { slice = is_list s.list } in
      let a = bind_arg name reported s.list in
      let its = bind_arg-name name reported s.list in
      let lists = bind_arg_list name reported s.list in
      let (mapped, _, _) = map_type-IsMapped _ _ _ _ _ s.mapped names s.typed in
      elim (see-eq-ok name t st s.after s.saw) [
        | inl (known, scalar, e) ↦
            subst Agrees (ground arith) (Agrees-old name t a its lists st v known scalar)
        | inr (fresh, e) ↦
            subst Agrees (ground arith)
              (Agrees-new name t a its lists st v (mapped, s.allowed) fresh)
      ]

  params_from-Agrees :
      (st : Params) (params : List Parameter) (st' : Params)
      → params_from opts renames st params ≡ ok st'
      → Agrees st
      → Agrees st'
  unfolding params_from
  params_from-Agrees st [] st' h v = subst Agrees (ground arith) v
  params_from-Agrees st (p ∷ params) st' h v =
      let (st1, stepped, rest) = bind-eq-ok (converge_param opts renames st p) _ h in
      params_from-Agrees st1 params st' rest
        (Stepped-Agrees st p st1 (converge_param-Stepped opts renames st p st1 stepped) v)

-- Where the overrides name types, as complete ones do: the fields of a run that succeeds are a consumer's
-- own types or of a converged kind, and no list among them is nullable; each placeholder binds one of the
-- fields, and expands only for a list; a list is bound by exactly one placeholder; and every field's type
-- is rendered by the emitter, but for a consumer's own that is refused for naming a package without its
-- import path or an import path without a type.
pub converge_params-fields :
    (opts : Options) (renames : List (Text × Text)) (params : List Parameter) (fields : List Field)
    (args : List Arg)
    → NamesTypes (override_for opts)
    → converge_params opts renames params ≡ ok (fields, args)
    → All IsRenderable fields
      × All (Binds fields) args
      × All (IsBoundOnce args) fields
      × All (λ f. Renders f.type) fields
unfolding converge_params map_get type_of
converge_params-fields opts renames params fields args names h =
    let empty : Params = record { params = []; args = []; seen = [] } in
    let (st, ran, rest) = bind-eq-ok (params_from opts renames empty params) _ h in
    let v =
      params_from-Agrees opts names renames empty params st ran
        (record { same = λ n. refl; known = tt; renderable = tt; bound = tt; once = tt }) in
    subst
      (λ (r : List Field × List Arg).
        All IsRenderable r.0
        × All (Binds r.0) r.1
        × All (IsBoundOnce r.1) r.0
        × All (λ f. Renders f.type) r.0)
      (ground arith)
      (
        v.renderable,
        v.bound,
        v.once,
        All-map (λ f m. IsMapped-Renders f.type m.0) st.params v.renderable,
      )
