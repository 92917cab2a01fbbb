-- ===== src/Converge/Params/Shapes.antt =====
-- internal/converge/converge.go, `convergeParams`: what one round has passed when it succeeds, and
-- the shapes that a whole run returns.
use sqlc_gen_unison.Base.{
  ◌≡◌, refl, ap, ◌∙◌, ◌⊎◌, ◌↔◌, inl, inr, text_eq_iff, Bool, true, false, ◌&&◌, none, some, List,
  [], ◌∷◌, ◌++◌, Text, text_eq, arith, Result, ok, err, refuse, map_err, bind-eq-ok, Option-cases,
}
use sqlc_gen_unison.Ir.{FieldType}
use sqlc_gen_unison.Options.{Options, map_get, override_for}
use sqlc_gen_unison.Converge.Analysis.{Parameter, unnamed_param, in_param, nullable_list}
use sqlc_gen_unison.Converge.Types.{map_type}
use sqlc_gen_unison.Converge.Slices.{ListKind, list_of, element_type_name}
use sqlc_gen_unison.Converge.Params.{
  Params, renamed, is_list, see, bind_arg, converge_param, type_eq,
}

-- One round that succeeds.
pub record Stepped (opts : Options) (renames : List (Text × Text)) (st : Params) (param : Parameter)
    (st' : Params) : Type 0 where
  pub list : ListKind
  pub mapped : FieldType
  pub after : Params
  pub named : text_eq param.column.name [] ≡ false
  pub listed : list_of param.column ≡ ok list
  pub typed :
      map_type param.column.table_name
        (renamed renames param.column.name)
        (element_type_name param.column)
        param.column.not_null
        (override_for opts)
      ≡ ok mapped
  pub allowed : (is_list list && mapped.nullable) ≡ false
  pub saw :
      see (renamed renames param.column.name) (record mapped { slice = is_list list }) st ≡ ok after
  pub params : st'.params ≡ after.params
  pub seen : st'.seen ≡ after.seen
  pub args :
      st'.args
      ≡ after.args ++ bind_arg (renamed renames param.column.name) param.column.name list ∷ []

refuse-eq-ok : {E : Type 0} (b : Bool) (e : E) → refuse b e ≡ ok tt → b ≡ false
refuse-eq-ok true e h = cc
refuse-eq-ok false e h = refl

map_err-eq-ok :
    {E F A : Type 0} (f : E → F) (r : Result E A) {a : A} → map_err f r ≡ ok a → r ≡ ok a
map_err-eq-ok f (ok a) h = ground arith
map_err-eq-ok f (err e) h = cc

module _ (opts : Options) (renames : List (Text × Text)) where
  pub converge_param-Stepped :
      (st : Params) (param : Parameter) (st' : Params)
      → converge_param opts renames st param ≡ ok st'
      → Stepped opts renames st param st'
  unfolding converge_param
  converge_param-Stepped st param st' h =
      let name = renamed renames param.column.name in
      let (_, named, h1) =
        bind-eq-ok (refuse (text_eq param.column.name []) (unnamed_param param.number)) _ h in
      let (list, listed, h2) = bind-eq-ok (map_err (in_param name) (list_of param.column)) _ h1 in
      let (mapped, typed, h3) =
        bind-eq-ok
          (map_type param.column.table_name name (element_type_name param.column)
            param.column.not_null (override_for opts))
          _ h2 in
      let (_, allowed, h4) =
        bind-eq-ok (refuse (is_list list && mapped.nullable) (nullable_list name)) _ h3 in
      let (after, saw, h5) =
        bind-eq-ok (see name (record mapped { slice = is_list list }) st) _ h4 in
      record {
        list = list;
        mapped = mapped;
        after = after;
        named = ground arith;
        listed = map_err-eq-ok (in_param name) (list_of param.column) listed;
        typed = typed;
        allowed = ground arith;
        saw = saw;
        params = ground arith;
        seen = ground arith;
        args = ground arith;
      }

pub type_eq_iff : (a b : FieldType) → (type_eq a b ≡ true) ↔ (a ≡ b)
unfolding type_eq
type_eq_iff a b = ground (arith, text_eq_iff a.override b.override)

-- What `see` does: an old name keeps the state, a new one is added.
pub see-eq-ok :
    (name : Text) (t : FieldType) (st st' : Params)
    → see name t st ≡ ok st'
    → ((map_get name st.seen ≡ some t) × (t.slice ≡ false) × (st' ≡ st))
      ⊎ ((map_get name st.seen ≡ none)
          × (st' ≡ record st {
            params = st.params ++ record { name = name; type = t } ∷ [];
            seen = (name, t) ∷ st.seen;
          }))
unfolding see
see-eq-ok name t st st' h = elim (Option-cases (map_get name st.seen)) [
  | inl fresh ↦ inr (fresh, ground arith)
  | inr (old, known) ↦
      let same = (type_eq_iff old t).0 (ground arith) in
      inl (known ∙ ap some same, ground arith, ground arith)
]
