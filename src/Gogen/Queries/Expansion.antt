-- ===== src/Gogen/Queries/Expansion.antt =====
-- internal/emit/gogen: a statement that expands a list has the function that it calls.
use sqlc_gen_unison.Base.{
  ◌≡◌, refl, inl, inr, true, some, List, [], ◌∷◌, Text, codes, text_eq, text_eq_iff, any, arith,
  All, Bool-cases,
}
use sqlc_gen_unison.Ir.{FieldType, Field, Query, Arg, Statement, Package}
use sqlc_gen_unison.Strings.{contains, has_prefix}
use sqlc_gen_unison.Strings.Laws.{contains-behind, contains-before}
use sqlc_gen_unison.Converge.Params.Bindings.{type_of, Binds}
use sqlc_gen_unison.Converge.Requests.Packages.{ArePaired}
use sqlc_gen_unison.Gogen.Queries.Methods.{expands}
use sqlc_gen_unison.Gogen.Database.{is_slice, has_slice_params, emit_db}
use sqlc_gen_unison.Gogen.Templates.Database.{slice_placeholders_text}

type_of-any :
    (name : Text) (fields : List Field) (t : FieldType)
    → type_of name fields ≡ some t
    → t.slice ≡ true
    → any is_slice fields ≡ true
unfolding type_of any
type_of-any name [] t h k = cc
type_of-any name (f ∷ fields) t h k = elim (Bool-cases (text_eq f.name name)) [
  | inl e ↦ ground arith
  | inr e ↦ ground (arith, type_of-any name fields t)
]

expands-slices :
    (fields : List Field) (args : List Arg)
    → All (Binds fields) args
    → expands args ≡ true
    → any is_slice fields ≡ true
unfolding expands any
expands-slices fields [] h k = cc
expands-slices fields (a ∷ args) ((t, found, lists), hs) k =
    elim (Bool-cases (text_eq a.expand [])) [
      | inl e ↦ expands-slices fields args hs (ground arith)
      | inr e ↦
          type_of-any a.name fields t found (lists (λ q. ground (arith, text_eq_iff a.expand [])))
    ]

ArePaired-slices :
    (qs : List Query) (ss : List Statement)
    → ArePaired qs ss
    → any (λ s. expands s.args) ss ≡ true
    → any (λ q. any is_slice q.params) qs ≡ true
unfolding any
ArePaired-slices [] [] h k = cc
ArePaired-slices [] (s ∷ ss) h k = absurd h
ArePaired-slices (q ∷ qs) [] h k = absurd h
ArePaired-slices (q ∷ qs) (s ∷ ss) (_, pair, rest) k =
    ground (arith, expands-slices q.params s.args pair.bound, ArePaired-slices qs ss rest)

slice_placeholders_text-contains :
    contains slice_placeholders_text (codes "func slicePlaceholders(") ≡ true
unfolding slice_placeholders_text contains has_prefix
slice_placeholders_text-contains = refl

-- If queries stand beside their statements, as those of the core do, and a statement expands a list,
-- then the shared file declares the function that renders its placeholders.
pub emit_db-slice_placeholders :
    (pkg : Package)
    → ArePaired pkg.queries pkg.statements
    → any (λ s. expands s.args) pkg.statements ≡ true
    → contains (emit_db pkg) (codes "func slicePlaceholders(") ≡ true
unfolding emit_db has_slice_params
emit_db-slice_placeholders pkg h k = rw (ArePaired-slices pkg.queries pkg.statements h k) (
    contains-before _ _ (codes "func slicePlaceholders(") (
      contains-behind _ slice_placeholders_text (codes "func slicePlaceholders(")
        slice_placeholders_text-contains))
