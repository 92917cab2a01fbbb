-- ===== src/Gogen/Files/Errors.antt =====
-- internal/emit/gogen: which errors are left for a package that the core returned.
use sqlc_gen_unison.Base.{
  ◌≡◌, ◌≢◌, inl, inr, true, Option, some, List, [], ◌∷◌, Text, text_eq_iff, arith, All, All-map,
  Result, err, Option-cases,
}
use sqlc_gen_unison.Ir.{command_invalid, Query, Statement, Package}
use sqlc_gen_unison.Converge.Requests.Packages.{IsQuery, ArePaired}
use sqlc_gen_unison.Gogen.Names.{dialect_receiver}
use sqlc_gen_unison.Gogen.Imports.{ImportSet, no_imports}
use sqlc_gen_unison.Gogen.Types.{EmitError}
use sqlc_gen_unison.Gogen.Interface.{emit_types, emit_querier}
use sqlc_gen_unison.Gogen.Queries.Methods.{method_body, write_method}
use sqlc_gen_unison.Gogen.Queries.{
  write_shape_assertions, statement_for, methods_from, emit_queries,
}
use sqlc_gen_unison.Gogen.Files.{finish, emit}
use sqlc_gen_unison.Gogen.Files.Known.{
  Known, Known-ok, Known-bind, Known-map_err, types_from-Known, method_signature-Known,
  querier_from-Known, assertions_from-Known, is_known,
}

write_method-Known :
    (pkg : Package) (receiver : Text) (q : Query) (s : Statement) (imports : ImportSet)
    → q.command ≢ command_invalid
    → Known (write_method pkg receiver q s imports)
unfolding write_method method_body
write_method-Known pkg receiver q s imports h =
    Known-bind _ _ (method_signature-Known q imports h)
      (λ (signature, imports'). Known-bind _ _ (λ e g. ground arith) (λ body. Known-ok _))

abbrev Has : Text → List Statement → Type 0
Has name statements = (s : Statement) × (statement_for name statements ≡ some s)

methods_from-Known :
    (pkg : Package) (qs : List Query) (imports : ImportSet)
    → All (λ q. q.command ≢ command_invalid) qs
    → All (λ q. Has q.name pkg.statements) qs
    → Known (methods_from pkg qs imports)
unfolding methods_from
methods_from-Known pkg [] imports h k = Known-ok _
methods_from-Known pkg (q ∷ qs) imports (h, hs) ((s, k), ks) = rw k (
    Known-bind _ _ (write_method-Known pkg (dialect_receiver pkg.dialect) q s imports h)
      (λ (here, imports1).
        Known-bind _ _ (methods_from-Known pkg qs imports1 hs ks) (λ (rest, imports2). Known-ok _)))

Has-cons :
    (name : Text) (s : Statement) (statements : List Statement)
    → Has name statements
    → Has name (s ∷ statements)
unfolding statement_for
Has-cons name s statements (t, h) = (t, ground arith)

Has-here :
    (name : Text) (s : Statement) (statements : List Statement)
    → s.name ≡ name
    → Has name (s ∷ statements)
unfolding statement_for
Has-here name s statements h = elim (Option-cases (statement_for name statements)) [
  | inl e ↦ (s, ground (arith, text_eq_iff s.name name))
  | inr (t, e) ↦ (t, ground arith)
]

ArePaired-Has :
    (qs : List Query) (ss : List Statement) → ArePaired qs ss → All (λ q. Has q.name ss) qs
ArePaired-Has [] [] h = tt
ArePaired-Has [] (s ∷ ss) h = absurd h
ArePaired-Has (q ∷ qs) [] h = absurd h
ArePaired-Has (q ∷ qs) (s ∷ ss) (_, pair, rest) = (
  Has-here q.name s ss pair.same_name,
  All-map (λ r h. Has-cons r.name s ss h) qs (ArePaired-Has qs ss rest),
)

ArePaired-IsQuery : (qs : List Query) (ss : List Statement) → ArePaired qs ss → All IsQuery qs
ArePaired-IsQuery [] [] h = tt
ArePaired-IsQuery [] (s ∷ ss) h = absurd h
ArePaired-IsQuery (q ∷ qs) [] h = absurd h
ArePaired-IsQuery (q ∷ qs) (s ∷ ss) (here, _, rest) = (here, ArePaired-IsQuery qs ss rest)

module _ (format : Text → Option Text) where
  finish-Known :
      (name : Text) (source : Result EmitError Text)
      → Known source
      → Known (finish format name source)
  unfolding finish
  finish-Known name source h = Known-bind _ _ (Known-map_err name source h) (λ text.
      elim (Option-cases (format text)) [
        | inl e ↦ rw e (λ e' g. ground arith)
        | inr (formatted, e) ↦ rw e (Known-ok _)
      ])

  -- Emitting queries that stand beside their statements, as those of the core do, fails only for a
  -- consumer's own type that is refused, or where the formatter refuses the source: never for a field
  -- without a type, a query without a command or a statement, or a run out of fuel.
  pub emit-err :
      (pkg : Package) (e : EmitError)
      → ArePaired pkg.queries pkg.statements
      → emit format pkg ≡ err e
      → is_known e ≡ true
  unfolding emit emit_types emit_querier emit_queries write_shape_assertions
  emit-err pkg e h k =
      let valid = ArePaired-IsQuery pkg.queries pkg.statements h in
      let commands = All-map (λ q (v : IsQuery q). v.command) pkg.queries valid in
      let params =
        All-map (λ q (v : IsQuery q). All-map (λ f (m, _). m) q.params v.params) pkg.queries
          valid in
      let columns =
        All-map (λ q (v : IsQuery q). All-map (λ f (_, m, _). m) q.columns v.columns) pkg.queries
          valid in
      let types =
        Known-bind _ _ (types_from-Known pkg.null_as pkg.queries no_imports params columns)
          (λ (body, imports). Known-ok _) in
      let querier =
        Known-bind _ _ (querier_from-Known pkg.queries _ commands)
          (λ (methods, imports). Known-ok _) in
      let queries =
        Known-bind _ _
          (methods_from-Known pkg pkg.queries _ commands
            (ArePaired-Has pkg.queries pkg.statements h))
          (λ (methods, imports2).
            Known-bind _ _
              (Known-bind _ _
                (assertions_from-Known pkg.null_as pkg.queries imports2 params columns)
                (λ (body, imports'). Known-ok _))
              (λ (assertions, imports3). Known-ok _)) in
      Known-bind _ _ (finish-Known _ _ (Known-ok _))
        (λ f1. Known-bind _ _ (finish-Known _ _ types) (λ f2.
          Known-bind _ _ (finish-Known _ _ querier)
            (λ f3. Known-bind _ _ (finish-Known _ _ queries) (λ f4. Known-ok _))))
        e k
