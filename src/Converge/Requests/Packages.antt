-- ===== src/Converge/Requests/Packages.antt =====
-- internal/converge/converge.go, `convergeQuery` and `Package`: what a request that is accepted has
-- become.
use mathlib.Core.List.Perm
use sqlc_gen_unison.Base.{
  ◌≡◌, ◌≢◌, refl, ap₂, true, false, not, List, [], ◌∷◌, map, Text, text_eq, text_mem, ◌==◌, length,
  arith, All, Result, ok, err, refuse, map_err, bind-eq-ok, Perm, subst,
}
use sqlc_gen_unison.Base.Order.{
  text_le, text_order, IsOrder, IsSorted, sort_by, sort_by-IsSorted, sort_by-perm,
}
use sqlc_gen_unison.Ir.{command_invalid, Query, Statement, Package}
use sqlc_gen_unison.Options.{Options, renames, override_for}
use sqlc_gen_unison.Converge.Analysis.{
  AnalyzedQuery, Request, in_query, no_engine, not_in_roster, no_queries,
}
use sqlc_gen_unison.Converge.Types.Mapped.{NamesTypes}
use sqlc_gen_unison.Converge.Prefix.{user_tables}
use sqlc_gen_unison.Converge.Types.{time_layout}
use sqlc_gen_unison.Converge.Slices.{check_expansions}
use sqlc_gen_unison.Converge.Slices.Sites.{IsExpandable, check_expansions_iff}
use sqlc_gen_unison.Converge.Params.{converge_params}
use sqlc_gen_unison.Converge.Params.Bindings.{IsRenderable, Binds, IsBoundOnce}
use sqlc_gen_unison.Converge.Params.Fields.{converge_params-fields}
use sqlc_gen_unison.Converge.Columns.{converge_columns}
use sqlc_gen_unison.Converge.Columns.Rows.{IsScalar, converge_columns-rows}
use sqlc_gen_unison.Converge.Requests.{
  Converged, parse_command, marked_text, converge_query, converge_queries, query_le, shared_of,
  statements_of, converge_package,
}
use sqlc_gen_unison.Converge.Requests.Commands.{parse_command-eq-ok}

-- A shared query that an emitter can render.
pub record IsQuery (q : Query) : Type 0 where
  pub command : q.command ≢ command_invalid
  pub params : All IsRenderable q.params
  pub columns : All IsScalar q.columns

-- A query and this dialect's statement of it.
pub record IsPair (q : Query) (s : Statement) : Type 0 where
  pub same_name : s.name ≡ q.name
  pub bound : All (Binds q.params) s.args
  pub once : All (IsBoundOnce s.args) q.params
  pub expandable : IsExpandable s.sql s.args

-- Each query stands beside its statement.
abbrev pub ArePaired : List Query → List Statement → Type 0
ArePaired [] [] = Unit
ArePaired (q ∷ qs) (s ∷ ss) = IsQuery q × IsPair q s × ArePaired qs ss
ArePaired _ _ = ⊥

abbrev pub query_names : List Query → List Text
query_names = map (λ q. q.name)

map_err-eq-ok :
    {E F A : Type 0} (f : E → F) (r : Result E A) {a : A} → map_err f r ≡ ok a → r ≡ ok a
map_err-eq-ok f (ok a) h = ground arith
map_err-eq-ok f (err e) h = cc

module _ (opts : Options) (names : NamesTypes (override_for opts)) (renames : List (Text × Text))
    (tables : List Text) where
  converge_query-IsPair :
      (query : AnalyzedQuery) (c : Converged)
      → converge_query opts renames tables query ≡ ok c
      → (c.shared.name ≡ query.name) × IsQuery c.shared × IsPair c.shared c.statement
  unfolding converge_query
  converge_query-IsPair query c h =
      let within = in_query query.name in
      let (command, parsed, h1) = bind-eq-ok (map_err within (parse_command query.cmd)) _ h in
      let (bindings, bound, h2) =
        bind-eq-ok (map_err within (converge_params opts renames query.params)) _ h1 in
      let (columns, rows, h3) =
        bind-eq-ok (map_err within (converge_columns opts query.columns command)) _ h2 in
      let marked = marked_text opts tables query.text in
      let (_, checked, h4) =
        bind-eq-ok (map_err within (check_expansions marked.text bindings.1)) _ h3 in
      let (valid, _) = parse_command-eq-ok query.cmd command (map_err-eq-ok within _ parsed) in
      let (renderable, binds, once, _) =
        converge_params-fields opts renames query.params bindings.0 bindings.1 names
          (map_err-eq-ok within _ bound) in
      let (_, _, _, scalar, _) =
        converge_columns-rows opts query.columns command columns names
          (map_err-eq-ok within _ rows) in
      let sites =
        (check_expansions_iff marked.text bindings.1).0 (map_err-eq-ok within _ checked) in
      let e : let x : Converged = record {
        shared = record {
          name = query.name;
          params = bindings.0;
          columns = columns;
          command = command;
        };
        statement = record { name = query.name; sql = marked.text; args = bindings.1 };
        warned = marked.warned;
      } in
          x ≡ c =
        ground arith in
      subst (λ c. (c.shared.name ≡ query.name) × IsQuery c.shared × IsPair c.shared c.statement) e
        (
          refl,
          record { command = valid; params = renderable; columns = scalar },
          record { same_name = refl; bound = binds; once = once; expandable = sites },
        )

  converge_queries-ArePaired :
      (queries : List AnalyzedQuery) (cs : List Converged)
      → converge_queries opts renames tables queries ≡ ok cs
      → (query_names (shared_of cs) ≡ map (λ q. q.name) queries)
        × ArePaired (shared_of cs) (statements_of cs)
  unfolding converge_queries shared_of statements_of
  converge_queries-ArePaired [] cs h =
      let e : [] ≡ cs = ground arith in
      subst (λ cs. (query_names (shared_of cs) ≡ []) × ArePaired (shared_of cs) (statements_of cs))
        e (refl, tt)
  converge_queries-ArePaired (query ∷ queries) cs h =
      let (c, first, h1) = bind-eq-ok (converge_query opts renames tables query) _ h in
      let (rest, later, h2) = bind-eq-ok (converge_queries opts renames tables queries) _ h1 in
      let (name, good, pair) = converge_query-IsPair query c first in
      let (rest_names, rest_pairs) = converge_queries-ArePaired queries rest later in
      let e : c ∷ rest ≡ cs = ground arith in
      subst
        (λ cs.
          (query_names (shared_of cs) ≡ map (λ q. q.name) (query ∷ queries))
          × ArePaired (shared_of cs) (statements_of cs))
        e (ap₂ ◌∷◌ name rest_names, (good, pair, rest_pairs))

-- What a request that is accepted has become.
pub record IsPackage (request : Request) (opts : Options) (version : Text) (pkg : Package)
    : Type 0 where
  pub in_roster : text_mem pkg.dialect pkg.roster ≡ true
  pub inhabited : pkg.queries ≢ []
  pub sorted : IsSorted text_le (query_names pkg.queries)
  pub all_queries : Perm (query_names pkg.queries) (map (λ q. q.name) request.queries)
  pub paired : ArePaired pkg.queries pkg.statements
  pub dialect : pkg.dialect ≡ request.engine
  pub roster : pkg.roster ≡ opts.roster
  pub name : pkg.name ≡ opts.package_name
  pub versions : (pkg.sqlc_version ≡ request.sqlc_version) × (pkg.unison_version ≡ version)

shared_of-ne-nil : (cs : List Converged) → (length cs == 0) ≡ false → shared_of cs ≢ []
unfolding shared_of
shared_of-ne-nil [] h = cc
shared_of-ne-nil (c ∷ cs) h = cc

query_order : IsOrder query_le
query_order = record {
  total = λ a b. text_order.total a.name b.name;
  trans = λ a b c. text_order.trans a.name b.name c.name;
}

All-names :
    (n : Text) (queries : List AnalyzedQuery)
    → All (λ q. text_le n q.name ≡ true) queries
    → All (λ m. text_le n m ≡ true) (map (λ q. q.name) queries)
All-names n [] h = tt
All-names n (q ∷ queries) (h, hs) = (h, All-names n queries hs)

IsSorted-names :
    (queries : List AnalyzedQuery)
    → IsSorted query_le queries
    → IsSorted text_le (map (λ q. q.name) queries)
IsSorted-names [] h = tt
IsSorted-names (q ∷ queries) (h, hs) = (All-names q.name queries h, IsSorted-names queries hs)

-- A package that is returned is of a dialect in the roster; it holds at least one query, one for each
-- analyzed query, sorted by name; and each has its statement in the same place, whose placeholders
-- bind the query's parameters, a list by exactly one, with an expansion only in the last place, where
-- its site occurs once. The overrides have to name types, as complete ones do.
pub converge_package-IsPackage :
    (request : Request) (opts : Options) (version : Text) (pkg : Package)
    → NamesTypes (override_for opts)
    → converge_package request opts version ≡ ok pkg
    → IsPackage request opts version pkg
unfolding converge_package
converge_package-IsPackage request opts version pkg names h =
    let dialect = request.engine in
    let tables = user_tables request.catalog in
    let queries = sort_by query_le request.queries in
    let (_, _, h1) = bind-eq-ok (refuse (text_eq dialect []) no_engine) _ h in
    let (_, known, h2) =
      bind-eq-ok (refuse (not (text_mem dialect opts.roster)) (not_in_roster dialect opts.roster)) _
        h1 in
    let (cs, converged, h3) =
      bind-eq-ok (converge_queries opts (renames opts dialect) tables queries) _ h2 in
    let (_, some_query, h4) = bind-eq-ok (refuse (length cs == 0) (no_queries dialect)) _ h3 in
    let (same, pairs) =
      converge_queries-ArePaired opts names (renames opts dialect) tables queries cs converged in
    let e : let x : Package = record {
      name = opts.package_name;
      dialect = dialect;
      sqlc_version = request.sqlc_version;
      unison_version = version;
      null_as = opts.null_as;
      time_layout = time_layout dialect;
      roster = opts.roster;
      queries = shared_of cs;
      statements = statements_of cs;
      table_prefix = opts.table_prefix_var;
    } in
        x ≡ pkg =
      ground arith in
    subst (IsPackage request opts version) e (record {
      in_roster = ground arith;
      inhabited = shared_of-ne-nil cs (ground arith);
      sorted =
          rw same (IsSorted-names queries (sort_by-IsSorted query_le query_order request.queries));
      all_queries = rw same (Perm.map (λ q. q.name) (sort_by-perm query_le request.queries));
      paired = pairs;
      dialect = refl;
      roster = refl;
      name = refl;
      versions = (refl, refl);
    })
