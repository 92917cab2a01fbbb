-- ===== src/Converge/Requests/Settings.antt =====
-- internal/converge/converge.go, `Package`: what a package takes over from the request and the options.
use sqlc_gen_unison.Base.{
  ◌≡◌, refl, subst, [], Text, text_eq, text_mem, not, ◌==◌, length, ok, bind-eq-ok, refuse, arith,
}
use sqlc_gen_unison.Base.Order.{sort_by}
use sqlc_gen_unison.Options.{Options, renames}
use sqlc_gen_unison.Ir.{Package}
use sqlc_gen_unison.Converge.Analysis.{Request, no_engine, not_in_roster, no_queries}
use sqlc_gen_unison.Converge.Prefix.{user_tables}
use sqlc_gen_unison.Converge.Types.{time_layout}
use sqlc_gen_unison.Converge.Requests.{
  converge_package, converge_queries, query_le, shared_of, statements_of,
}

pub record HasSettings (request : Request) (opts : Options) (version : Text) (pkg : Package)
    : Type 0 where
  pub name : pkg.name ≡ opts.package_name
  pub dialect : pkg.dialect ≡ request.engine
  pub sqlc_version : pkg.sqlc_version ≡ request.sqlc_version
  pub unison_version : pkg.unison_version ≡ version
  pub null_as : pkg.null_as ≡ opts.null_as
  pub time_layout : pkg.time_layout ≡ time_layout request.engine
  pub roster : pkg.roster ≡ opts.roster
  pub table_prefix : pkg.table_prefix ≡ opts.table_prefix_var

pub converge_package-HasSettings :
    (request : Request) (opts : Options) (version : Text) (pkg : Package)
    → converge_package request opts version ≡ ok pkg
    → HasSettings request opts version pkg
unfolding converge_package
converge_package-HasSettings request opts version pkg h =
    let dialect = request.engine in
    let tables = user_tables request.catalog in
    let queries = sort_by query_le request.queries in
    let (_, _, h1) = bind-eq-ok (refuse (text_eq dialect []) no_engine) _ h in
    let (_, _, h2) =
      bind-eq-ok (refuse (not (text_mem dialect opts.roster)) (not_in_roster dialect opts.roster)) _
        h1 in
    let (cs, _, h3) =
      bind-eq-ok (converge_queries opts (renames opts dialect) tables queries) _ h2 in
    let (_, _, h4) = bind-eq-ok (refuse (length cs == 0) (no_queries dialect)) _ h3 in
    let e : let x : Package = record {
      name = opts.package_name;
      dialect = dialect;
      sqlc_version = request.sqlc_version;
      unison_version = version;
      null_as = opts.null_as;
      time_layout = time_layout dialect;
      roster = opts.roster;
      queries = shared_of cs;
      statements = statements_of cs;
      table_prefix = opts.table_prefix_var;
    } in
        x ≡ pkg =
      ground arith in
    subst (HasSettings request opts version) e (record {
      name = refl;
      dialect = refl;
      sqlc_version = refl;
      unison_version = refl;
      null_as = refl;
      time_layout = refl;
      roster = refl;
      table_prefix = refl;
    })
