-- ===== src/Plugin/Errors.antt =====
-- internal/generate: what a whole plugin run gives, for any analysis.
use sqlc_gen_unison.Base.{
  ◌≡◌, refl, sym, ◌∙◌, ap, subst, inl, inr, true, not, Option, List, Text, ◌==◌, length, Result, ok,
  err, ◌>>=◌, refuse, map_err, map_err-eq-ok, ok_unique, bind-eq-ok, Result-cases, Bool-cases,
  Option-cases, arith,
}
use sqlc_gen_unison.Options.{Options, normalize, parse}
use sqlc_gen_unison.Options.Normalize.{IsNormal, normalize-IsNormal}
use sqlc_gen_unison.Ir.{Query, Package}
use sqlc_gen_unison.Converge.Types.Mapped.{override_for-NamesTypes}
use sqlc_gen_unison.Converge.Requests.{converge_package}
use sqlc_gen_unison.Converge.Requests.Packages.{IsPackage, converge_package-IsPackage}
use sqlc_gen_unison.Gogen.Types.{EmitError}
use sqlc_gen_unison.Gogen.Files.{File, emit}
use sqlc_gen_unison.Gogen.Files.Shared.{shared_files, converge_package-emit}
use sqlc_gen_unison.Gogen.Files.Errors.{emit-err}
use sqlc_gen_unison.Gogen.Files.Known.{is_known}
use sqlc_gen_unison.Plugin.{
  PluginRequest, PluginError, no_settings, of_options, of_converge, of_emit, generate_files,
}

-- Options that are parsed are normal.
pub parse-IsNormal :
    (decode : Text → Option Options) (raw : Text) (opts : Options)
    → parse decode raw ≡ ok opts
    → IsNormal opts
unfolding parse
parse-IsNormal decode raw opts h = elim (Bool-cases (length raw == 0)) [
  | inl e ↦ ground arith
  | inr e ↦ elim (Option-cases (decode raw)) [
    | inl d ↦ ground arith
    | inr (o, d) ↦
        let k : normalize o ≡ ok opts = ground arith in
        let (v, _, _, _, _, _) = normalize-IsNormal o opts k in v
  ]
]

map_err-eq-err {ℓ κ μ} :
    {E : Type ℓ} {F : Type κ} {A : Type μ} (g : E → F) (m : Result E A) {f : F}
    → map_err g m ≡ err f
    → (e : E) × (m ≡ err e) × (g e ≡ f)
map_err-eq-err g (ok a) h = cc
map_err-eq-err g (err e) h = (e, refl, ground arith)

module _ (decode : Text → Option Options) (format : Text → Option Text) (version : Text) where
  -- The parts of a run that succeeds.
  record Ran (request : PluginRequest) (fs : List File) : Type 0 where
    opts : Options
    pkg : Package
    parsed : parse decode request.plugin_options ≡ ok opts
    converged : converge_package request.analysis opts version ≡ ok pkg
    emitted : emit format pkg ≡ ok fs

  generate_files-Ran :
      (request : PluginRequest) (fs : List File)
      → generate_files decode format version request ≡ ok fs
      → Ran request fs
  unfolding generate_files
  generate_files-Ran request fs h =
      let (_, _, h1) = bind-eq-ok (refuse (not request.has_settings) no_settings) _ h in
      let (opts, a, h2) =
        bind-eq-ok (map_err of_options (parse decode request.plugin_options)) _ h1 in
      let (pkg, b, h3) =
        bind-eq-ok (map_err of_converge (converge_package request.analysis opts version)) _ h2 in
      record {
        opts = opts;
        pkg = pkg;
        parsed = map_err-eq-ok _ _ a;
        converged = map_err-eq-ok _ _ b;
        emitted = map_err-eq-ok _ _ h3;
      }

  -- A run that succeeds had settings, normal options and a well-formed package in hand, and its files
  -- are that package's.
  pub generate_files-IsPackage :
      (request : PluginRequest) (fs : List File)
      → generate_files decode format version request ≡ ok fs
      → (opts : Options) × (pkg : Package) × IsNormal opts
        × IsPackage request.analysis opts version pkg
        × (emit format pkg ≡ ok fs)
  generate_files-IsPackage request fs h =
      let r = generate_files-Ran request fs h in
      let normal = parse-IsNormal decode request.plugin_options r.opts r.parsed in
      (
        r.opts,
        r.pkg,
        normal,
        converge_package-IsPackage request.analysis r.opts version r.pkg
            (override_for-NamesTypes r.opts normal.complete) r.converged,
        r.emitted,
      )

  failed_emit :
      (request : PluginRequest) (opts : Options) (pkg : Package) (e : EmitError)
      → parse decode request.plugin_options ≡ ok opts
      → converge_package request.analysis opts version ≡ ok pkg
      → generate_files decode format version request ≡ err (of_emit e)
      → map_err of_emit (emit format pkg) ≡ err (of_emit e)
  unfolding generate_files
  failed_emit request opts pkg e a b h = ground arith

  -- Whatever sqlc sends, a failure of the emitter is a consumer's own type that is refused, or source
  -- that the formatter refuses.
  pub generate_files-err :
      (request : PluginRequest) (e : EmitError)
      → generate_files decode format version request ≡ err (of_emit e)
      → is_known e ≡ true
  unfolding generate_files
  generate_files-err request e h = elim (Result-cases (parse decode request.plugin_options)) [
    | inr (o, a) ↦ ground arith
    | inl (opts, a) ↦ elim (Result-cases (converge_package request.analysis opts version)) [
      | inr (c, b) ↦ ground arith
      | inl (pkg, b) ↦
          let normal = parse-IsNormal decode request.plugin_options opts a in
          let v =
            converge_package-IsPackage request.analysis opts version pkg
              (override_for-NamesTypes opts normal.complete) b in
          let (e', failed, same) =
            map_err-eq-err of_emit (emit format pkg) (failed_emit request opts pkg e a b h) in
          emit-err format pkg e v.paired (failed ∙ ground arith)
    ]
  ]

  -- The shared queries that a request converges to.
  abbrev pub shared_queries : PluginRequest → Result PluginError (List Query)
  shared_queries request = do
    opts ← map_err of_options (parse decode request.plugin_options)
    pkg ← map_err of_converge (converge_package request.analysis opts version)
    ok pkg.queries

  shared_queries-Ran :
      (request : PluginRequest) (fs : List File) (r : Ran request fs)
      → shared_queries request ≡ ok r.pkg.queries
  shared_queries-Ran request fs r = rw (r.parsed, r.converged) refl

  -- Two requests with the same options and the same sqlc, whose analyses converge to the same shared
  -- queries, get the same three shared files, byte for byte, whatever their dialects.
  pub generate_files-shared :
      (r t : PluginRequest) (fs gs : List File)
      → r.plugin_options ≡ t.plugin_options
      → r.analysis.sqlc_version ≡ t.analysis.sqlc_version
      → shared_queries r ≡ shared_queries t
      → generate_files decode format version r ≡ ok fs
      → generate_files decode format version t ≡ ok gs
      → shared_files fs ≡ shared_files gs
  generate_files-shared r t fs gs options versions queries h k =
      let a = generate_files-Ran r fs h in
      let b = generate_files-Ran t gs k in
      let same_opts : a.opts ≡ b.opts =
        ok_unique (sym (ap (parse decode) options) ∙ a.parsed) b.parsed in
      let same_queries : a.pkg.queries ≡ b.pkg.queries =
        ok_unique (sym queries ∙ shared_queries-Ran r fs a) (shared_queries-Ran t gs b) in
      converge_package-emit format r.analysis t.analysis a.opts version a.pkg b.pkg fs gs versions
        a.converged
        (subst (λ o. converge_package t.analysis o version ≡ ok b.pkg) (sym same_opts) b.converged)
        same_queries a.emitted b.emitted
