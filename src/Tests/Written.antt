-- ===== src/Tests/Written.antt =====
-- internal/orchestrator/run.go with internal/generate: a run whose sqlc gives the plugin's files.
use sqlc_gen_unison.Base.{
  ◌≡◌, refl, sym, ap, subst, ◌∙◌, inl, inr, Bool, true, false, some, [], ◌∷◌, Text, codes, text_eq,
  text_eq_iff, text_mem, any, All, arith, Bool-cases, if◌then◌else◌, Result, ok,
}
use sqlc_gen_unison.Base.Order.{text_le, sort_by, insert_by}
use sqlc_gen_unison.Paths.{join_path}
use sqlc_gen_unison.Paths.Below.{IsDirectory-IsAbsolute}
use sqlc_gen_unison.Plugin.{PluginRequest, generate_files}
use sqlc_gen_unison.Plugin.Errors.{shared_queries}
use sqlc_gen_unison.Disk.{write_files}
use sqlc_gen_unison.Orchestrator.{roster_of}
use sqlc_gen_unison.Host.{SqlcConfig, SqlcSqlConfig, SqlcCodegen}
use sqlc_gen_unison.Runner.{RunError, generate, resolved, rendered, out_of, run}
use sqlc_gen_unison.Runner.Rendering.{IsRendered, rendered-IsRendered}
use sqlc_gen_unison.Runner.Output.{IsSqlc, IsPlaced}
use sqlc_gen_unison.Runner.Written.{Written, run-Written}
use sqlc_gen_unison.Tests.Orchestrator.{accepted}
use sqlc_gen_unison.Tests.Plugin.{
  decode, plugin_request, mysql_request, files, mysql_files, generated, generated-mysql,
  same_queries,
}
use sqlc_gen_unison.Tests.Emission.{gofmt}
use sqlc_gen_unison.Tests.Runner.{
  placed_at, outside_out, staging, place, engine_of, response, host, runner, keeps, encodes,
  directory, resolved-out, engine, run-succeeds,
}

-- The analysis of the engine is sent.
abbrev pub request : SqlcConfig Text → PluginRequest
request config =
    if text_eq (engine_of config.sql) (codes "mysql") then mysql_request else plugin_request

pub shared_with :
    (b : Bool)
    → shared_queries decode gofmt (codes "dev") (if b then mysql_request else plugin_request)
      ≡ shared_queries decode gofmt (codes "dev") plugin_request
shared_with true = sym same_queries
shared_with false = refl

release_with :
    (b : Bool)
    → (if b then mysql_request else plugin_request).analysis.sqlc_version ≡ codes "v1.30.0"
release_with true = refl
release_with false = refl

rendered_as :
    (d : Text) (config : SqlcConfig Text)
    → rendered host runner accepted d staging (out_of host accepted) ≡ ok config
    → IsRendered host runner accepted d staging config
rendered_as d config h =
    let (other, a, v) =
      rendered-IsRendered host keeps runner accepted d staging (codes "{}") refl
        (IsDirectory-IsAbsolute staging directory) encodes in
    subst (IsRendered host runner accepted d staging) (ground arith) v

pub placed : IsPlaced host runner accepted staging decode gofmt (codes "dev") (λ text. text) request
placed = record {
  keeps = keeps;
  rooted = refl;
  directory = directory;
  fields = codes "{}";
  encodes = encodes;
  place = placed_at;
  outside = outside_out;
  engine = engine;
}

options_with :
    (b : Bool) → (if b then mysql_request else plugin_request).plugin_options ≡ codes "{}"
options_with true = refl
options_with false = refl

engine_with :
    (d : Text)
    → text_mem d (roster_of accepted) ≡ true
    → (if text_eq d (codes "mysql") then mysql_request else plugin_request).analysis.engine ≡ d
unfolding text_mem any roster_of sort_by insert_by text_le
engine_with d m = elim (Bool-cases (text_eq d (codes "mysql"))) [
  | inl e ↦ rw e (sym ((text_eq_iff d (codes "mysql")).0 e))
  | inr e ↦ rw e (sym ((text_eq_iff d (codes "sqlite")).0 (ground arith)))
]

generated_with :
    (b : Bool)
    → generate_files decode gofmt (codes "dev") (if b then mysql_request else plugin_request)
      ≡ ok (if b then mysql_files else files)
generated_with true = generated-mysql
generated_with false = generated

-- The block that a rendered configuration has is the one that is at hand.
same_block :
    (config : SqlcConfig Text) (block other : SqlcSqlConfig Text) (code another : SqlcCodegen Text)
    → config.sql ≡ block ∷ []
    → block.codegen ≡ code ∷ []
    → config.sql ≡ other ∷ []
    → other.codegen ≡ another ∷ []
    → (block ≡ other) × (code ≡ another)
same_block config block other code another h k l m = let e : block ≡ other = cc in (e, cc)

pub behaves : IsSqlc host runner accepted staging decode gofmt (codes "dev") (λ text. text) request
behaves = record {
  sends = λ d config block code m h b.
      let v = rendered_as d config h in
      let (one, two) =
        same_block config block (v.block) code (v.code) b.blocks b.codegens v.blocks v.codegens in
      let options : ◌≡◌ {A = Result RunError Text} (ok (codes "{}")) (ok v.code.options) =
        sym encodes ∙ v.options in
      let named : engine_of config.sql ≡ d =
        ap engine_of b.blocks ∙ ap (λ x. x.engine) one ∙ v.engine in
      (
        options_with _ ∙ (ground arith) ∙ ap (λ x. x.options) (sym two),
        ap
              (λ x.
                (if text_eq x (codes "mysql")
                  then mysql_request
                  else plugin_request).analysis.engine)
              named
            ∙ engine_with d m
            ∙ sym (ap (λ x. x.engine) one ∙ v.engine),
      );
  release = λ config other. release_with _ ∙ sym (release_with _);
  serves = λ d text disk config block code m h b written marshaled done.
      let v = rendered_as d config h in
      let (_, two) =
        same_block config block (v.block) code (v.code) b.blocks b.codegens v.blocks v.codegens in
      let at : place ≡ join_path (resolved host staging) code.out =
        sym (v.out ∙ resolved-out) ∙ ap (λ x. join_path (resolved host staging) x.out) (sym two) in
      let named : engine_of config.sql ≡ text = ground arith in
      (
        _,
        generated_with (text_eq (engine_of config.sql) (codes "mysql")),
        ap (λ o. write_files place (response o) disk) (written ∙ ap some (sym named))
            ∙ ap
                (λ p.
                  write_files p
                    (if text_eq (engine_of config.sql) (codes "mysql") then mysql_files else files)
                    disk)
                at,
      );
}

run-Written_example :
    All
      (Written host runner accepted staging decode gofmt
        (codes "dev")
        (λ text. text)
        request
        behaves
        placed
        (λ d d' config other _ _ _ _. shared_with _ ∙ sym (shared_with _))
        (run host runner accepted generate []).0.disk)
      (roster_of accepted)
run-Written_example =
    run-Written host runner accepted staging decode gofmt (codes "dev") (λ text. text) request
      behaves placed _ [] refl run-succeeds
