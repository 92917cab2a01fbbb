-- ===== src/Runner/Output.antt =====
-- internal/orchestrator with internal/generate: what the output directory holds after every dialect
-- has been generated. What sqlc does with a configuration is a hypothesis.
use sqlc_gen_unison.Base.{
  ◌≡◌, sym, ap, subst, ◌∙◌, true, false, Option, none, some, List, [], ◌∷◌, Text, text_mem, arith,
  All, ok, ok_unique,
}
use sqlc_gen_unison.Paths.{is_below, is_rooted, join_path}
use sqlc_gen_unison.Paths.Relative.{IsName}
use sqlc_gen_unison.Paths.Below.{IsDirectory, IsDirectory-IsAbsolute}
use sqlc_gen_unison.Options.{Options}
use sqlc_gen_unison.Gogen.Files.{File}
use sqlc_gen_unison.Gogen.Files.Shared.{emit-file_names}
use sqlc_gen_unison.Gogen.Files.Agreement.{Agree, AreNamed, shared_files-Agree}
use sqlc_gen_unison.Plugin.{PluginRequest, generate_files}
use sqlc_gen_unison.Plugin.Errors.{shared_queries, generate_files-IsPackage, generate_files-shared}
use sqlc_gen_unison.Disk.{Disk, read, write_files}
use sqlc_gen_unison.Disk.Responses.{IsPlain}
use sqlc_gen_unison.Orchestrator.{Config, engines, roster_of}
use sqlc_gen_unison.Host.{SqlcConfig, SqlcSqlConfig, SqlcCodegen, Host}
use sqlc_gen_unison.Runner.{Runner, generate, config_path, resolved, options_map, rendered, out_of}
use sqlc_gen_unison.Runner.Rendering.{KeepsAbsolute, IsRendered, rendered-IsRendered}
use sqlc_gen_unison.Runner.Turns.{args_of}
use sqlc_gen_unison.Runner.Filenames.{queries_filename-injective, AreNamed-IsPlain}

module _ {Fields : Type 0} (host : Host Fields) (runner : Runner) (c : Config) (staging : Text)
    (decode : Text → Option Options) (format : Text → Option Text) (version : Text)
    (json : Fields → Text) (request : SqlcConfig Fields → PluginRequest) where
  abbrev pub InRoster : Text → Type 0
  InRoster d = text_mem d (roster_of c) ≡ true

  -- The dialect's configuration.
  abbrev pub Configured : Text → SqlcConfig Fields → Type 0
  Configured d config = rendered host runner c d staging (out_of host c) ≡ ok config

  -- The only block of a configuration and its only generator.
  pub record IsBlock (config : SqlcConfig Fields) (block : SqlcSqlConfig Fields)
      (code : SqlcCodegen Fields) : Type 0 where
    pub blocks : config.sql ≡ block ∷ []
    pub codegens : block.codegen ≡ code ∷ []

  -- What the run relies on of sqlc, where it is given a dialect's configuration: it sends the
  -- block's options to the plugin as JSON, with its own version and the block's engine; and a run
  -- that does not fail has written the files of the plugin's response, verbatim, under the block's
  -- `out`, and nothing else.
  pub record IsSqlc : Type 0 where
    pub sends :
        (d : Text) (config : SqlcConfig Fields) (block : SqlcSqlConfig Fields)
        (code : SqlcCodegen Fields)
        → InRoster d
        → Configured d config
        → IsBlock config block code
        → ((request config).plugin_options ≡ json code.options)
          × ((request config).analysis.engine ≡ block.engine)
    pub release :
        (config other : SqlcConfig Fields)
        → (request config).analysis.sqlc_version ≡ (request other).analysis.sqlc_version
    pub serves :
        (d text : Text) (disk : Disk) (config : SqlcConfig Fields) (block : SqlcSqlConfig Fields)
        (code : SqlcCodegen Fields)
        → InRoster d
        → Configured d config
        → IsBlock config block code
        → read (config_path staging d) disk ≡ some text
        → host.marshal config ≡ ok text
        → let (process, later) =
            host.exec disk runner.sqlc staging
              (args_of host runner c generate staging (out_of host c) (config_path staging d)) in
          process.failure ≡ none
          → (fs : List File) × (generate_files decode format version (request config) ≡ ok fs)
            × (later ≡ write_files (join_path (resolved host staging) code.out) fs disk)

  -- Where the directories are, and that the dialects are those of an accepted configuration.
  pub record IsPlaced : Type 0 where
    pub keeps : KeepsAbsolute host
    pub rooted : is_rooted c.dir ≡ true
    pub directory : IsDirectory staging
    pub fields : Fields
    pub encodes : options_map host c ≡ ok fields
    pub place : IsDirectory (resolved host (out_of host c))
    pub outside :
        (name : Text)
        → IsName name
        → is_below staging (join_path (resolved host (out_of host c)) name) ≡ false
    pub engine : (d : Text) → InRoster d → text_mem d engines ≡ true

  -- The dialects' analyses converge to the same shared queries.
  abbrev pub Converge : Type 0
  Converge =
      (d d' : Text) (config other : SqlcConfig Fields)
      → InRoster d
      → InRoster d'
      → Configured d config
      → Configured d' other
      → shared_queries decode format version (request config)
        ≡ shared_queries decode format version (request other)

  -- The files that the plugin gives for a dialect.
  pub record Generated (d : Text) (fs : List File) : Type 0 where
    pub member : InRoster d
    pub config : SqlcConfig Fields
    pub configured : Configured d config
    pub generated : generate_files decode format version (request config) ≡ ok fs

  module _ (sqlc : IsSqlc) (placed : IsPlaced) (converge : Converge) where
    -- The output directory, with links resolved.
    abbrev pub out : Text
    out = resolved host (out_of host c)

    pub Configured-IsRendered :
        (d : Text) (config : SqlcConfig Fields)
        → Configured d config
        → IsRendered host runner c d staging config
    Configured-IsRendered d config h =
        let (other, a, v) =
          rendered-IsRendered host placed.keeps runner c d staging placed.fields placed.rooted
            (IsDirectory-IsAbsolute staging placed.directory) placed.encodes in
        subst (IsRendered host runner c d staging) (ground arith) v

    Generated-AreNamed : (d : Text) (fs : List File) → Generated d fs → AreNamed d fs
    Generated-AreNamed d fs g =
        let v = Configured-IsRendered d g.config g.configured in
        let (_, engine) =
          sqlc.sends d g.config v.block v.code g.member g.configured
            (record { blocks = v.blocks; codegens = v.codegens }) in
        let (opts, pkg, _, p, emitted) =
          generate_files-IsPackage decode format version (request g.config) fs g.generated in
        let (named, _) = emit-file_names format pkg fs emitted in
        subst (λ x. AreNamed x fs) (p.dialect ∙ engine ∙ v.engine) named

    Generated-options :
        (d d' : Text) (fs gs : List File) (g : Generated d fs) (k : Generated d' gs)
        → (request g.config).plugin_options ≡ (request k.config).plugin_options
    Generated-options d d' fs gs g k =
        let v = Configured-IsRendered d g.config g.configured in
        let w = Configured-IsRendered d' k.config k.configured in
        let (a, _) =
          sqlc.sends d g.config v.block v.code g.member g.configured
            (record { blocks = v.blocks; codegens = v.codegens }) in
        let (b, _) =
          sqlc.sends d' k.config w.block w.code k.member k.configured
            (record { blocks = w.blocks; codegens = w.codegens }) in
        a ∙ ap json (ok_unique v.options w.options) ∙ sym b

    Generated-unique :
        (d d' : Text) (fs gs : List File) → Generated d fs → Generated d' gs → d ≡ d' → fs ≡ gs
    Generated-unique d d' fs gs g k e =
        let same : g.config ≡ k.config =
          ok_unique g.configured (subst (λ x. Configured x k.config) (sym e) k.configured) in
        ok_unique g.generated (
          subst (λ x. generate_files decode format version (request x) ≡ ok gs) (sym same)
            k.generated)

    pub Generated-Agree :
        (d d' : Text) (fs gs : List File) → Generated d fs → Generated d' gs → Agree fs gs
    Generated-Agree d d' fs gs g k =
        shared_files-Agree d d' fs gs (Generated-AreNamed d fs g) (Generated-AreNamed d' gs k)
          (generate_files-shared decode format version (request g.config) (request k.config) fs gs
            (Generated-options d d' fs gs g k) (sqlc.release g.config k.config)
            (converge d d' g.config k.config g.member k.member g.configured k.configured)
            g.generated k.generated)
          (λ e. Generated-unique d d' fs gs g k (
            queries_filename-injective d d' (placed.engine d g.member) (placed.engine d' k.member)
              e))

    pub Generated-IsPlain :
        (d : Text) (fs : List File) → Generated d fs → All (IsPlain out placed.place) fs
    Generated-IsPlain d fs g =
        AreNamed-IsPlain out d placed.place fs (placed.engine d g.member)
          (Generated-AreNamed d fs g)
