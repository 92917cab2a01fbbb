-- ===== src/Cli/Generation.antt =====
-- internal/cli/generate.go with internal/orchestrator and internal/generate: `unison generate`, from the
-- arguments to the files.
use sqlc_gen_unison.Base.{
  ◌≡◌, sym, ap, ap₂, subst, ◌∙◌, Bool, true, false, Option, none, List, Text, text_mem, All, Result,
  ok, ok_unique,
}
use sqlc_gen_unison.Paths.{is_rooted, is_below, join_path}
use sqlc_gen_unison.Paths.Relative.{IsName}
use sqlc_gen_unison.Paths.Below.{IsDirectory}
use sqlc_gen_unison.Options.{Options}
use sqlc_gen_unison.Plugin.{PluginRequest, PluginError, is_terminal, is_plugin_invocation}
use sqlc_gen_unison.Disk.{Disk}
use sqlc_gen_unison.Orchestrator.{Config, engines, keys, roster_of}
use sqlc_gen_unison.Orchestrator.Loading.{load-IsLoaded}
use sqlc_gen_unison.Orchestrator.Validation.{text_mem-roster_of}
use sqlc_gen_unison.Host.{SqlcConfig, Host}
use sqlc_gen_unison.Runner.{Runner, RunError, State, generate, run, options_map, resolved, out_of}
use sqlc_gen_unison.Runner.Rendering.{KeepsAbsolute, absolute-is_rooted}
use sqlc_gen_unison.Runner.Output.{IsSqlc, IsPlaced, Converge}
use sqlc_gen_unison.Runner.Written.{Written, run-Written}
use sqlc_gen_unison.Cli.{Invocation, generate_package, Machine, execute, exit_code}
use sqlc_gen_unison.Cli.Commands.{IsOrchestrated, Orchestrated, execute-Orchestrated}

module _ {Fields : Type 0} (host : Host Fields) (c : Config) (staging : Text) where
  -- Where the directories of a run are, and that the options can be encoded.
  pub record IsStaged : Type 0 where
    pub made : host.mkdir_temp ≡ ok staging
    pub keeps : KeepsAbsolute host
    pub directory : IsDirectory staging
    pub fields : Fields
    pub encodes : options_map host c ≡ ok fields
    pub place : IsDirectory (resolved host (out_of host c))
    pub outside :
        (name : Text)
        → IsName name
        → is_below staging (join_path (resolved host (out_of host c)) name) ≡ false

module _ {Fields : Type 0} (machine : Machine Fields) (path : Text) (runner : Runner) (c : Config)
    (o : IsOrchestrated machine path runner c)
    (rooted : (s : Text) → machine.abs path ≡ ok s → is_rooted s ≡ true) where
  loaded_engine : (d : Text) → text_mem d (roster_of c) ≡ true → text_mem d engines ≡ true
  unfolding roster_of
  loaded_engine d h =
      let (v, _) =
        load-IsLoaded machine.read_file machine.decode machine.abs path c o.loaded rooted in
      v.accepted.engine d
        (ap (λ m. text_mem d (keys m)) (sym v.accepted.schemas) ∙ sym (text_mem-roster_of d c) ∙ h)

  loaded_root : is_rooted c.dir ≡ true
  loaded_root =
      let (_, v) =
        load-IsLoaded machine.read_file machine.decode machine.abs path c o.loaded rooted in
      absolute-is_rooted c.dir v

  -- The run that a command came to is that of this configuration.
  Orchestrated-run :
      (disk : Disk) (s : State)
      → Orchestrated machine generate path disk s
      → run machine.host runner c generate disk ≡ (s, none)
  Orchestrated-run disk s v =
      let config : v.c ≡ c = ok_unique v.orchestrated.loaded o.loaded in
      let sqlc : v.runner.sqlc ≡ runner.sqlc = ok_unique v.orchestrated.sqlc o.sqlc in
      let self : v.runner.self ≡ runner.self = ok_unique v.orchestrated.self o.self in
      sym (
        ap₂
          (λ (p : Text × Text) x.
            run machine.host (record { sqlc = p.0; self = p.1 }) x generate disk)
          (ap₂ (λ a b. (a, b)) sqlc self) config)
      ∙ v.ran

  module _ (staging : Text) (staged : IsStaged machine.host c staging)
      (decode : Text → Option Options) (format : Text → Option Text) (version : Text)
      (json : Fields → Text) (request : SqlcConfig Fields → PluginRequest) where
    pub placed : IsPlaced machine.host runner c staging decode format version json request
    placed = record {
      keeps = staged.keeps;
      rooted = loaded_root;
      directory = staged.directory;
      fields = staged.fields;
      encodes = staged.encodes;
      place = staged.place;
      outside = staged.outside;
      engine = loaded_engine;
    }

    module _ (sqlc : IsSqlc machine.host runner c staging decode format version json request)
        (converge : Converge machine.host runner c staging decode format version json request)
        (getenv : Text → Text) (serve : Text × Option PluginError)
        (cobra : List Text → Result Text Invocation) where
      -- Where sqlc serves the plugin's response, links keep paths from the root, the staging directory is
      -- apart from the output directory, and the dialects' analyses converge to the same shared queries,
      -- `unison generate` that exits with zero has left, for every dialect of the configuration that the
      -- flag names, the four files that the plugin gives for it in the output directory.
      pub execute-Written :
          (args : List Text) (stdin : Option (Option Bool)) (disk : Disk) (level : Text)
          → is_plugin_invocation args (is_terminal stdin) ≡ false
          → cobra args ≡ ok (record { log_level = level; action = generate_package path })
          → exit_code (execute machine getenv serve cobra args stdin disk).0.error ≡ 0
          → All
              (Written machine.host runner c staging decode format version json request sqlc placed
                converge
                (execute machine getenv serve cobra args stdin disk).1.disk)
              (roster_of c)
      execute-Written args stdin disk level person parsed h =
          let s = (execute machine getenv serve cobra args stdin disk).1 in
          let ran = Orchestrated-run disk s (
            execute-Orchestrated machine getenv serve cobra args stdin disk generate path level
              person parsed h) in
          subst
            (λ (r : State × Option RunError).
              All
                (Written machine.host runner c staging decode format version json request sqlc
                  placed converge r.0.disk)
                (roster_of c))
            ran
            (run-Written machine.host runner c staging decode format version json request sqlc
              placed converge disk staged.made (ap (λ r. r.1) ran))
