-- ===== src/Runner.antt =====
-- internal/orchestrator/run.go: the configuration of sqlc for each dialect, and the runs of sqlc on
-- them. What the operating system and the codecs answer is a `Host`; logging is part of the state.
pub mod Rendering
pub mod Turns
pub mod Runs
pub mod Ran
pub mod Liveness
pub mod Staging
pub mod Filenames
pub mod Output
pub mod Written
use sqlc_gen_unison.Base.{
  Bool, Option, none, some, List, [], ◌∷◌, ◌++◌, Text, codes, text_eq, if◌then◌else◌, Result, ok,
  err, ◌>>=◌, map_err,
}
use sqlc_gen_unison.Strings.{trim_space, trim_prefix}
use sqlc_gen_unison.Options.{Options, map_get}
use sqlc_gen_unison.Paths.{join_path, rel}
use sqlc_gen_unison.Disk.{Disk, write, remove_all}
use sqlc_gen_unison.Sqlc.{Process, SqlcError, Report, run_sqlc, version_of}
use sqlc_gen_unison.Host.{SqlcProcess, SqlcPlugin, SqlcCodegen, SqlcSqlConfig, SqlcConfig, Host}
use sqlc_gen_unison.Orchestrator.{Config, roster_of, plugin_options}

abbrev pub plugin_name : Text
plugin_name = codes "unison"

abbrev pub log_level_env_var : Text
log_level_env_var = codes "UNISON_LOG_LEVEL"

pub record Runner : Type 0 where
  pub sqlc : Text
  pub self : Text

pub data RunError : Type 0 where
  no_version : Text → SqlcError → RunError
  other_version : Text → Text → Text → RunError
  no_directory cannot_locate not_rendered not_written : Text → Text → RunError
  no_staging bad_options : Text → RunError
  sqlc_failed : Text → SqlcError → RunError

pub data Subcommand : Type 0 where
  generate compile : Subcommand

abbrev pub subcommand_name : Subcommand → Text
subcommand_name generate = codes "generate"
subcommand_name compile = codes "compile"

-- What the logger is given, oldest first.
pub data Line : Type 0 where
  running_sqlc : Text → Subcommand → Line
  said not_removed : Text → Text → Line

pub record State : Type 0 where
  pub disk : Disk
  pub log : List Line

-- `m[key]`, which is empty where the key is missing.
abbrev pub path_for : Text → List (Text × Text) → Text
path_for key m = elim (map_get key m) [ none ↦ [] | some v ↦ v ]

unfoldable pub normalize_version : Text → Text
unfolding trim_space trim_prefix
normalize_version v = trim_prefix (trim_space v) (codes "v")

abbrev pub config_path : Text → Text → Text
config_path staging dialect = join_path staging (codes "sqlc-" ++ dialect ++ codes ".yaml")

module _ {Fields : Type 0} (host : Host Fields) where
  unfoldable pub resolved : Text → Text
  resolved path = elim (host.eval_symlinks path) [ none ↦ path | some p ↦ p ]

  unfoldable pub relative_to : Text → Text → Result RunError Text
  unfolding resolved
  relative_to base target = elim (rel (resolved base) (resolved target)) [
    | none ↦ err (cannot_locate target base)
    | some relative ↦ ok relative
  ]

  unfoldable pub options_map : Config → Result RunError Fields
  unfolding plugin_options
  options_map c = do
    encoded ← map_err bad_options (host.encode (plugin_options c))
    map_err bad_options (host.decode encoded)

  module _ (runner : Runner) where
    -- The configuration that `renderConfig` writes.
    unfoldable pub rendered : Config → Text → Text → Text → Result RunError (SqlcConfig Fields)
    unfolding relative_to options_map
    rendered c dialect staging out = do
      schema ← relative_to staging (join_path c.dir (path_for dialect c.schemas))
      queries ← relative_to staging (join_path c.dir (path_for dialect c.queries))
      out_relative ← relative_to staging out
      options ← options_map c
      ok (record {
        version = codes "2";
        plugins =
            record {
              name = plugin_name;
              process = record { cmd = runner.self };
              env = log_level_env_var ∷ [];
            }
            ∷ [];
        sql =
            record {
              engine = dialect;
              schema = schema;
              queries = queries;
              codegen = record { options = options; plugin = plugin_name; out = out_relative } ∷ [];
            }
            ∷ [];
      })

    unfoldable pub render_config : Config → Text → Text → Text → Disk → Result RunError Text × Disk
    unfolding rendered
    render_config c dialect staging out disk = elim (rendered c dialect staging out) [
      | err e ↦ (err e, disk)
      | ok config ↦ elim (host.marshal config) [
        | err cause ↦ (err (not_rendered dialect cause), disk)
        | ok contents ↦
            let path = config_path staging dialect in
            elim (host.write_file path) [
              | some cause ↦ (err (not_written dialect cause), disk)
              | none ↦ (ok path, write path contents disk)
            ]
      ]
    ]

    unfoldable pub compare_versions : Text → Result SqlcError Text → Result RunError (Unit {0})
    unfolding normalize_version
    compare_versions pinned (err e) = err (no_version runner.sqlc e)
    compare_versions pinned (ok actual) =
        if text_eq (normalize_version actual) (normalize_version pinned)
        then ok tt
        else err (other_version pinned runner.sqlc actual)

    unfoldable pub check_sqlc_version : Config → Disk → Result RunError (Unit {0}) × Disk
    unfolding compare_versions version_of trim_space
    check_sqlc_version c disk =
        if text_eq (trim_space c.sqlc_version) []
        then (ok tt, disk)
        else let (answer, later) = version_of host.exec runner.sqlc disk in
          (compare_versions c.sqlc_version answer, later)

    module _ (c : Config) (subcommand : Subcommand) (staging out : Text) where
      unfoldable pub report_dialect : Text → List Line → Report × Disk → State × Option RunError
      report_dialect dialect log (report, disk) = elim report.failure [
        | some e ↦ (record { disk = disk; log = log }, some (sqlc_failed dialect e))
        | none ↦
            if text_eq report.output []
            then (record { disk = disk; log = log }, none)
            else (record { disk = disk; log = log ++ said dialect report.output ∷ [] }, none)
      ]

      unfoldable pub run_rendered :
          Text → List Line → Result RunError Text × Disk → State × Option RunError
      unfolding report_dialect run_sqlc
      run_rendered dialect log (err e, disk) = (record { disk = disk; log = log }, some e)
      run_rendered dialect log (ok path, disk) =
          report_dialect dialect (log ++ running_sqlc dialect subcommand ∷ []) (
            run_sqlc host.exec runner.sqlc staging
              (subcommand_name subcommand ∷ codes "-f" ∷ path ∷ []) disk)

      -- One turn of the loop: an error ends it.
      unfoldable pub run_dialect : Text → State → State × Option RunError
      unfolding render_config run_rendered
      run_dialect dialect s =
          run_rendered dialect s.log (render_config c dialect staging out s.disk)

      unfoldable pub run_dialects : List Text → State → State × Option RunError
      unfolding run_dialect
      run_dialects [] s = (s, none)
      run_dialects (dialect ∷ dialects) s =
          let (later, failure) = run_dialect dialect s in
          elim failure [ some e ↦ (later, some e) | none ↦ run_dialects dialects later ]

  -- What is deferred: the failure stays what it was.
  unfoldable pub remove_staging : Text → State → State
  unfolding remove_all
  remove_staging staging s = elim (host.remove staging) [
    | some cause ↦ record s { log = s.log ++ not_removed staging cause ∷ [] }
    | none ↦ record s { disk = remove_all staging s.disk }
  ]

  abbrev pub out_of : Config → Text
  out_of c = join_path c.dir c.out

  -- Only a generating run makes the output directory.
  abbrev pub make_out : Subcommand → Text → Option Text
  make_out generate out = host.mkdir_all out
  make_out compile out = none

  module _ (runner : Runner) (c : Config) (subcommand : Subcommand) where
    -- The loop in its staging directory, which is removed whatever happens.
    unfoldable pub run_staged : Text → State → State × Option RunError
    unfolding run_dialects remove_staging
    run_staged staging s =
        let (later, failure) =
          run_dialects runner c subcommand staging (out_of c) (roster_of c) s in
        (remove_staging staging later, failure)

    unfoldable pub run_checked : Result RunError (Unit {0}) × Disk → State × Option RunError
    unfolding run_staged
    run_checked (err e, disk) = (record { disk = disk; log = [] }, some e)
    run_checked (ok _, disk) =
        let s : State = record { disk = disk; log = [] } in
        elim (make_out subcommand (out_of c)) [
          | some cause ↦ (s, some (no_directory c.out cause))
          | none ↦ elim host.mkdir_temp [
            | err cause ↦ (s, some (no_staging cause))
            | ok staging ↦ run_staged staging s
          ]
        ]

    unfoldable pub run : Disk → State × Option RunError
    unfolding check_sqlc_version run_checked
    run disk = run_checked (check_sqlc_version runner c disk)
