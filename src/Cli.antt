-- ===== src/Cli.antt =====
-- internal/cli and cmd/unison: the two modes of the binary. Reading the arguments is cobra's, a
-- parameter that gives the command; what the logger writes is left out.
pub mod Modes
pub mod Commands
pub mod Responses
pub mod Generation
use sqlc_gen_unison.Base.{
  ℕ, Bool, true, false, Option, none, some, List, [], ◌∷◌, ◌++◌, Text, codes, if◌then◌else◌, Result,
  ok, err, ◌>>=◌, ◌>>◌, map_err,
}
use sqlc_gen_unison.Plugin.{PluginError, Level, is_terminal, is_plugin_invocation, parse_level}
use sqlc_gen_unison.Disk.{Disk}
use sqlc_gen_unison.Orchestrator.{Config, LoadError, load}
use sqlc_gen_unison.Host.{Host}
use sqlc_gen_unison.Runner.{
  Runner, RunError, Subcommand, generate, compile, State, log_level_env_var, run,
}

pub data CliError : Type 0 where
  bad_level usage no_sqlc no_self : Text → CliError
  of_plugin : PluginError → CliError
  of_load : LoadError → CliError
  of_run : RunError → CliError
  unwritable : CliError

-- What is written to stdout, what is reported on stderr, and the error that is returned.
pub record Outcome : Type 0 where
  pub stdout : Text
  pub reported : List CliError
  pub error : Option CliError

-- The commands, with the flags that they read.
pub data Action : Type 0 where
  show_help print_version : Action
  generate_package check_sql : Text → Action

pub record Invocation : Type 0 where
  pub log_level : Text
  pub action : Action

-- The build's metadata, and the toolchain's and platform's names.
pub record Build : Type 0 where
  pub version : Text
  pub commit_hash : Text
  pub build_time : Text
  pub commit_time : Text
  pub go_version : Text
  pub goos : Text
  pub goarch : Text

abbrev new_line : Text
new_line = 10 ∷ []

unfoldable pub version_text : Build → Text
version_text b =
    codes "version:     "
    ++ b.version
    ++ new_line
    ++ codes "commit:      "
    ++ b.commit_hash
    ++ new_line
    ++ codes "built:       "
    ++ b.build_time
    ++ new_line
    ++ codes "commit time: "
    ++ b.commit_time
    ++ new_line
    ++ codes "go:          "
    ++ b.go_version
    ++ new_line
    ++ codes "platform:    "
    ++ b.goos
    ++ codes "/"
    ++ b.goarch
    ++ new_line

abbrev pub of_served : Text × Option PluginError → Text × Option CliError
of_served (text, none) = (text, none)
of_served (text, some e) = (text, some (of_plugin e))

-- Every failure of a plugin is reported, once.
abbrev pub answer_of : Text × Option CliError → Outcome
answer_of (text, none) = record { stdout = text; reported = []; error = none }
answer_of (text, some e) = record { stdout = text; reported = e ∷ []; error = some e }

-- `serve` is `protocol.Serve` of the process's own stdin and stdout, and of `generate.Files`.
module _ (getenv : Text → Text) (serve : Text × Option PluginError) where
  unfoldable pub serve_plugin : Text × Option CliError
  unfolding parse_level
  serve_plugin = elim (parse_level (getenv log_level_env_var)) [
    | err name ↦ ([], some (bad_level name))
    | ok level ↦ of_served serve
  ]

  unfoldable pub run_plugin : Outcome
  unfolding serve_plugin
  run_plugin = answer_of serve_plugin

-- What the process of a command leaves. `report` is what cobra prints of an error that it is given.
abbrev pub report_error :
    (CliError → List CliError) → Text × State × Option CliError → Outcome × State
report_error report (text, s, none) = (record { stdout = text; reported = []; error = none }, s)
report_error report (text, s, some e) =
    (record { stdout = text; reported = report e; error = some e }, s)

-- The answers that a command needs beside those of a run.
pub record Machine (Fields : Type 0) : Type 0 where
  pub host : Host Fields
  pub read_file : Text → Result Text Text
  pub decode : Text → Result Text Config
  pub abs : Text → Result Text Text
  pub look_path : Text → Result Text Text
  pub executable : Result Text Text
  pub build : Build
  pub help : Text
  pub writes : Text → Bool
  pub report : CliError → List CliError

abbrev pub wrap_run : State × Option RunError → State × Option CliError
wrap_run (s, none) = (s, none)
wrap_run (s, some e) = (s, some (of_run e))

module _ {Fields : Type 0} (machine : Machine Fields) where
  unfoldable pub orchestrate : Text → Result CliError (Runner × Config)
  unfolding load
  orchestrate path = do
    cfg ← map_err of_load (load machine.read_file machine.decode machine.abs path)
    sqlc ← map_err no_sqlc (machine.look_path (codes "sqlc"))
    self ← map_err no_self machine.executable
    ok (record { sqlc = sqlc; self = self }, cfg)

  unfoldable pub run_orchestrated : Subcommand → Text → Disk → State × Option CliError
  unfolding orchestrate run
  run_orchestrated subcommand path disk = elim (orchestrate path) [
    | err e ↦ (record { disk = disk; log = [] }, some e)
    | ok r ↦ wrap_run (run machine.host r.0 r.1 subcommand disk)
  ]

  -- `RunE` of `generate` and of `check`.
  unfoldable pub run_generate : Text → Disk → State × Option CliError
  unfolding run_orchestrated
  run_generate path disk = run_orchestrated generate path disk

  unfoldable pub run_check : Text → Disk → State × Option CliError
  unfolding run_orchestrated
  run_check path disk = run_orchestrated compile path disk

  -- `RunE` of `version`: what is printed, and the error of the write.
  unfoldable pub run_version : Text × Option CliError
  unfolding version_text
  run_version =
      let text = version_text machine.build in
      if machine.writes text then (text, none) else ([], some unwritable)

  -- What a command prints, the state that it leaves, and its error.
  unfoldable pub run_action : Action → Disk → Text × State × Option CliError
  unfolding run_generate run_check run_version
  run_action show_help disk = (machine.help, record { disk = disk; log = [] }, none)
  run_action print_version disk =
      let (text, e) = run_version in (text, record { disk = disk; log = [] }, e)
  run_action (generate_package path) disk = let (s, e) = run_generate path disk in ([], s, e)
  run_action (check_sql path) disk = let (s, e) = run_check path disk in ([], s, e)

  -- The level is read before any command runs.
  unfoldable pub bootstrap : Text → Result CliError Level
  unfolding parse_level
  bootstrap log_level = map_err bad_level (parse_level log_level)

  unfoldable pub run_command : Invocation → Disk → Text × State × Option CliError
  unfolding bootstrap run_action
  run_command command disk = elim (bootstrap command.log_level) [
    | err e ↦ ([], record { disk = disk; log = [] }, some e)
    | ok level ↦ run_action command.action disk
  ]

  -- `Execute`, of the arguments behind the program's name.
  module _ (getenv : Text → Text) (serve : Text × Option PluginError)
      (cobra : List Text → Result Text Invocation) where
    unfoldable pub execute : List Text → Option (Option Bool) → Disk → Outcome × State
    unfolding is_plugin_invocation is_terminal run_plugin run_command
    execute args stdin disk =
        if is_plugin_invocation args (is_terminal stdin)
        then (run_plugin getenv serve, record { disk = disk; log = [] })
        else report_error machine.report (elim (cobra args) [
          | err cause ↦ ([], record { disk = disk; log = [] }, some (usage cause))
          | ok command ↦ run_command command disk
        ])

-- `main`
unfoldable pub exit_code : Option CliError → ℕ
exit_code none = 0
exit_code (some e) = 1
