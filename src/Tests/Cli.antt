-- ===== src/Tests/Cli.antt =====
-- internal/cli and `Load` on the project of the runs.
use sqlc_gen_unison.Base.{
  ◌≡◌, refl, ap, ◌∙◌, Bool, true, false, Option, none, some, List, [], ◌∷◌, Text, codes, text_eq,
  Result, ok, ok_unique, subst, map_err,
}
use sqlc_gen_unison.Strings.{
  to_lower, lower, trim_space, trim_left, trim_right, is_space, has_prefix, join,
}
use sqlc_gen_unison.Paths.{
  is_rooted, dir_name, clean, print, elements_of, walk, split, step_into, go_up,
}
use sqlc_gen_unison.Paths.Clean.{IsAbsolute}
use sqlc_gen_unison.Plugin.{
  PluginError, undecodable, is_terminal, is_plugin_invocation, parse_level,
}
use sqlc_gen_unison.Orchestrator.{Config, invalid, load}
use sqlc_gen_unison.Orchestrator.Loading.{IsLoaded, load-IsLoaded}
use sqlc_gen_unison.Runner.{Runner, generate, run}
use sqlc_gen_unison.Runner.Ran.{Ran}
use sqlc_gen_unison.Cli.{
  Invocation, generate_package, Build, Machine, orchestrate, wrap_run, run_orchestrated,
  run_generate, run_action, run_command, bootstrap, report_error, execute, exit_code, version_text,
}
use sqlc_gen_unison.Tests.Orchestrator.{config, accepted, validate-config}
use sqlc_gen_unison.Tests.Runner.{host, runner, run-succeeds}

abbrev pub read_config : Text → Result Text Text
read_config path = ok (codes "package: store")

abbrev pub decode_config : Text → Result Text Config
decode_config contents = ok config

abbrev pub absolute_path : Text → Result Text Text
absolute_path path = ok (codes "/repo/unison.yaml")

abbrev pub build : Build
build = record {
  version = codes "v0.1.0";
  commit_hash = codes "unknown";
  build_time = codes "unknown";
  commit_time = codes "unknown";
  go_version = codes "go1.26";
  goos = codes "linux";
  goarch = codes "arm64";
}

abbrev pub machine : Machine Text
machine = record {
  host = host;
  read_file = read_config;
  decode = decode_config;
  abs = absolute_path;
  look_path = λ name. ok (codes "/bin/sqlc");
  executable = ok (codes "/bin/unison");
  build = build;
  help = codes "Usage:";
  writes = λ text. true;
  report = λ e. e ∷ [];
}

abbrev pub config_file : Text
config_file = codes "unison.yaml"

pub loaded : load read_config decode_config absolute_path config_file ≡ ok accepted
unfolding load dir_name clean print elements_of walk split step_into go_up join text_eq
loaded = ap (map_err (invalid config_file)) validate-config

pub rooted : (s : Text) → absolute_path config_file ≡ ok s → is_rooted s ≡ true
rooted s e = subst (λ x. is_rooted x ≡ true) (ok_unique refl e) refl

load-IsLoaded_example :
    IsLoaded read_config decode_config absolute_path config_file accepted × IsAbsolute accepted.dir
load-IsLoaded_example =
    load-IsLoaded read_config decode_config absolute_path config_file accepted loaded rooted

abbrev pub getenv : Text → Text
getenv name = []

abbrev pub refused_serve : Text × Option PluginError
refused_serve = ([], some undecodable)

abbrev pub cobra : List Text → Result Text Invocation
cobra args = ok (record { log_level = codes "info"; action = generate_package config_file })

-- A terminal, and a pipe.
abbrev pub attended : Option (Option Bool)
attended = some (some true)

abbrev pub piped : Option (Option Bool)
piped = some (some false)

abbrev pub plugin_args : List Text
plugin_args = codes "/plugin.CodegenService/Generate" ∷ []

abbrev pub generate_args : List Text
generate_args = codes "generate" ∷ []

pub orchestrated : orchestrate machine config_file ≡ ok (runner, accepted)
unfolding orchestrate
orchestrated = rw (orchestrate, loaded) refl

run_orchestrated-none : (run_orchestrated machine generate config_file []).1 ≡ none
unfolding run_orchestrated
run_orchestrated-none =
    let ran : run_orchestrated machine generate config_file []
        ≡ wrap_run (run host runner accepted generate []) =
      rw (run_orchestrated, orchestrated) refl in
    ap (λ r. r.1) ran
    ∙ ap (λ e. (wrap_run ((run host runner accepted generate []).0, e)).1) run-succeeds

pub exits :
    exit_code (execute machine getenv refused_serve cobra generate_args attended []).0.error ≡ 0
unfolding execute is_plugin_invocation is_terminal has_prefix run_command bootstrap run_action
    run_generate parse_level to_lower lower trim_space trim_left trim_right is_space text_eq
    exit_code
exits =
    ap
      (λ e.
        exit_code
          (report_error machine.report
            ([], (run_orchestrated machine generate config_file []).0, e)).0.error)
      run_orchestrated-none

pub person : is_plugin_invocation generate_args (is_terminal attended) ≡ false
unfolding is_plugin_invocation is_terminal has_prefix
person = refl

version_text-build :
    version_text build
    ≡ codes
        "version:     v0.1.0\ncommit:      unknown\nbuilt:       unknown\ncommit time: unknown\ngo:          go1.26\nplatform:    linux/arm64\n"
unfolding version_text
version_text-build = refl
