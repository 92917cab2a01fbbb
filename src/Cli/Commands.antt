-- ===== src/Cli/Commands.antt =====
-- internal/cli/generate.go: the two commands that run sqlc, from the configuration's file to the runs.
use sqlc_gen_unison.Base.{
  ◌≡◌, refl, sym, ap, subst, ◌∙◌, inl, inr, Bool, false, Option, none, some, List, [], Text, codes,
  arith, Result, ok, map_err, map_err-eq-ok, bind-eq-ok, Result-cases,
}
use sqlc_gen_unison.Disk.{Disk}
use sqlc_gen_unison.Plugin.{PluginError, is_terminal, is_plugin_invocation}
use sqlc_gen_unison.Orchestrator.{Config, load}
use sqlc_gen_unison.Runner.{Runner, Subcommand, generate, compile, RunError, State, run}
use sqlc_gen_unison.Runner.Ran.{Ran}
use sqlc_gen_unison.Cli.{
  CliError, Invocation, Action, generate_package, check_sql, Machine, no_sqlc, no_self, of_load,
  orchestrate, wrap_run, run_orchestrated, run_generate, run_check, run_action, run_command,
  bootstrap, report_error, execute, exit_code,
}

none-ne-some : {A : Type 0} {a : A} → ◌≡◌ {A = Option A} none (some a) → ⊥
none-ne-some h = cc

wrap_run-none : (r : State × Option RunError) → (wrap_run r).1 ≡ none → r ≡ ((wrap_run r).0, none)
wrap_run-none (s, none) h = refl
wrap_run-none (s, some e) h = cc

module _ {Fields : Type 0} (machine : Machine Fields) where
  -- The parts of an orchestrated run.
  pub record IsOrchestrated (path : Text) (runner : Runner) (c : Config) : Type 0 where
    pub loaded : load machine.read_file machine.decode machine.abs path ≡ ok c
    pub sqlc : machine.look_path (codes "sqlc") ≡ ok runner.sqlc
    pub self : machine.executable ≡ ok runner.self

  pub orchestrate-IsOrchestrated :
      (path : Text) (runner : Runner) (c : Config)
      → orchestrate machine path ≡ ok (runner, c)
      → IsOrchestrated path runner c
  unfolding orchestrate
  orchestrate-IsOrchestrated path runner c h =
      let (cfg, a, h1) =
        bind-eq-ok (map_err of_load (load machine.read_file machine.decode machine.abs path)) _ h in
      let (sqlc, b, h2) = bind-eq-ok (map_err no_sqlc (machine.look_path (codes "sqlc"))) _ h1 in
      let (self, d, h3) = bind-eq-ok (map_err no_self machine.executable) _ h2 in
      let same : cfg ≡ c = ground arith in
      let sqlc_path : sqlc ≡ runner.sqlc = ground arith in
      let self_path : self ≡ runner.self = ground arith in
      record {
        loaded = map_err-eq-ok of_load _ a ∙ ap ok same;
        sqlc = map_err-eq-ok no_sqlc _ b ∙ ap ok sqlc_path;
        self = map_err-eq-ok no_self _ d ∙ ap ok self_path;
      }

  abbrev pub orchestrating : Subcommand → Text → Action
  orchestrating generate path = generate_package path
  orchestrating compile path = check_sql path

  -- The run that a command came to, and its state.
  pub record Orchestrated (subcommand : Subcommand) (path : Text) (disk : Disk) (s : State)
      : Type 0 where
    pub runner : Runner
    pub c : Config
    pub orchestrated : IsOrchestrated path runner c
    pub ran : run machine.host runner c subcommand disk ≡ (s, none)

  run_orchestrated-none :
      (subcommand : Subcommand) (path : Text) (disk : Disk)
      → (run_orchestrated machine subcommand path disk).1 ≡ none
      → Orchestrated subcommand path disk (run_orchestrated machine subcommand path disk).0
  unfolding run_orchestrated
  run_orchestrated-none subcommand path disk h = elim (Result-cases (orchestrate machine path)) [
    | inr (e, f) ↦
        let q : (run_orchestrated machine subcommand path disk).1 ≡ some e =
          rw (run_orchestrated, f) refl in
        absurd (none-ne-some (sym h ∙ q))
    | inl ((runner, c), f) ↦
        let q : run_orchestrated machine subcommand path disk
            ≡ wrap_run (run machine.host runner c subcommand disk) =
          rw (run_orchestrated, f) refl in
        subst (λ (r : State × Option CliError). Orchestrated subcommand path disk r.0) (sym q)
          (record {
            runner = runner;
            c = c;
            orchestrated = orchestrate-IsOrchestrated path runner c f;
            ran =
                wrap_run-none (run machine.host runner c subcommand disk)
                  (sym (ap (λ r. r.1) q) ∙ h);
          })
  ]

  run_action-orchestrating :
      (subcommand : Subcommand) (path : Text) (disk : Disk)
      → run_action machine (orchestrating subcommand path) disk ≡ (
        [],
        (run_orchestrated machine subcommand path disk).0,
        (run_orchestrated machine subcommand path disk).1,
      )
  unfolding run_action run_generate run_check
  run_action-orchestrating generate path disk = refl
  run_action-orchestrating compile path disk = refl

  run_command-none :
      (subcommand : Subcommand) (path level : Text) (disk : Disk)
      → let r =
          run_command machine
            (record { log_level = level; action = orchestrating subcommand path })
            disk in
        r.2 ≡ none → Orchestrated subcommand path disk r.1
  unfolding run_command
  run_command-none subcommand path level disk h = elim (Result-cases (bootstrap machine level)) [
    | inr (e, f) ↦
        let command : Invocation = record {
          log_level = level;
          action = orchestrating subcommand path;
        } in
        let q : (run_command machine command disk).2 ≡ some e = rw (run_command, f) refl in
        absurd (none-ne-some (sym h ∙ q))
    | inl (l, f) ↦
        let command : Invocation = record {
          log_level = level;
          action = orchestrating subcommand path;
        } in
        let q : run_command machine command disk
            ≡ run_action machine (orchestrating subcommand path) disk =
          rw (run_command, f) refl in
        let reached = q ∙ run_action-orchestrating subcommand path disk in
        subst (λ (r : Text × State × Option CliError). Orchestrated subcommand path disk r.1)
          (sym reached)
          (run_orchestrated-none subcommand path disk (sym (ap (λ r. r.2) reached) ∙ h))
  ]

  report_error-zero :
      (r : Text × State × Option CliError)
      → exit_code (report_error machine.report r).0.error ≡ 0
      → (r.2 ≡ none) × ((report_error machine.report r).1 ≡ r.1)
  unfolding exit_code
  report_error-zero (text, s, none) h = (refl, refl)
  report_error-zero (text, s, some e) h = ground arith

  module _ (getenv : Text → Text) (serve : Text × Option PluginError)
      (cobra : List Text → Result Text Invocation) where
    pub execute-Orchestrated :
        (args : List Text) (stdin : Option (Option Bool)) (disk : Disk) (subcommand : Subcommand)
        (path level : Text)
        → is_plugin_invocation args (is_terminal stdin) ≡ false
        → cobra args ≡ ok (record { log_level = level; action = orchestrating subcommand path })
        → exit_code (execute machine getenv serve cobra args stdin disk).0.error ≡ 0
        → Orchestrated subcommand path disk (execute machine getenv serve cobra args stdin disk).1
    unfolding execute
    execute-Orchestrated args stdin disk subcommand path level person parsed h =
        let command : Invocation = record {
          log_level = level;
          action = orchestrating subcommand path;
        } in
        let q : execute machine getenv serve cobra args stdin disk
            ≡ report_error machine.report (run_command machine command disk) =
          rw (execute, person, parsed) refl in
        let (fine, state) =
          report_error-zero (run_command machine command disk)
            (sym (ap (λ r. exit_code r.0.error) q) ∙ h) in
        subst (Orchestrated subcommand path disk) (sym (ap (λ r. r.1) q ∙ state))
          (run_command-none subcommand path level disk fine)
