-- ===== src/Runner/Liveness.antt =====
-- internal/orchestrator/run.go, `run`: where nothing outside fails, every dialect gets its turn.
use sqlc_gen_unison.Base.{
  ◌≡◌, refl, sym, ap, ◌∙◌, inl, inr, true, Option, none, some, List, [], ◌∷◌, ◌++◌, Text, text_eq,
  arith, Bool-cases, ok,
}
use sqlc_gen_unison.Paths.{is_rooted}
use sqlc_gen_unison.Paths.Clean.{IsAbsolute}
use sqlc_gen_unison.Disk.{Disk, write}
use sqlc_gen_unison.Sqlc.{Process, Report, report_of, run_sqlc}
use sqlc_gen_unison.Orchestrator.{Config, roster_of}
use sqlc_gen_unison.Host.{SqlcConfig, Host}
use sqlc_gen_unison.Runner.{
  Runner, RunError, Subcommand, Line, running_sqlc, State, config_path, options_map, rendered,
  render_config, report_dialect, run_rendered, run_dialect, out_of, run_staged, run,
}
use sqlc_gen_unison.Runner.Rendering.{KeepsAbsolute, rendered-IsRendered}
use sqlc_gen_unison.Runner.Turns.{args_of, run_dialects-Ends}
use sqlc_gen_unison.Runner.Runs.{Started, run-Started}
use sqlc_gen_unison.Runner.Ran.{Ran, run-Ran}

report_of-none :
    (args : List Text) (p : Process) → p.failure ≡ none → (report_of args p).failure ≡ none
unfolding report_of
report_of-none args p h = rw (report_of, h) refl

module _ {Fields : Type 0} (host : Host Fields) (runner : Runner) (c : Config)
    (subcommand : Subcommand) (staging : Text) where
  -- Nothing that a turn asks for fails.
  pub record NeverFails : Type 0 where
    pub keeps : KeepsAbsolute host
    pub rooted : is_rooted c.dir ≡ true
    pub from_root : IsAbsolute staging
    pub fields : Fields
    pub encodes : options_map host c ≡ ok fields
    pub marshals : (config : SqlcConfig Fields) → (text : Text) × (host.marshal config ≡ ok text)
    pub writes : (path : Text) → host.write_file path ≡ none
    pub succeeds :
        (disk : Disk) (args : List Text)
        → (host.exec disk runner.sqlc staging args).0.failure ≡ none

  no_failure : {e : RunError} → ◌≡◌ {A = Option RunError} none (some e) → ⊥
  no_failure h = ground arith

  pub render_config-ok :
      (out dialect text : Text) (disk : Disk) (config : SqlcConfig Fields)
      → rendered host runner c dialect staging out ≡ ok config
      → host.marshal config ≡ ok text
      → host.write_file (config_path staging dialect) ≡ none
      → render_config host runner c dialect staging out disk
        ≡ (ok (config_path staging dialect), write (config_path staging dialect) text disk)
  unfolding render_config
  render_config-ok out dialect text disk config h k l = rw (render_config, h, k, l) refl

  report_dialect_ok :
      (out dialect : Text) (log : List Line) (r : Report × Disk)
      → r.0.failure ≡ none
      → (report_dialect host runner c subcommand staging out dialect log r).1 ≡ none
  unfolding report_dialect
  report_dialect_ok out dialect log (report, disk) h =
      elim (Bool-cases (text_eq report.output [])) [
        | inl e ↦ rw (report_dialect, h, e) refl
        | inr e ↦ rw (report_dialect, h, e) refl
      ]

  run_dialect-live :
      NeverFails
      → (dialect : Text) (s : State)
      → (run_dialect host runner c subcommand staging (out_of host c) dialect s).1 ≡ none
  unfolding run_dialect run_rendered run_sqlc
  run_dialect-live v dialect s =
      let (config, a, _) =
        rendered-IsRendered host v.keeps runner c dialect staging v.fields v.rooted v.from_root
          v.encodes in
      let (text, b) = v.marshals config in
      let path = config_path staging dialect in
      let wrote = render_config-ok (out_of host c) dialect text s.disk config a b (v.writes path) in
      let args = args_of host runner c subcommand staging (out_of host c) path in
      let staged = write path text s.disk in
      ap (λ r. (run_rendered host runner c subcommand staging (out_of host c) dialect s.log r).1)
        wrote
      ∙ report_dialect_ok (out_of host c) dialect (s.log ++ running_sqlc dialect subcommand ∷ [])
          (run_sqlc host.exec runner.sqlc staging args staged)
          (report_of-none args (host.exec staged runner.sqlc staging args).0
            (v.succeeds staged args))

  -- If the paths of the configuration and of the staging directory are from the root, links keep paths so,
  -- sqlc is the pinned one and its runs never fail, the directories can be made, the configurations be
  -- written and the options encoded, then a run ends without a failure; and for every dialect of the
  -- schemas, in their order, its configuration was written and the process of sqlc was run on it and
  -- succeeded, each on the disk that the one before left.
  pub run-live :
      (disk later : Disk)
      → Started host runner c subcommand disk staging later
      → NeverFails
      → ((run host runner c subcommand disk).1 ≡ none)
        × Ran host runner c subcommand disk (run host runner c subcommand disk).0
  unfolding run_staged
  run-live disk later v never =
      let s : State = record { disk = later; log = [] } in
      let same = run-Started host runner c subcommand disk later staging v in
      elim (run_dialects-Ends host runner c subcommand staging (out_of host c) (roster_of c) s) [
        | inr (e, _, stop) ↦
            let alive = run_dialect-live never stop.d stop.t in
            absurd (no_failure (sym alive ∙ stop.failed))
        | inl (h, _) ↦
            let ended = ap (λ r. r.1) same ∙ h in
            (ended, run-Ran host runner c subcommand disk ended)
      ]
