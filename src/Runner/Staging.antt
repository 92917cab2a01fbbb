-- ===== src/Runner/Staging.antt =====
-- internal/orchestrator/run.go, the staging directory: what a run leaves on the disk.
use sqlc_gen_unison.Base.{
  ◌≡◌, refl, sym, ap, subst, ◌∙◌, inl, inr, true, false, Option, none, List, [], ◌∷◌, Text, text_eq,
  text_mem, All_of_mem, arith, All, Bool-cases, Option-cases, Result, ok, err, Result-cases,
}
use sqlc_gen_unison.Strings.{trim_space}
use sqlc_gen_unison.Paths.{is_below}
use sqlc_gen_unison.Paths.Below.{IsDirectory}
use sqlc_gen_unison.Disk.{Disk, write, read}
use sqlc_gen_unison.Disk.Reading.{
  is_below-ne, read-write_other, read-remove_all, read-remove_all_other,
}
use sqlc_gen_unison.Sqlc.{Report, run_sqlc, version_of}
use sqlc_gen_unison.Orchestrator.{Config, engines, roster_of}
use sqlc_gen_unison.Host.{Host}
use sqlc_gen_unison.Runner.{
  Runner, RunError, Subcommand, Line, State, config_path, rendered, render_config,
  check_sqlc_version, report_dialect, run_rendered, run_dialect, run_dialects, remove_staging,
  out_of, run_staged, run,
}
use sqlc_gen_unison.Runner.Turns.{run_dialects-some, run_dialects-none}
use sqlc_gen_unison.Runner.Filenames.{config_path-below}
use sqlc_gen_unison.Runner.Runs.{Started, run-Started, run-cases}

module _ {Fields : Type 0} (host : Host Fields) (runner : Runner) (c : Config) (P : Disk → Type 0)
    (kept : (disk : Disk) (binary dir : Text) (args : List Text)
      → P disk
      → P (host.exec disk binary dir args).1) where
  check_sqlc_version-keeps : (disk : Disk) → P disk → P (check_sqlc_version host runner c disk).1
  unfolding check_sqlc_version version_of run_sqlc
  check_sqlc_version-keeps disk h = elim (Bool-cases (text_eq (trim_space c.sqlc_version) [])) [
    | inl e ↦ rw (check_sqlc_version, e) h
    | inr e ↦ rw (check_sqlc_version, e) (kept disk _ _ _ h)
  ]

  module _ (subcommand : Subcommand) (staging out : Text) where
    -- Writing the configurations of some dialects keeps `P`.
    abbrev pub Writes : List Text → Type 0
    Writes =
        All
          (λ d. (text : Text) (disk : Disk) → P disk → P (write (config_path staging d) text disk))

    render_config-keeps :
        (d : Text) (disk : Disk)
        → ((text : Text) (disk : Disk) → P disk → P (write (config_path staging d) text disk))
        → P disk
        → P (render_config host runner c d staging out disk).1
    unfolding render_config
    render_config-keeps d disk w h = elim (Result-cases (rendered host runner c d staging out)) [
      | inr (x, e) ↦ rw (render_config, e) h
      | inl (config, e) ↦ elim (Result-cases (host.marshal config)) [
        | inr (x, f) ↦ rw (render_config, e, f) h
        | inl (text, f) ↦ elim (Option-cases (host.write_file (config_path staging d))) [
          | inr (x, g) ↦ rw (render_config, e, f, g) h
          | inl g ↦ rw (render_config, e, f, g) (w text disk h)
        ]
      ]
    ]

    report_dialect-keeps :
        (d : Text) (log : List Line) (r : Report × Disk)
        → P r.1
        → P (report_dialect host runner c subcommand staging out d log r).0.disk
    unfolding report_dialect
    report_dialect-keeps d log (report, disk) h = elim (Option-cases report.failure) [
      | inr (x, e) ↦ rw (report_dialect, e) h
      | inl e ↦ elim (Bool-cases (text_eq report.output [])) [
        | inl f ↦ rw (report_dialect, e, f) h
        | inr f ↦ rw (report_dialect, e, f) h
      ]
    ]

    run_rendered-keeps :
        (d : Text) (log : List Line) (r : Result RunError Text × Disk)
        → P r.1
        → P (run_rendered host runner c subcommand staging out d log r).0.disk
    unfolding run_rendered run_sqlc
    run_rendered-keeps d log (err e, disk) h = h
    run_rendered-keeps d log (ok path, disk) h = report_dialect-keeps d _ _ (kept disk _ _ _ h)

    run_dialects-keeps :
        (ds : List Text) (s : State)
        → Writes ds
        → P s.disk
        → P (run_dialects host runner c subcommand staging out ds s).0.disk
    unfolding run_dialects run_dialect
    run_dialects-keeps [] s w h = h
    run_dialects-keeps (d ∷ ds) s (w, ws) h =
        let (t, failure) = run_dialect host runner c subcommand staging out d s in
        let turned : P t.disk =
          run_rendered-keeps d s.log (render_config host runner c d staging out s.disk)
            (render_config-keeps d s.disk w h) in
        elim (Option-cases failure) [
          | inr (e, f) ↦
              subst (λ (r : State × Option RunError). P r.0.disk)
                (sym (
                  run_dialects-some host runner c subcommand staging out d ds s t e
                    (ap (λ a. (t, a)) f)))
                turned
          | inl f ↦
              subst (λ (r : State × Option RunError). P r.0.disk)
                (sym (
                  run_dialects-none host runner c subcommand staging out d ds s t
                    (ap (λ a. (t, a)) f)))
                (run_dialects-keeps ds t ws turned)
        ]

module _ {Fields : Type 0} (host : Host Fields) (runner : Runner) (c : Config)
    (subcommand : Subcommand) where
  -- Once its staging directory is made, a run leaves no file in it, whatever fails, if only the
  -- directory can be removed.
  pub run-removed :
      (disk later : Disk) (staging path : Text)
      → Started host runner c subcommand disk staging later
      → host.remove staging ≡ none
      → is_below staging path ≡ true
      → read path (run host runner c subcommand disk).0.disk ≡ none
  unfolding run_staged remove_staging
  run-removed disk later staging path v removable below =
      subst (λ (r : State × Option RunError). read path r.0.disk ≡ none)
        (sym (run-Started host runner c subcommand disk later staging v))
        (rw (run_staged, remove_staging, removable) (read-remove_all staging path _ below))

  pub remove_staging-other :
      (staging path : Text) (s : State)
      → is_below staging path ≡ false
      → read path (remove_staging host staging s).disk ≡ read path s.disk
  unfolding remove_staging
  remove_staging-other staging path s h = elim (Option-cases (host.remove staging)) [
    | inl e ↦ rw (remove_staging, e) (read-remove_all_other staging path s.disk h)
    | inr (x, e) ↦ rw (remove_staging, e) refl
  ]

  module _ (path staging : Text) (v : IsDirectory staging) (other : is_below staging path ≡ false)
      (engine : (d : Text) → text_mem d (roster_of c) ≡ true → text_mem d engines ≡ true)
      (sqlc : (disk : Disk) (binary dir : Text) (args : List Text)
        → read path (host.exec disk binary dir args).1 ≡ read path disk) where
    Reads : Option Text → Disk → Type 0
    Reads o disk = read path disk ≡ o

    run_staged-unchanged :
        (s : State)
        → read path (run_staged host runner c subcommand staging s).0.disk ≡ read path s.disk
    unfolding run_staged Reads
    run_staged-unchanged s =
        remove_staging-other staging path _ other
        ∙ run_dialects-keeps host runner c (Reads (read path s.disk))
            (λ d binary dir args h. sqlc d binary dir args ∙ h) subcommand staging (out_of host c)
            (roster_of c) s
            (All_of_mem (roster_of c) (λ d k text disk h.
              read-write_other path (config_path staging d) text disk
                (is_below-ne staging _ path (config_path-below staging d v (engine d k)) other)
              ∙ h))
            refl

    -- A run over the engines of sqlc, of either subcommand and with any failure, changes no file
    -- outside its staging directory that sqlc itself does not change.
    pub run-unchanged :
        (disk : Disk)
        → host.mkdir_temp ≡ ok staging
        → read path (run host runner c subcommand disk).0.disk ≡ read path disk
    unfolding run Reads
    run-unchanged disk temp =
        let checked =
          check_sqlc_version-keeps host runner c (Reads (read path disk))
            (λ d binary dir args h. sqlc d binary dir args ∙ h) disk refl in
        elim (run-cases host runner c subcommand disk) [
          | inl (e, h) ↦ ap (λ r. read path r.0.disk) h ∙ checked
          | inr (staging', later, started) ↦
              let same : staging ≡ staging' = ground (arith, started.staged) in
              ap (λ r. read path r.0.disk)
                (run-Started host runner c subcommand disk later staging' started)
              ∙ ap
                  (λ d.
                    read path
                      (run_staged host runner c subcommand d
                        (record { disk = later; log = [] })).0.disk)
                  (sym same)
              ∙ run_staged-unchanged (record { disk = later; log = [] })
              ∙ sym (ap (λ r. read path r.1) started.checked)
              ∙ checked
        ]
