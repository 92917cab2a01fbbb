-- ===== src/Runner/Runs.antt =====
-- internal/orchestrator/run.go, `run`: which dialects sqlc is run for, and what stops it.
use sqlc_gen_unison.Base.{
  ◌≡◌, ◌≢◌, refl, sym, ap, subst, ◌∙◌, ◌⊎◌, inl, inr, Option, none, some, [], ◌∷◌, append-nil, Text,
  text_eq, text_eq_iff, arith, Bool-cases, Option-cases, Result, ok, err, Result-cases,
}
use sqlc_gen_unison.Strings.{trim_space}
use sqlc_gen_unison.Disk.{Disk}
use sqlc_gen_unison.Sqlc.{version_of}
use sqlc_gen_unison.Orchestrator.{Config, roster_of}
use sqlc_gen_unison.Host.{Host}
use sqlc_gen_unison.Runner.{
  Runner, RunError, no_directory, no_staging, Subcommand, not_removed, State, normalize_version,
  compare_versions, check_sqlc_version, remove_staging, out_of, make_out, run_staged, run_checked,
  run,
}
use sqlc_gen_unison.Runner.Turns.{
  dialects_run, dialects_run-append, Turns, Stopped, run_dialects-Ends, Turns-dialects_run,
}

module _ {Fields : Type 0} (host : Host Fields) (runner : Runner) (c : Config) where
  -- The versions agree, or none is pinned.
  abbrev pub IsPinned : Disk → Type 0
  IsPinned disk =
      (trim_space c.sqlc_version ≡ [])
      ⊎ ((actual : Text) × ((version_of host.exec runner.sqlc disk).0 ≡ ok actual)
          × (normalize_version actual ≡ normalize_version c.sqlc_version))

  pub check_sqlc_version-IsPinned :
      (disk : Disk) → (check_sqlc_version host runner c disk).0 ≡ ok tt → IsPinned disk
  unfolding check_sqlc_version compare_versions
  check_sqlc_version-IsPinned disk h = elim (Bool-cases (text_eq (trim_space c.sqlc_version) [])) [
    | inl e ↦ inl ((text_eq_iff (trim_space c.sqlc_version) []).0 e)
    | inr e ↦ elim (Result-cases (version_of host.exec runner.sqlc disk).0) [
      | inr (x, v) ↦ ground arith
      | inl (actual, v) ↦ inr (
        actual,
        v,
        (text_eq_iff (normalize_version actual) (normalize_version c.sqlc_version)).0
            (ground arith),
      )
    ]
  ]

  module _ (subcommand : Subcommand) where
    -- The run gets to its loop, with this staging directory and this disk.
    pub record Started (disk : Disk) (staging : Text) (later : Disk) : Type 0 where
      pub checked : check_sqlc_version host runner c disk ≡ (ok tt, later)
      pub made : make_out host subcommand (out_of host c) ≡ none
      pub staged : host.mkdir_temp ≡ ok staging

    run_checked_ok :
        (later : Disk) (staging : Text)
        → make_out host subcommand (out_of host c) ≡ none
        → host.mkdir_temp ≡ ok staging
        → run_checked host runner c subcommand (ok tt, later)
          ≡ run_staged host runner c subcommand staging (record { disk = later; log = [] })
    unfolding run_checked
    run_checked_ok later staging made staged = rw (run_checked, made, staged) refl

    pub run-Started :
        (disk later : Disk) (staging : Text)
        → Started disk staging later
        → run host runner c subcommand disk
          ≡ run_staged host runner c subcommand staging (record { disk = later; log = [] })
    unfolding run
    run-Started disk later staging v =
        ap (run_checked host runner c subcommand) v.checked
        ∙ run_checked_ok later staging v.made v.staged

    -- The run ends before its loop: no dialect is run.
    abbrev pub Refused : Result RunError (Unit {0}) × Disk → Type 0
    Refused r =
        (e : RunError) × (run_checked host runner c subcommand r
          ≡ (record { disk = r.1; log = [] }, some e))

    run_checked-cases :
        (r : Result RunError (Unit {0}) × Disk)
        → Refused r
          ⊎ ((staging : Text) × (r.0 ≡ ok tt)
              × (make_out host subcommand (out_of host c) ≡ none)
              × (host.mkdir_temp ≡ ok staging))
    unfolding run_checked
    run_checked-cases (err e, disk) = inl (e, refl)
    run_checked-cases (ok u, disk) =
        elim (Option-cases (make_out host subcommand (out_of host c))) [
          | inr (cause, h) ↦ inl (no_directory c.out cause, rw (run_checked, h) refl)
          | inl h ↦ elim (Result-cases host.mkdir_temp) [
            | inr (cause, k) ↦ inl (no_staging cause, rw (run_checked, h, k) refl)
            | inl (staging, k) ↦ inr (staging, refl, h, k)
          ]
        ]

    pub run-cases :
        (disk : Disk)
        → Refused (check_sqlc_version host runner c disk)
          ⊎ ((staging : Text) × (later : Disk) × Started disk staging later)
    run-cases disk =
        let (checked, later) = check_sqlc_version host runner c disk in
        elim (run_checked-cases (checked, later)) [
          | inl r ↦ inl r
          | inr (staging, k, made, staged) ↦ inr (
            staging,
            later,
            record { checked = ap (λ a. (a, later)) k; made = made; staged = staged },
          )
        ]

    pub Refused-run :
        (disk : Disk)
        → Refused (check_sqlc_version host runner c disk)
        → (run host runner c subcommand disk).1 ≢ none
    unfolding run
    Refused-run disk (e, h) k =
        let failed : ◌≡◌ {A = Option RunError} (some e) none = sym (ap (λ r. r.1) h) ∙ k in
        ground arith

    pub remove_staging-dialects_run :
        (staging : Text) (s : State)
        → dialects_run (remove_staging host staging s).log ≡ dialects_run s.log
    unfolding remove_staging
    remove_staging-dialects_run staging s = elim (Option-cases (host.remove staging)) [
      | inl h ↦ rw (remove_staging, h) refl
      | inr (cause, h) ↦
          rw (remove_staging, h)
            (dialects_run-append s.log (not_removed staging cause ∷ []) ∙ append-nil _)
    ]

    -- How a run went: it was refused, with no dialect run; or sqlc was run for every dialect of the
    -- schemas, in their sorted order, and nothing failed; or a dialect's turn ended it.
    pub data Went (disk : Disk) (r : State × Option RunError) : Type 0 where
      refused : (e : RunError) → r.1 ≡ some e → r.0.log ≡ [] → Went disk r
      finished :
          (staging : Text) (later : Disk) (t : State)
          → Started disk staging later
          → r.1 ≡ none
          → Turns host runner c subcommand staging
              (out_of host c)
              (roster_of c)
              (record { disk = later; log = [] })
              t
          → dialects_run r.0.log ≡ roster_of c
          → Went disk r
      stopped :
          (staging : Text) (later : Disk) (e : RunError)
          → Started disk staging later
          → r.1 ≡ some e
          → Stopped host runner c subcommand staging
              (out_of host c)
              (roster_of c)
              (record { disk = later; log = [] })
              e
          → Went disk r

    run_staged-Went :
        (disk later : Disk) (staging : Text)
        → Started disk staging later
        → Went disk
            (run_staged host runner c subcommand staging (record { disk = later; log = [] }))
    unfolding run_staged
    run_staged-Went disk later staging v =
        let s : State = record { disk = later; log = [] } in
        elim (run_dialects-Ends host runner c subcommand staging (out_of host c) (roster_of c) s) [
          | inl (h, turns) ↦ finished staging later _ v h turns (
              remove_staging-dialects_run staging _
              ∙ Turns-dialects_run host runner c subcommand staging (out_of host c) (roster_of c) s
                  _ turns)
          | inr (e, h, stop) ↦ stopped staging later e v h stop
        ]

    -- Every run is refused before any dialect is run; or has run sqlc without a failure for every
    -- dialect of the schemas, once each and in their sorted order; or was ended by the failure of one
    -- dialect, those before it having succeeded.
    pub run-Went : (disk : Disk) → Went disk (run host runner c subcommand disk)
    unfolding run
    run-Went disk = elim (run-cases disk) [
      | inl (e, h) ↦ refused e (ap (λ r. r.1) h) (ap (λ r. r.0.log) h)
      | inr (staging, later, v) ↦
          subst (Went disk) (sym (run-Started disk later staging v))
            (run_staged-Went disk later staging v)
    ]
