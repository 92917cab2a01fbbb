-- ===== src/Runner/Ran.antt =====
-- internal/orchestrator/run.go, `run`: what a run that nothing stops has done.
use sqlc_gen_unison.Base.{◌≡◌, sym, ap, ◌∙◌, inl, inr, Option, none, some, [], Text, arith}
use sqlc_gen_unison.Disk.{Disk}
use sqlc_gen_unison.Orchestrator.{Config, roster_of}
use sqlc_gen_unison.Host.{Host}
use sqlc_gen_unison.Runner.{
  Runner, RunError, Subcommand, State, remove_staging, out_of, run_staged, run,
}
use sqlc_gen_unison.Runner.Turns.{dialects_run, Turns, run_dialects-Ends, Turns-dialects_run}
use sqlc_gen_unison.Runner.Runs.{
  IsPinned, check_sqlc_version-IsPinned, Started, run-Started, run-cases, Refused-run,
  remove_staging-dialects_run,
}

module _ {Fields : Type 0} (host : Host Fields) (runner : Runner) (c : Config)
    (subcommand : Subcommand) where
  -- What a run that nothing stops has done: it found the pinned sqlc, made all turns, for the dialects of
  -- the schemas in their sorted order, from the disk that finding the version left, and removed the
  -- staging directory from what they left.
  pub record Ran (disk : Disk) (s : State) : Type 0 where
    pub staging : Text
    pub later : Disk
    pub t : State
    pub pinned : IsPinned host runner c disk
    pub started : Started host runner c subcommand disk staging later
    pub turns :
        Turns host runner c subcommand staging
          (out_of host c)
          (roster_of c)
          (record { disk = later; log = [] })
          t
    pub left : s ≡ remove_staging host staging t
    pub logged : dialects_run s.log ≡ roster_of c

  pub run-Ran :
      (disk : Disk)
      → (run host runner c subcommand disk).1 ≡ none
      → Ran disk (run host runner c subcommand disk).0
  unfolding run_staged
  run-Ran disk h = elim (run-cases host runner c subcommand disk) [
    | inl early ↦ absurd (Refused-run host runner c subcommand disk early h)
    | inr (staging, later, v) ↦
        let s : State = record { disk = later; log = [] } in
        let reached = run-Started host runner c subcommand disk later staging v in
        elim (run_dialects-Ends host runner c subcommand staging (out_of host c) (roster_of c) s) [
          | inr (e, k, _) ↦
              let failed : ◌≡◌ {A = Option RunError} none (some e) =
                sym h ∙ ap (λ r. r.1) reached ∙ k in
              ground arith
          | inl (_, turns) ↦ record {
            staging = staging;
            later = later;
            t = _;
            pinned = check_sqlc_version-IsPinned host runner c disk (ap (λ r. r.0) v.checked);
            started = v;
            turns = turns;
            left = ap (λ r. r.0) reached;
            logged =
                ap (λ r. dialects_run r.0.log) reached
                ∙ remove_staging-dialects_run host runner c subcommand staging _
                ∙ Turns-dialects_run host runner c subcommand staging (out_of host c) (roster_of c)
                    s _ turns;
          }
        ]
  ]
