-- ===== src/Runner/Turns.antt =====
-- internal/orchestrator/run.go, the loop of `run`: its turns as a relation between states.
use sqlc_gen_unison.Base.{
  ◌≡◌, refl, sym, ap, subst, ◌∙◌, ◌⊎◌, inl, inr, Option, none, some, List, [], ◌∷◌, ◌++◌,
  append-nil, append_assoc, Text, codes, text_eq, arith, Bool-cases, Option-cases, Result, ok, err,
}
use sqlc_gen_unison.Disk.{Disk}
use sqlc_gen_unison.Sqlc.{Process, Report, report_of, run_sqlc}
use sqlc_gen_unison.Orchestrator.{Config}
use sqlc_gen_unison.Host.{Host}
use sqlc_gen_unison.Runner.{
  Runner, RunError, Subcommand, subcommand_name, Line, running_sqlc, said, not_removed, State,
  render_config, report_dialect, run_rendered, run_dialect, run_dialects,
}

-- The dialects that sqlc was run for.
abbrev pub dialects_run : List Line → List Text
dialects_run [] = []
dialects_run (running_sqlc dialect _ ∷ lines) = dialect ∷ dialects_run lines
dialects_run (said _ _ ∷ lines) = dialects_run lines
dialects_run (not_removed _ _ ∷ lines) = dialects_run lines

pub dialects_run-append :
    (xs ys : List Line) → dialects_run (xs ++ ys) ≡ dialects_run xs ++ dialects_run ys
dialects_run-append [] ys = refl
dialects_run-append (running_sqlc d s ∷ xs) ys = ap (λ ds. d ∷ ds) (dialects_run-append xs ys)
dialects_run-append (said d t ∷ xs) ys = dialects_run-append xs ys
dialects_run-append (not_removed p t ∷ xs) ys = dialects_run-append xs ys

dialects_run-said :
    (log : List Line) (d t : Text) → dialects_run (log ++ said d t ∷ []) ≡ dialects_run log
dialects_run-said log d t = dialects_run-append log (said d t ∷ []) ∙ append-nil (dialects_run log)

report_of-failure :
    (args : List Text) (p : Process) → (report_of args p).failure ≡ none → p.failure ≡ none
unfolding report_of
report_of-failure args p h = elim (Option-cases p.failure) [ inl e ↦ e | inr (x, e) ↦ ground arith ]

module _ {Fields : Type 0} (host : Host Fields) (runner : Runner) (c : Config)
    (subcommand : Subcommand) (staging out : Text) where
  -- The arguments that sqlc is run with.
  abbrev pub args_of : Text → List Text
  args_of path = subcommand_name subcommand ∷ codes "-f" ∷ path ∷ []

  -- A turn that does not end the loop: the configuration is written, and the process of sqlc that is run
  -- on it succeeds and leaves the disk of the next turn.
  pub record Turned (dialect : Text) (s t : State) : Type 0 where
    pub path : Text
    pub staged : Disk
    pub wrote : render_config host runner c dialect staging out s.disk ≡ (ok path, staged)
    pub succeeded : (host.exec staged runner.sqlc staging (args_of path)).0.failure ≡ none
    pub left : (host.exec staged runner.sqlc staging (args_of path)).1 ≡ t.disk
    pub logged : dialects_run t.log ≡ dialects_run s.log ++ dialect ∷ []

  -- The state in which sqlc has been run, and what it reported.
  abbrev pub reported : Text → Disk → Report × Disk
  reported path staged = run_sqlc host.exec runner.sqlc staging (args_of path) staged

  report_dialect-none :
      (dialect : Text) (log : List Line) (r : Report × Disk) (t : State)
      → report_dialect host runner c subcommand staging out dialect log r ≡ (t, none)
      → (r.0.failure ≡ none) × (r.1 ≡ t.disk) × (dialects_run t.log ≡ dialects_run log)
  unfolding report_dialect
  report_dialect-none dialect log (report, disk) t h = elim (Option-cases report.failure) [
    | inr (e, f) ↦ ground arith
    | inl f ↦ elim (Bool-cases (text_eq report.output [])) [
      | inl e ↦ ground arith
      | inr e ↦ (f, ground arith, ground (arith, dialects_run-said log dialect report.output))
    ]
  ]

  run_rendered-none :
      (dialect : Text) (log : List Line) (r : Result RunError Text × Disk) (t : State)
      → run_rendered host runner c subcommand staging out dialect log r ≡ (t, none)
      → (path : Text) × (r.0 ≡ ok path)
        × ((reported path r.1).0.failure ≡ none)
        × ((reported path r.1).1 ≡ t.disk)
        × (dialects_run t.log ≡ dialects_run log ++ dialect ∷ [])
  unfolding run_rendered
  run_rendered-none dialect log (err e, disk) t h = ground arith
  run_rendered-none dialect log (ok path, disk) t h =
      let (f, d, l) =
        report_dialect-none dialect (log ++ running_sqlc dialect subcommand ∷ [])
          (reported path disk) t h in
      (path, refl, f, d, l ∙ dialects_run-append log (running_sqlc dialect subcommand ∷ []))

  run_dialect-Turned :
      (dialect : Text) (s t : State)
      → run_dialect host runner c subcommand staging out dialect s ≡ (t, none)
      → Turned dialect s t
  unfolding run_dialect run_sqlc
  run_dialect-Turned dialect s t h =
      let r = render_config host runner c dialect staging out s.disk in
      let (path, wrote, f, d, l) = run_rendered-none dialect s.log r t h in
      record {
        path = path;
        staged = r.1;
        wrote = ap (λ a. (a, r.1)) wrote;
        succeeded =
            report_of-failure (args_of path) (host.exec r.1 runner.sqlc staging (args_of path)).0 f;
        left = d;
        logged = l;
      }

  -- All turns for some dialects, in their order.
  pub data Turns : List Text → State → State → Type 0 where
    done : {s : State} → Turns [] s s
    turn :
        {d : Text} {ds : List Text} {s t u : State}
        → Turned d s t
        → Turns ds t u
        → Turns (d ∷ ds) s u

  -- The loop is stopped by the dialect `d`, which runs after `before`.
  pub record Stopped (ds : List Text) (s : State) (e : RunError) : Type 0 where
    pub before : List Text
    pub d : Text
    pub after : List Text
    pub split : ds ≡ before ++ d ∷ after
    pub t : State
    pub turns : Turns before s t
    pub failed : (run_dialect host runner c subcommand staging out d t).1 ≡ some e

  -- All turns have been made, or one of them has stopped the loop.
  abbrev pub Ends : List Text → State → State × Option RunError → Type 0
  Ends ds s r = ((r.1 ≡ none) × Turns ds s r.0) ⊎ ((e : RunError) × (r.1 ≡ some e) × Stopped ds s e)

  pub run_dialects-some :
      (d : Text) (ds : List Text) (s t : State) (e : RunError)
      → run_dialect host runner c subcommand staging out d s ≡ (t, some e)
      → run_dialects host runner c subcommand staging out (d ∷ ds) s ≡ (t, some e)
  unfolding run_dialects
  run_dialects-some d ds s t e h =
      ap
        (λ (r : State × Option RunError). elim r.1 [
          | some e ↦ (r.0, some e)
          | none ↦ run_dialects host runner c subcommand staging out ds r.0
        ])
        h

  pub run_dialects-none :
      (d : Text) (ds : List Text) (s t : State)
      → run_dialect host runner c subcommand staging out d s ≡ (t, none)
      → run_dialects host runner c subcommand staging out (d ∷ ds) s
        ≡ run_dialects host runner c subcommand staging out ds t
  unfolding run_dialects
  run_dialects-none d ds s t h =
      ap
        (λ (r : State × Option RunError). elim r.1 [
          | some e ↦ (r.0, some e)
          | none ↦ run_dialects host runner c subcommand staging out ds r.0
        ])
        h

  Stopped-cons :
      {d : Text} {ds : List Text} {s t : State} {e : RunError}
      → Turned d s t
      → Stopped ds t e
      → Stopped (d ∷ ds) s e
  Stopped-cons {d = d} turned stop = record {
    before = d ∷ stop.before;
    d = stop.d;
    after = stop.after;
    split = ap (λ xs. d ∷ xs) stop.split;
    t = stop.t;
    turns = turn turned stop.turns;
    failed = stop.failed;
  }

  Ends-cons :
      {d : Text} {ds : List Text} {s t : State} (r : State × Option RunError)
      → Turned d s t
      → Ends ds t r
      → Ends (d ∷ ds) s r
  Ends-cons r turned (inl (h, turns)) = inl (h, turn turned turns)
  Ends-cons r turned (inr (e, h, stop)) = inr (e, h, Stopped-cons turned stop)

  pub run_dialects-Ends :
      (ds : List Text) (s : State)
      → Ends ds s (run_dialects host runner c subcommand staging out ds s)
  unfolding run_dialects
  run_dialects-Ends [] s = inl (refl, done)
  run_dialects-Ends (d ∷ ds) s =
      let (t, failure) = run_dialect host runner c subcommand staging out d s in
      elim (Option-cases failure) [
        | inl f ↦
            let h : run_dialect host runner c subcommand staging out d s ≡ (t, none) =
              ap (λ a. (t, a)) f in
            subst (Ends (d ∷ ds) s) (sym (run_dialects-none d ds s t h))
              (Ends-cons _ (run_dialect-Turned d s t h) (run_dialects-Ends ds t))
        | inr (e, f) ↦
            let h : run_dialect host runner c subcommand staging out d s ≡ (t, some e) =
              ap (λ a. (t, a)) f in
            subst (Ends (d ∷ ds) s) (sym (run_dialects-some d ds s t e h)) (
              inr (
                e,
                refl,
                record {
                  before = [];
                  d = d;
                  after = ds;
                  split = refl;
                  t = s;
                  turns = done;
                  failed = f;
                },
              ))
      ]

  pub Turns-dialects_run :
      (ds : List Text) (s t : State) → Turns ds s t → dialects_run t.log ≡ dialects_run s.log ++ ds
  Turns-dialects_run [] s _ done = sym (append-nil (dialects_run s.log))
  Turns-dialects_run (d ∷ ds) s u (turn {t = t} turned turns) =
      Turns-dialects_run ds t u turns
      ∙ ap (λ xs. xs ++ ds) turned.logged
      ∙ append_assoc (dialects_run s.log) (d ∷ []) ds
