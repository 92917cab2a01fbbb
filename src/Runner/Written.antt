-- ===== src/Runner/Written.antt =====
-- internal/orchestrator with internal/generate: the files of every dialect in the output directory, from
-- turn to turn of the loop.
use sqlc_gen_unison.Base.{
  ◌≡◌, sym, ap, ap₂, subst, ◌∙◌, inl, inr, Option, none, List, [], ◌∷◌, Text, All_of_mem, arith,
  All, All-map, ok, ok_unique,
}
use sqlc_gen_unison.Paths.{join_path}
use sqlc_gen_unison.Paths.Relative.{IsName}
use sqlc_gen_unison.Options.{Options}
use sqlc_gen_unison.Gogen.Files.{File}
use sqlc_gen_unison.Plugin.{PluginRequest}
use sqlc_gen_unison.Disk.{Disk, write, read, write_files}
use sqlc_gen_unison.Disk.Reading.{read-write, read-write_other, is_below-ne}
use sqlc_gen_unison.Disk.Responses.{Has, IsPlain, write_files-Has, write_files-keeps}
use sqlc_gen_unison.Sqlc.{run_sqlc}
use sqlc_gen_unison.Orchestrator.{Config, roster_of}
use sqlc_gen_unison.Host.{SqlcConfig, Host}
use sqlc_gen_unison.Runner.{
  Runner, RunError, generate, State, config_path, resolved, out_of, remove_staging, run_dialects,
  run_staged, run,
}
use sqlc_gen_unison.Runner.Turns.{run_dialects-Ends, Turned, Turns, done, turn, args_of}
use sqlc_gen_unison.Runner.Runs.{Refused-run, run-Started, run-cases}
use sqlc_gen_unison.Runner.Rendering.{render_config-eq-ok}
use sqlc_gen_unison.Runner.Filenames.{config_path-below}
use sqlc_gen_unison.Runner.Staging.{remove_staging-other}
use sqlc_gen_unison.Runner.Output.{
  IsSqlc, IsPlaced, Converge, InRoster, Generated, Configured-IsRendered, Generated-IsPlain,
  Generated-Agree,
}

module _ {Fields : Type 0} (host : Host Fields) (runner : Runner) (c : Config) (staging : Text)
    (decode : Text → Option Options) (format : Text → Option Text) (version : Text)
    (json : Fields → Text) (request : SqlcConfig Fields → PluginRequest) where
  module _ (sqlc : IsSqlc host runner c staging decode format version json request)
      (placed : IsPlaced host runner c staging decode format version json request)
      (converge : Converge host runner c staging decode format version json request) where
    -- The output directory, with links resolved.
    abbrev pub out : Text
    out = resolved host (out_of host c)

    abbrev pub Member : Text → Type 0
    Member = InRoster host runner c staging decode format version json request

    -- The files that the plugin gives for a dialect.
    abbrev pub Given : Text → List File → Type 0
    Given = Generated host runner c staging decode format version json request

    -- The plugin's files for the dialect are on the disk.
    pub record Written (disk : Disk) (d : Text) : Type 0 where
      pub files : List File
      pub generated : Given d files
      pub has : All (Has out placed.place disk) files

    -- Two disks with the same contents in the output directory.
    AreSame : Disk → Disk → Type 0
    AreSame disk later =
        (name : Text)
        → IsName name
        → read (join_path out name) later ≡ read (join_path out name) disk

    Has-AreSame :
        (fs : List File) (disk later : Disk)
        → AreSame disk later
        → All (IsPlain out placed.place) fs
        → All (Has out placed.place disk) fs
        → All (Has out placed.place later) fs
    unfolding AreSame
    Has-AreSame [] disk later same _ _ = tt
    Has-AreSame (f ∷ fs) disk later same (n, ns) (p, ps) =
        (same f.name n ∙ p, Has-AreSame fs disk later same ns ps)

    Written-AreSame :
        (x : Text) (disk later : Disk) → AreSame disk later → Written disk x → Written later x
    Written-AreSame x disk later same w = record {
      files = w.files;
      generated = w.generated;
      has =
          Has-AreSame w.files disk later same
            (Generated-IsPlain host runner c staging decode format version json request sqlc placed
              converge x w.files w.generated)
            w.has;
    }

    write-AreSame :
        (d text : Text) (disk : Disk)
        → Member d
        → AreSame disk (write (config_path staging d) text disk)
    unfolding AreSame
    write-AreSame d text disk h name n =
        read-write_other (join_path out name) (config_path staging d) text disk (
          is_below-ne staging (config_path staging d) (join_path out name)
            (config_path-below staging d placed.directory (placed.engine d h))
            (placed.outside name n))

    remove_staging-AreSame : (s : State) → AreSame s.disk (remove_staging host staging s).disk
    unfolding AreSame
    remove_staging-AreSame s name n =
        remove_staging-other host runner c generate staging (join_path out name) s
          (placed.outside name n)

    Written-write_files :
        (x d : Text) (gs : List File) (disk : Disk)
        → Given d gs
        → Written disk x
        → Written (write_files out gs disk) x
    Written-write_files x d gs disk k w = record {
      files = w.files;
      generated = w.generated;
      has =
          write_files-keeps out placed.place w.files gs disk
            (Generated-IsPlain host runner c staging decode format version json request sqlc placed
              converge x w.files w.generated)
            (Generated-IsPlain host runner c staging decode format version json request sqlc placed
              converge d gs k)
            (Generated-Agree host runner c staging decode format version json request sqlc placed
              converge x d w.files gs w.generated k)
            w.has;
    }

    -- After a dialect's turn its files are on the disk, and those of the dialects before are kept.
    Turned-Written :
        (d : Text) (s t : State)
        → Member d
        → Turned host runner c generate staging (out_of host c) d s t
        → Written t.disk d × ((x : Text) → Written s.disk x → Written t.disk x)
    unfolding run_sqlc
    Turned-Written d s t h turned =
        let (config, text, configured, marshaled, path, staged) =
          render_config-eq-ok host runner c staging (out_of host c) d turned.path s.disk
            turned.staged turned.wrote in
        let args = args_of host runner c generate staging (out_of host c) in
        let disk = write (config_path staging d) text s.disk in
        let same = ap₂ (λ p x. host.exec x runner.sqlc staging (args p)) path staged in
        let v =
          Configured-IsRendered host runner c staging decode format version json request sqlc placed
            converge d config configured in
        let (fs, generated, later) =
          sqlc.serves d text disk config v.block v.code h configured
            (record { blocks = v.blocks; codegens = v.codegens })
            (read-write (config_path staging d) text s.disk) marshaled
            (ap (λ r. r.0.failure) (sym same) ∙ turned.succeeded) in
        let g : Given d fs = record {
          member = h;
          config = config;
          configured = configured;
          generated = generated;
        } in
        let written : t.disk ≡ write_files out fs disk =
          sym turned.left ∙ ap (λ r. r.1) same ∙ later ∙ ap (λ p. write_files p fs disk) v.out in
        (
          subst (λ x. Written x d) (sym written)
              (record {
                files = fs;
                generated = g;
                has =
                    write_files-Has out placed.place fs disk
                      (Generated-IsPlain host runner c staging decode format version json request
                        sqlc placed converge d fs g)
                      (Generated-Agree host runner c staging decode format version json request sqlc
                        placed converge d d fs fs g g);
              }),
          λ x w.
              subst (λ y. Written y x) (sym written)
                (Written-write_files x d fs disk g
                  (Written-AreSame x s.disk disk (write-AreSame d text s.disk h) w)),
        )

    Turns-Written :
        (ds : List Text) (s u : State)
        → All Member ds
        → Turns host runner c generate staging (out_of host c) ds s u
        → All (Written u.disk) ds × ((x : Text) → Written s.disk x → Written u.disk x)
    Turns-Written [] s _ _ done = (tt, λ x w. w)
    Turns-Written (d ∷ ds) s u (h, hs) (turn {t = t} turned turns) =
        let (here, kept) = Turned-Written d s t h turned in
        let (later, keeps) = Turns-Written ds t u hs turns in
        ((keeps d here, later), λ x w. keeps x (kept x w))

    run_staged-Written :
        (s : State)
        → (run_staged host runner c generate staging s).1 ≡ none
        → All (Written (run_staged host runner c generate staging s).0.disk) (roster_of c)
    unfolding run_staged
    run_staged-Written s h =
        elim (run_dialects-Ends host runner c generate staging (out_of host c) (roster_of c) s) [
          | inr (e, k, _) ↦ ground arith
          | inl (_, turns) ↦
              let t =
                (run_dialects host runner c generate staging (out_of host c) (roster_of c) s).0 in
              let (written, _) =
                Turns-Written (roster_of c) s t (All_of_mem (roster_of c) (λ d m. m)) turns in
              All-map
                (λ d w.
                  Written-AreSame d t.disk (remove_staging host staging t).disk
                    (remove_staging-AreSame t) w)
                (roster_of c) written
        ]

    -- Where sqlc serves the plugin's response, links keep paths from the root, the staging directory is
    -- apart from the output directory, and the dialects' analyses converge to the same shared queries, a
    -- generating run that nothing stops leaves, for every dialect of the schemas, all four files that the
    -- plugin gives for it in the output directory, whatever the order of the dialects and whatever was
    -- there: the files that one dialect writes over those of another are the same.
    pub run-Written :
        (disk : Disk)
        → host.mkdir_temp ≡ ok staging
        → (run host runner c generate disk).1 ≡ none
        → All (Written (run host runner c generate disk).0.disk) (roster_of c)
    run-Written disk temp h = elim (run-cases host runner c generate disk) [
      | inl refused ↦ absurd (Refused-run host runner c generate disk refused h)
      | inr (staging', later, started) ↦
          let same : staging' ≡ staging = ok_unique started.staged temp in
          let s : State = record { disk = later; log = [] } in
          let reached =
            run-Started host runner c generate disk later staging' started
            ∙ ap (λ d. run_staged host runner c generate d s) same in
          subst (λ (r : State × Option RunError). All (Written r.0.disk) (roster_of c))
            (sym reached) (run_staged-Written s (sym (ap (λ r. r.1) reached) ∙ h))
    ]
