-- ===== src/Tests/Runner.antt =====
-- internal/orchestrator/run.go on a project of two dialects, with a sqlc that gives the plugin's files.
use sqlc_gen_unison.Base.{
  ◌≡◌, refl, sym, subst, true, false, Option, none, some, List, [], ◌∷◌, Text, codes, text_eq,
  text_mem, any, All, arith, if◌then◌else◌, ok,
}
use sqlc_gen_unison.Base.Order.{text_le, sort_by, insert_by}
use sqlc_gen_unison.Strings.{
  trim_space, trim_left, trim_right, is_space, trim_prefix, cut_prefix, has_prefix, join,
}
use sqlc_gen_unison.Paths.{
  clean, join_path, is_below, elements_of, walk, split, step_into, go_up, print,
}
use sqlc_gen_unison.Paths.Relative.{IsName}
use sqlc_gen_unison.Paths.Clean.{IsAbsolute, clean-IsAbsolute}
use sqlc_gen_unison.Paths.Below.{IsDirectory, IsDirectory-IsAbsolute, join_path-name}
use sqlc_gen_unison.Gogen.Files.{File}
use sqlc_gen_unison.Disk.{Disk, read, write_files}
use sqlc_gen_unison.Sqlc.{Process, version_of, run_sqlc, report_of}
use sqlc_gen_unison.Orchestrator.{engines, roster_of}
use sqlc_gen_unison.Host.{SqlcConfig, SqlcSqlConfig, Host}
use sqlc_gen_unison.Runner.{
  Runner, generate, compile, resolved, options_map, check_sqlc_version, compare_versions,
  normalize_version, rendered, out_of, run,
}
use sqlc_gen_unison.Runner.Rendering.{KeepsAbsolute, IsRendered, rendered-IsRendered}
use sqlc_gen_unison.Runner.Runs.{Started, Went, run-Went}
use sqlc_gen_unison.Runner.Ran.{Ran}
use sqlc_gen_unison.Runner.Staging.{run-removed, run-unchanged}
use sqlc_gen_unison.Runner.Filenames.{constant-IsName}
use sqlc_gen_unison.Runner.Liveness.{NeverFails, run-live}
use sqlc_gen_unison.Tests.Orchestrator.{accepted}
use sqlc_gen_unison.Tests.Plugin.{files, mysql_files}

abbrev pub staging : Text
staging = codes "/tmp/u"

abbrev pub place : Text
place = codes "/repo/store"

-- The engine of the first block.
abbrev pub engine_of : List (SqlcSqlConfig Text) → Text
engine_of [] = []
engine_of (block ∷ blocks) = block.engine

-- The files that the plugin gives, by what the configuration holds.
abbrev pub response : Option Text → List File
response none = []
response (some text) = if text_eq text (codes "mysql") then mysql_files else files

abbrev pub ended : Text → Process
ended stdout = record { stdout = stdout; stderr = []; failure = none }

abbrev pub sqlc : Disk → Text → Text → List Text → Process × Disk
sqlc disk binary dir (command ∷ flag ∷ path ∷ []) =
    (ended [], write_files place (response (read path disk)) disk)
sqlc disk binary dir _ = (ended (codes "v1.30.0"), disk)

abbrev pub host : Host Text
host = record {
  mkdir_all = λ path. none;
  mkdir_temp = ok staging;
  write_file = λ path. none;
  remove = λ path. none;
  eval_symlinks = λ path. some (clean path);
  marshal = λ config. ok (engine_of config.sql);
  encode = λ opts. ok (codes "{}");
  decode = λ text. ok text;
  exec = sqlc;
}

abbrev pub runner : Runner
runner = record { sqlc = codes "/bin/sqlc"; self = codes "/bin/unison" }

pub keeps : KeepsAbsolute host
keeps p q h e = subst IsAbsolute (ground arith) (clean-IsAbsolute p h)

pub encodes : options_map host accepted ≡ ok (codes "{}")
unfolding options_map
encodes = refl

staged_names : All IsName (codes "tmp" ∷ codes "u" ∷ [])
unfolding any
staged_names = (constant-IsName _ _ refl refl, (constant-IsName _ _ refl refl, tt))

placed_names : All IsName (codes "repo" ∷ codes "store" ∷ [])
unfolding any
placed_names = (constant-IsName _ _ refl refl, (constant-IsName _ _ refl refl, tt))

pub directory : IsDirectory staging
directory = (codes "tmp", codes "u" ∷ [], staged_names, unfold join in refl)

pub resolved-out : resolved host (out_of host accepted) ≡ place
unfolding resolved join_path clean elements_of print walk split step_into go_up join text_eq
resolved-out = refl

pub placed_out : IsDirectory place
placed_out = (codes "repo", codes "store" ∷ [], placed_names, unfold join in refl)

pub outside : (name : Text) → IsName name → is_below staging (join_path place name) ≡ false
unfolding is_below has_prefix text_eq
outside name n =
    subst (λ p. is_below staging p ≡ false) (sym (join_path-name place name placed_out n)) refl

-- The same of the directory with links resolved.
pub placed_at : IsDirectory (resolved host (out_of host accepted))
placed_at = subst IsDirectory (sym resolved-out) placed_out

pub outside_out :
    (name : Text)
    → IsName name
    → is_below staging (join_path (resolved host (out_of host accepted)) name) ≡ false
outside_out name n =
    subst (λ p. is_below staging (join_path p name) ≡ false) (sym resolved-out) (outside name n)

pub engine : (d : Text) → text_mem d (roster_of accepted) ≡ true → text_mem d engines ≡ true
unfolding text_mem any roster_of sort_by insert_by text_le
engine d h = ground arith

rendered-IsRendered_example :
    (config : SqlcConfig Text) × (rendered host runner accepted
        (codes "mysql")
        staging
        (out_of host accepted)
      ≡ ok config)
    × IsRendered host runner accepted (codes "mysql") staging config
rendered-IsRendered_example =
    rendered-IsRendered host keeps runner accepted (codes "mysql") staging (codes "{}") refl
      (IsDirectory-IsAbsolute staging directory) encodes

checked : check_sqlc_version host runner accepted [] ≡ (ok tt, [])
unfolding check_sqlc_version compare_versions normalize_version version_of run_sqlc report_of
    trim_prefix cut_prefix trim_space trim_left trim_right is_space text_eq
checked = refl

started : Started host runner accepted generate [] staging []
started = record { checked = checked; made = refl; staged = refl }

sqlc-succeeds :
    (disk : Disk) (binary dir : Text) (args : List Text)
    → (sqlc disk binary dir args).0.failure ≡ none
sqlc-succeeds disk binary dir [] = refl
sqlc-succeeds disk binary dir (a ∷ []) = refl
sqlc-succeeds disk binary dir (a ∷ b ∷ []) = refl
sqlc-succeeds disk binary dir (a ∷ b ∷ c ∷ []) = refl
sqlc-succeeds disk binary dir (a ∷ b ∷ c ∷ d ∷ e) = refl

never : NeverFails host runner accepted generate staging
never = record {
  keeps = keeps;
  rooted = refl;
  from_root = IsDirectory-IsAbsolute staging directory;
  fields = codes "{}";
  encodes = encodes;
  marshals = λ config. (engine_of config.sql, refl);
  writes = λ path. refl;
  succeeds = λ disk args. sqlc-succeeds disk (runner.sqlc) staging args;
}

run-live_example :
    ((run host runner accepted generate []).1 ≡ none)
    × Ran host runner accepted generate [] (run host runner accepted generate []).0
run-live_example = run-live host runner accepted generate staging [] [] started never

pub run-succeeds : (run host runner accepted generate []).1 ≡ none
run-succeeds = let (h, _) = run-live host runner accepted generate staging [] [] started never in h

run-Went_example : Went host runner accepted compile [] (run host runner accepted compile [])
run-Went_example = run-Went host runner accepted compile []

run-removed_example :
    read (codes "/tmp/u/sqlc-mysql.yaml") (run host runner accepted generate []).0.disk ≡ none
unfolding is_below has_prefix text_eq
run-removed_example =
    run-removed host runner accepted generate [] [] staging (codes "/tmp/u/sqlc-mysql.yaml") started
      refl refl

-- A host whose sqlc only checks.
abbrev quiet : Host Text
quiet = record host { exec = λ disk binary dir args. (ended (codes "v1.30.0"), disk) }

abbrev before : Disk
before = (codes "/repo/unison.yaml", codes "out: store") ∷ []

run-unchanged_example :
    read (codes "/repo/unison.yaml") (run quiet runner accepted compile before).0.disk
    ≡ read (codes "/repo/unison.yaml") before
unfolding is_below has_prefix text_eq
run-unchanged_example =
    run-unchanged quiet runner accepted compile (codes "/repo/unison.yaml") staging directory refl
      engine (λ disk binary dir args. refl) before refl
