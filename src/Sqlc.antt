-- ===== src/Sqlc.antt =====
-- internal/sqlcdriver: the one place that runs sqlc. Running a process is a parameter, which may
-- change the disk.
use sqlc_gen_unison.Base.{Option, none, some, List, [], ◌∷◌, ◌++◌, Text, codes, Result, ok, err}
use sqlc_gen_unison.Strings.{trim_space}
use sqlc_gen_unison.Disk.{Disk}

-- What a process that has ended leaves.
pub record Process : Type 0 where
  pub stdout : Text
  pub stderr : Text
  pub failure : Option Text

-- `sqlc <args>: <cause>: <output>`
pub record SqlcError : Type 0 where
  pub args : List Text
  pub cause : Text
  pub output : Text

-- `Run` gives the output beside the error.
pub record Report : Type 0 where
  pub output : Text
  pub failure : Option SqlcError

unfoldable pub report_of : List Text → Process → Report
unfolding trim_space
report_of args process =
    let output = trim_space (process.stdout ++ process.stderr) in
    elim process.failure [
      | none ↦ record { output = output; failure = none }
      | some cause ↦ record {
        output = output;
        failure = some (record { args = args; cause = cause; output = output });
      }
    ]

module _ (exec : Disk → Text → Text → List Text → Process × Disk) where
  unfoldable pub run_sqlc : Text → Text → List Text → Disk → Report × Disk
  unfolding report_of
  run_sqlc binary dir args disk =
      let (process, later) = exec disk binary dir args in (report_of args process, later)

  unfoldable pub version_of : Text → Disk → Result SqlcError Text × Disk
  unfolding run_sqlc trim_space
  version_of binary disk =
      let (report, later) = run_sqlc binary [] (codes "version" ∷ []) disk in
      (elim report.failure [ some e ↦ err e | none ↦ ok (trim_space report.output) ], later)

-- `PinnedVersion`, of the file that is embedded.
unfoldable pub pinned_version : Text → Text
unfolding trim_space
pinned_version file = trim_space file
