-- ===== src/Host.antt =====
-- internal/orchestrator/run.go: the configuration of sqlc that is written, and what the outside answers:
-- the operating system, the codecs and the processes.
use sqlc_gen_unison.Base.{Option, List, Text, Result}
use sqlc_gen_unison.Options.{Options}
use sqlc_gen_unison.Disk.{Disk}
use sqlc_gen_unison.Sqlc.{Process}

pub record SqlcProcess : Type 0 where
  pub cmd : Text

pub record SqlcPlugin : Type 0 where
  pub name : Text
  pub process : SqlcProcess
  pub env : List Text

-- A `Fields` is the decoded object of the options.
pub record SqlcCodegen (Fields : Type 0) : Type 0 where
  pub options : Fields
  pub plugin : Text
  pub out : Text

pub record SqlcSqlConfig (Fields : Type 0) : Type 0 where
  pub engine : Text
  pub schema : Text
  pub queries : Text
  pub codegen : List (SqlcCodegen Fields)

pub record SqlcConfig (Fields : Type 0) : Type 0 where
  pub version : Text
  pub plugins : List SqlcPlugin
  pub sql : List (SqlcSqlConfig Fields)

-- The answers of the outside: an error's cause where there is one. `marshal` is YAML's, `encode` and
-- `decode` are JSON's.
pub record Host (Fields : Type 0) : Type 0 where
  pub mkdir_all : Text → Option Text
  pub mkdir_temp : Result Text Text
  pub write_file : Text → Option Text
  pub remove : Text → Option Text
  pub eval_symlinks : Text → Option Text
  pub marshal : SqlcConfig Fields → Result Text Text
  pub encode : Options → Result Text Text
  pub decode : Text → Result Text Fields
  pub exec : Disk → Text → Text → List Text → Process × Disk
