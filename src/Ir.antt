-- ===== src/Ir.antt =====
-- internal/ir/ir.go: the shapes that the core hands to an emitter. `Type` of the source is
-- `FieldType` here, and a string that may be empty stays a text.
use sqlc_gen_unison.Base.{Bool, true, false, List, Text, codes}

pub data Kind : Type 0 where
  kind_invalid kind_string kind_int64 kind_float64 kind_bool kind_time kind_bytes : Kind

-- `Kind.String`
unfoldable pub kind_name : Kind → Text
kind_name kind_string = codes "string"
kind_name kind_int64 = codes "int64"
kind_name kind_float64 = codes "float64"
kind_name kind_bool = codes "bool"
kind_name kind_time = codes "time"
kind_name kind_bytes = codes "bytes"
kind_name kind_invalid = codes "invalid"

pub record FieldType : Type 0 where
  pub override : Text
  pub kind : Kind
  pub nullable : Bool
  pub slice : Bool

pub record Field : Type 0 where
  pub name : Text
  pub type : FieldType

pub data Command : Type 0 where
  command_invalid command_exec command_one command_many command_exec_rows command_exec_result :
      Command

-- `Command.String`
unfoldable pub command_name : Command → Text
command_name command_exec = codes ":exec"
command_name command_one = codes ":one"
command_name command_many = codes ":many"
command_name command_exec_rows = codes ":execrows"
command_name command_exec_result = codes ":execresult"
command_name command_invalid = codes ":invalid"

unfoldable pub returns_rows : Command → Bool
returns_rows command_one = true
returns_rows command_many = true
returns_rows _ = false

pub record Query : Type 0 where
  pub name : Text
  pub params : List Field
  pub columns : List Field
  pub command : Command

-- One placeholder's binding. An empty `expand` is a plain placeholder.
pub record Arg : Type 0 where
  pub name : Text
  pub expand : Text
  pub placeholder : Text

pub record Statement : Type 0 where
  pub name : Text
  pub sql : Text
  pub args : List Arg

pub record Package : Type 0 where
  pub name : Text
  pub dialect : Text
  pub sqlc_version : Text
  pub unison_version : Text
  pub null_as : Text
  pub time_layout : Text
  pub roster : List Text
  pub queries : List Query
  pub statements : List Statement
  pub table_prefix : Bool

abbrev pub prefix_marker : Text
prefix_marker = codes "{{prefix}}"
