-- ===== src/Converge/Analysis.antt =====
-- What internal/converge reads of the plugin protocol's messages, one field for each getter that it
-- calls: a message that is absent reads as the zero values. `ConvergeError` has a constructor for
-- each message of the package, over the values that the message shows.
use sqlc_gen_unison.Base.{ℕ, Bool, List, Text}
use sqlc_gen_unison.Ir.{Command}
use sqlc_gen_unison.Converge.Prefix.{Catalog}

pub record Column : Type 0 where
  pub name : Text
  pub table_name : Text
  pub type_name : Text
  pub not_null : Bool
  pub is_array : Bool
  pub array_dims : ℕ
  pub is_sqlc_slice : Bool

pub record Parameter : Type 0 where
  pub number : ℕ
  pub column : Column

pub record AnalyzedQuery : Type 0 where
  pub name : Text
  pub cmd : Text
  pub text : Text
  pub params : List Parameter
  pub columns : List Column

pub record Request : Type 0 where
  pub engine : Text
  pub sqlc_version : Text
  pub catalog : Catalog
  pub queries : List AnalyzedQuery

pub data ConvergeError : Type 0 where
  no_engine : ConvergeError
  not_in_roster : Text → List Text → ConvergeError
  no_queries : Text → ConvergeError
  in_query : Text → ConvergeError → ConvergeError
  in_param : Text → ConvergeError → ConvergeError
  unnamed_param : ℕ → ConvergeError
  many_dims : ℕ → ConvergeError
  nullable_list : Text → ConvergeError
  retyped_param : Text → Text → Text → ConvergeError
  rebound_list : Text → ConvergeError
  no_columns : Command → ConvergeError
  unnamed_column : ℕ → ConvergeError
  repeated_column : Text → ℕ → ℕ → ConvergeError
  postgres_only : Text → ConvergeError
  unknown_command : Text → ConvergeError
  unresolved_type : Text → Text → ConvergeError
  unmapped_type : Text → Text → Text → ConvergeError
  missing_site : Text → ℕ → ConvergeError
  list_not_last : Text → ℕ → ℕ → ConvergeError
