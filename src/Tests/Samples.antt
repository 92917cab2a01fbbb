-- ===== src/Tests/Samples.antt =====
-- Concrete options and requests, for the tests.
use sqlc_gen_unison.Base.{true, false, List, [], ◌∷◌, Text, codes}
use sqlc_gen_unison.Options.{TypeOverride, Options, null_pointer}
use sqlc_gen_unison.Ir.{
  Kind, kind_string, kind_int64, FieldType, Field, command_many, Query, Arg, Package,
}
use sqlc_gen_unison.Converge.Analysis.{Column, Parameter, AnalyzedQuery, Request}
use sqlc_gen_unison.Converge.Prefix.{Catalog}

abbrev pub id_override : TypeOverride
id_override = record { column = codes "users.id"; go_type = codes "github.com/acme/ids.ID" }

abbrev pub given : Options
given = record {
  rename_params = [];
  package_name = codes "store";
  null_as = [];
  roster = codes "sqlite" ∷ codes "mysql" ∷ [];
  type_overrides = id_override ∷ [];
  table_prefix_var = true;
}

abbrev pub normal : Options
normal = record {
  rename_params = [];
  package_name = codes "store";
  null_as = null_pointer;
  roster = codes "mysql" ∷ codes "sqlite" ∷ [];
  type_overrides = id_override ∷ [];
  table_prefix_var = true;
}

abbrev pub name_column : Column
name_column = record {
  name = codes "name";
  table_name = codes "users";
  type_name = codes "TEXT";
  not_null = true;
  is_array = false;
  array_dims = 0;
  is_sqlc_slice = false;
}

abbrev pub id_column : Column
id_column = record name_column { name = codes "id"; type_name = codes "INTEGER" }

abbrev pub ids_column : Column
ids_column = record id_column { name = codes "ids"; is_sqlc_slice = true }

abbrev pub params : List Parameter
params =
    record { number = 1; column = name_column } ∷ record { number = 2; column = ids_column } ∷ []

abbrev pub sql : Text
sql = codes "SELECT name FROM users WHERE name = ? AND age IN (/*SLICE:ids*/?)"

abbrev pub list_users : AnalyzedQuery
list_users = record {
  name = codes "ListUsers";
  cmd = codes ":many";
  text = sql;
  params = params;
  columns = name_column ∷ [];
}

abbrev pub catalog : Catalog
catalog = record {
  default_schema = codes "main";
  schemas = record { name = codes "main"; tables = codes "users" ∷ [] } ∷ [];
}

abbrev pub request : Request
request = record {
  engine = codes "sqlite";
  sqlc_version = codes "v1.30.0";
  catalog = catalog;
  queries = list_users ∷ [];
}

abbrev pub scalar : Kind → FieldType
scalar kind = record { override = []; kind = kind; nullable = false; slice = false }

abbrev pub name_field : Field
name_field = record { name = codes "name"; type = scalar kind_string }

abbrev pub ids_field : Field
ids_field = record { name = codes "ids"; type = record (scalar kind_int64) { slice = true } }

abbrev pub args : List Arg
args =
    record { name = codes "name"; expand = []; placeholder = [] }
    ∷ record { name = codes "ids"; expand = codes "/*SLICE:ids*/?"; placeholder = codes "?" }
    ∷ []

abbrev pub marked_sql : Text
marked_sql = codes "SELECT name FROM {{prefix}}users WHERE name = ? AND age IN (/*SLICE:ids*/?)"

abbrev pub shared_query : Query
shared_query = record {
  name = codes "ListUsers";
  params = name_field ∷ ids_field ∷ [];
  columns = name_field ∷ [];
  command = command_many;
}

abbrev pub store : Package
store = record {
  name = codes "store";
  dialect = codes "sqlite";
  sqlc_version = codes "v1.30.0";
  unison_version = codes "dev";
  null_as = null_pointer;
  time_layout = codes "2006-01-02 15:04:05";
  roster = codes "mysql" ∷ codes "sqlite" ∷ [];
  queries = shared_query ∷ [];
  statements = record { name = codes "ListUsers"; sql = marked_sql; args = args } ∷ [];
  table_prefix = true;
}
