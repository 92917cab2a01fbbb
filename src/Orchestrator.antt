-- ===== src/Orchestrator.antt =====
-- internal/orchestrator/config.go: the configuration that a consumer writes. A Go map is a list of its
-- entries; where the source ranges over one the list's order is taken. Reading the file, decoding its
-- YAML and making its path absolute are parameters of `load`.
pub mod Validation
pub mod Loading
use sqlc_gen_unison.Base.{
  Bool, true, false, not, ◌&&◌, Option, none, some, List, [], ◌∷◌, map, Text, codes, text_eq,
  text_mem, if◌then◌else◌, ◌==◌, length, Result, ok, err, ◌>>=◌, ◌>>◌, refuse, map_err,
}
use sqlc_gen_unison.Base.Order.{text_le, sort_by}
use sqlc_gen_unison.Strings.{trim_space}
use sqlc_gen_unison.Paths.{dir_name}
use sqlc_gen_unison.Options.{Options, OptionsError, normalize, map_get}

pub record Config : Type 0 where
  pub schemas : List (Text × Text)
  pub queries : List (Text × Text)
  pub sqlc_version : Text
  pub package_name : Text
  pub out : Text
  pub dir : Text
  pub options : Options

abbrev pub engines : List Text
engines = codes "mysql" ∷ codes "postgresql" ∷ codes "sqlite" ∷ []

pub data ConfigError : Type 0 where
  package_missing out_missing schemas_missing : ConfigError
  unknown_engine schema_without_queries queries_without_schema : Text → ConfigError
  bad_options : OptionsError → ConfigError

abbrev pub keys : List (Text × Text) → List Text
keys = map (λ e. e.0)

unfoldable pub roster_of : Config → List Text
roster_of c = sort_by text_le (keys c.schemas)

-- The first loop of `validate`.
unfoldable pub check_schemas : Config → List Text → Result ConfigError (Unit {0})
check_schemas c [] = ok tt
check_schemas c (dialect ∷ dialects) = do
  refuse (not (text_mem dialect engines)) (unknown_engine dialect)
  elim (map_get dialect c.queries) [
    | none ↦ err (schema_without_queries dialect)
    | some _ ↦ check_schemas c dialects
  ]

-- The second loop.
unfoldable pub check_queries : Config → List Text → Result ConfigError (Unit {0})
check_queries c [] = ok tt
check_queries c (dialect ∷ dialects) = elim (map_get dialect c.schemas) [
  | none ↦ err (queries_without_schema dialect)
  | some _ ↦ check_queries c dialects
]

unfoldable pub validate : Config → Result ConfigError Config
validate c = do
  refuse (text_eq (trim_space c.package_name) []) package_missing
  refuse (text_eq (trim_space c.out) []) out_missing
  refuse (length c.schemas == 0) schemas_missing
  check_schemas c (roster_of c)
  check_queries c (keys c.queries)
  opts ←
      map_err bad_options
        (normalize (record (c.options) { package_name = c.package_name; roster = roster_of c }))
  ok (record c { options = opts })

unfoldable pub plugin_options : Config → Options
plugin_options c = c.options

pub data LoadError : Type 0 where
  reading decoding resolving : Text → Text → LoadError
  invalid : Text → ConfigError → LoadError

-- `Load`: each parameter gives its result or the cause of its error.
unfoldable pub load :
    (Text → Result Text Text)
    → (Text → Result Text Config)
    → (Text → Result Text Text)
    → Text
    → Result LoadError Config
load read_file decode abs path = do
  contents ← map_err (reading path) (read_file path)
  cfg ← map_err (decoding path) (decode contents)
  absolute ← map_err (resolving path) (abs path)
  map_err (invalid path) (validate (record cfg { dir = dir_name absolute }))
