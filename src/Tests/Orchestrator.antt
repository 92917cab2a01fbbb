-- ===== src/Tests/Orchestrator.antt =====
-- internal/orchestrator and version on concrete values.
use sqlc_gen_unison.Base.{
  Text, ◌≡◌, ◌≢◌, refl, true, false, some, [], ◌∷◌, codes, text_eq, text_mem, any, ok, err,
}
use sqlc_gen_unison.Base.Order.{text_le, sort_by, insert_by}
use sqlc_gen_unison.Strings.{trim_space, trim_left, trim_right, is_space}
use sqlc_gen_unison.Options.{compact, null_style, check_overrides, normalize, map_get}
use sqlc_gen_unison.Orchestrator.{
  Config, unknown_engine, roster_of, check_schemas, check_queries, validate,
}
use sqlc_gen_unison.Version.{development, is_vcs, BuildInfo, resolve, module_version}
use sqlc_gen_unison.Version.Checkout.{resolve-module_version}
use sqlc_gen_unison.Tests.Samples.{given, normal}

abbrev pub config : Config
config = record {
  schemas = (codes "sqlite", codes "lite.sql") ∷ (codes "mysql", codes "my.sql") ∷ [];
  queries = (codes "mysql", codes "my/") ∷ (codes "sqlite", codes "lite/") ∷ [];
  sqlc_version = codes "v1.30.0";
  package_name = codes "store";
  out = codes "store";
  dir = codes "/repo";
  options = given;
}

abbrev pub accepted : Config
accepted = record config { options = normal }

pub validate-config : validate config ≡ ok accepted
unfolding validate check_schemas check_queries roster_of normalize compact null_style
    check_overrides map_get trim_space trim_left trim_right is_space text_eq text_mem any sort_by
    insert_by text_le
validate-config = refl

validate-unknown :
    validate (record config { schemas = (codes "oracle", codes "o.sql") ∷ [] })
    ≡ err (unknown_engine (codes "oracle"))
unfolding validate check_schemas check_queries roster_of normalize compact null_style
    check_overrides map_get trim_space trim_left trim_right is_space text_eq text_mem any sort_by
    insert_by text_le
validate-unknown = refl

abbrev checkout : BuildInfo
checkout = record { settings = codes "vcs.revision" ∷ []; main_version = codes "v0.1.1-0.2026-abc" }

resolve-module_version_example :
    (any is_vcs checkout.settings ≡ true
      → resolve development (module_version (some checkout)) ≡ development)
    × (resolve development (module_version (some checkout)) ≢ development
        → (any is_vcs checkout.settings ≡ false)
          × (development ≡ development)
          × (resolve development (module_version (some checkout)) ≡ checkout.main_version)
          × ((rest : Text) × (checkout.main_version ≡ b'v' ∷ rest)))
resolve-module_version_example = resolve-module_version development checkout
