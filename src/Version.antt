-- ===== src/Version.antt =====
-- version/version.go: the version that a binary reports. The build information is a parameter: the
-- keys of its settings and the version of its main module.
pub mod Checkout
use sqlc_gen_unison.Base.{
  Bool, true, false, ◌&&◌, ◌||◌, not, Option, none, some, List, [], ◌∷◌, ◌++◌, Text, codes, text_eq,
  any, if◌then◌else◌,
}
use sqlc_gen_unison.Strings.{has_prefix}

abbrev pub development : Text
development = codes "dev"

abbrev pub devel : Text
devel = codes "(devel)"

abbrev pub vcs_setting : Text
vcs_setting = codes "vcs"

pub record BuildInfo : Type 0 where
  pub settings : List Text
  pub main_version : Text

unfoldable pub is_module_version : Text → Bool
unfolding has_prefix
is_module_version version = not (text_eq version devel) && has_prefix version (codes "v")

unfoldable pub resolve : Text → Text → Text
unfolding is_module_version
resolve stamped version =
    if not (text_eq stamped development)
    then stamped
    else if is_module_version version
    then version
    else development

abbrev pub is_vcs : Text → Bool
is_vcs key = text_eq key vcs_setting || has_prefix key (vcs_setting ++ codes ".")

unfoldable pub recorded_version : BuildInfo → Text
unfolding any
recorded_version info = if any is_vcs info.settings then [] else info.main_version

-- `moduleVersion`, over what the runtime reads.
unfoldable pub module_version : Option BuildInfo → Text
unfolding recorded_version
module_version none = []
module_version (some info) = recorded_version info
