-- ===== src/Plugin.antt =====
-- internal/protocol, internal/generate and internal/cli: the life of a plugin process. The protobuf
-- codec, the JSON decoder and the formatter are parameters, `none` where they report an error, and
-- what stdout took is part of the result.
pub mod Errors
use sqlc_gen_unison.Base.{
  Bool, true, false, not, ◌||◌, Option, none, some, List, [], ◌∷◌, Text, codes, text_eq,
  if◌then◌else◌, Result, ok, err, ◌>>=◌, ◌>>◌, refuse, map_err,
}
use sqlc_gen_unison.Strings.{has_prefix, to_lower, trim_space}
use sqlc_gen_unison.Options.{Options, OptionsError, parse}
use sqlc_gen_unison.Converge.Analysis.{Request, ConvergeError}
use sqlc_gen_unison.Converge.Requests.{converge_package}
use sqlc_gen_unison.Gogen.Types.{EmitError}
use sqlc_gen_unison.Gogen.Files.{File, emit}

-- A request as it is read off the wire: whether it carries settings, the raw plugin options, and what
-- the core reads of it.
pub record PluginRequest : Type 0 where
  pub has_settings : Bool
  pub plugin_options : Text
  pub analysis : Request

pub data PluginError : Type 0 where
  no_settings unreadable undecodable unencodable unwritable : PluginError
  of_options : OptionsError → PluginError
  of_converge : ConvergeError → PluginError
  of_emit : EmitError → PluginError

module _ (decode : Text → Option Options) (format : Text → Option Text) (version : Text) where
  -- `Files` of internal/generate.
  unfoldable pub generate_files : PluginRequest → Result PluginError (List File)
  generate_files request = do
    refuse (not request.has_settings) no_settings
    opts ← map_err of_options (parse decode request.plugin_options)
    pkg ← map_err of_converge (converge_package request.analysis opts version)
    map_err of_emit (emit format pkg)

-- `isTerminal`: `none` for no file, `some none` where asking for its mode fails, and else whether it
-- is a character device.
unfoldable pub is_terminal : Option (Option Bool) → Bool
is_terminal (some (some is_device)) = is_device
is_terminal _ = false

-- `IsPluginInvocation`, over whether stdin is a terminal.
unfoldable pub is_plugin_invocation : List Text → Bool → Bool
is_plugin_invocation [] terminal = not terminal
is_plugin_invocation (arg ∷ args) terminal = has_prefix arg (codes "/")

-- `Serve` up to the bytes of the response: `stdin` is what reading it gives.
unfoldable pub respond :
    (Text → Option PluginRequest)
    → (List File → Option Text)
    → (PluginRequest → Result PluginError (List File))
    → Option Text
    → Result PluginError Text
respond unmarshal marshal gen none = err unreadable
respond unmarshal marshal gen (some bytes) = elim (unmarshal bytes) [
  | none ↦ err undecodable
  | some request ↦ do
    files ← gen request
    elim (marshal files) [ none ↦ err unencodable | some response ↦ ok response ]
]

-- `Serve`: what it has written to stdout, and its error. `write` gives `none` where stdout takes all bytes,
-- and else those that it took before it failed.
unfoldable pub serve :
    (Text → Option PluginRequest)
    → (List File → Option Text)
    → (Text → Option Text)
    → (PluginRequest → Result PluginError (List File))
    → Option Text
    → Text × Option PluginError
unfolding respond
serve unmarshal marshal write gen stdin = elim (respond unmarshal marshal gen stdin) [
  | err e ↦ ([], some e)
  | ok response ↦ elim (write response) [
    | none ↦ (response, none)
    | some part ↦ (part, some unwritable)
  ]
]

pub data Level : Type 0 where
  debug info warning error : Level

-- `parseLevel`: the error holds the name as it was given.
unfoldable pub parse_level : Text → Result Text Level
parse_level name =
    let spelled = to_lower (trim_space name) in
    if text_eq spelled (codes "debug")
    then ok debug
    else if text_eq spelled [] || text_eq spelled (codes "info")
    then ok info
    else if text_eq spelled (codes "warn") || text_eq spelled (codes "warning")
    then ok warning
    else if text_eq spelled (codes "error")
    then ok error
    else err name
