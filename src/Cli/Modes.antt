-- ===== src/Cli/Modes.antt =====
-- internal/cli, `Execute`: the mode of a plugin.
use sqlc_gen_unison.Base.{◌≡◌, refl, Bool, true, Option, List, [], Text, Result}
use sqlc_gen_unison.Plugin.{PluginError, is_terminal, is_plugin_invocation}
use sqlc_gen_unison.Disk.{Disk}
use sqlc_gen_unison.Cli.{Invocation, Machine, run_plugin, execute}

module _ {Fields : Type 0} (machine : Machine Fields) (getenv : Text → Text)
    (serve : Text × Option PluginError) (cobra : List Text → Result Text Invocation) where
  pub execute-run_plugin :
      (args : List Text) (stdin : Option (Option Bool)) (disk : Disk)
      → is_plugin_invocation args (is_terminal stdin) ≡ true
      → execute machine getenv serve cobra args stdin disk
        ≡ (run_plugin getenv serve, record { disk = disk; log = [] })
  unfolding execute
  execute-run_plugin args stdin disk h = rw (execute, h) refl
