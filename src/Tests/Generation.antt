-- ===== src/Tests/Generation.antt =====
-- `unison generate` on the project of the runs, from the arguments to the files.
use sqlc_gen_unison.Base.{refl, sym, ◌∙◌, [], codes, All}
use sqlc_gen_unison.Orchestrator.{roster_of}
use sqlc_gen_unison.Cli.{execute}
use sqlc_gen_unison.Cli.Commands.{IsOrchestrated}
use sqlc_gen_unison.Cli.Generation.{IsStaged, placed, execute-Written}
use sqlc_gen_unison.Runner.Output.{Converge}
use sqlc_gen_unison.Runner.Written.{Written}
use sqlc_gen_unison.Tests.Orchestrator.{accepted}
use sqlc_gen_unison.Tests.Plugin.{decode}
use sqlc_gen_unison.Tests.Emission.{gofmt}
use sqlc_gen_unison.Tests.Runner.{
  host, runner, staging, keeps, encodes, directory, outside_out, placed_at,
}
use sqlc_gen_unison.Tests.Written.{request, shared_with, behaves}
use sqlc_gen_unison.Tests.Cli.{
  machine, config_file, loaded, rooted, person, exits, getenv, refused_serve, cobra, generate_args,
  attended,
}

orchestrated : IsOrchestrated machine config_file runner accepted
orchestrated = record { loaded = loaded; sqlc = refl; self = refl }

staged : IsStaged host accepted staging
staged = record {
  made = refl;
  keeps = keeps;
  directory = directory;
  fields = codes "{}";
  encodes = encodes;
  place = placed_at;
  outside = outside_out;
}

converges : Converge host runner accepted staging decode gofmt (codes "dev") (λ text. text) request
converges d d' config other _ _ _ _ = shared_with _ ∙ sym (shared_with _)

execute-Written_example :
    All
      (Written host runner accepted staging decode gofmt
        (codes "dev")
        (λ text. text)
        request
        behaves
        (placed machine config_file runner accepted orchestrated rooted staging staged decode gofmt
          (codes "dev")
          (λ text. text)
          request)
        converges
        (execute machine getenv refused_serve cobra generate_args attended []).1.disk)
      (roster_of accepted)
execute-Written_example =
    execute-Written machine config_file runner accepted orchestrated rooted staging staged decode
      gofmt (codes "dev") (λ text. text) request behaves converges getenv refused_serve cobra
      generate_args attended [] (codes "info") person refl exits
