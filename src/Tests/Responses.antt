-- ===== src/Tests/Responses.antt =====
-- internal/cli/plugin.go on a whole exchange, with a codec of responses that can be read back.
use sqlc_gen_unison.Base.{
  none, ℕ, zero, suc, ◌≡◌, refl, sym, ap, ◌∙◌, ◌↔◌, Option, some, List, [], ◌∷◌, ◌++◌, append_assoc,
  arith, Text, codes, Result,
}
use sqlc_gen_unison.Strings.{has_prefix}
use sqlc_gen_unison.Gogen.Files.{File}
use sqlc_gen_unison.Plugin.{
  PluginRequest, PluginError, is_terminal, is_plugin_invocation, generate_files,
}
use sqlc_gen_unison.Cli.{Outcome, execute, exit_code}
use sqlc_gen_unison.Cli.Responses.{
  IsServed, IsProtocol, served, execute-IsServed, execute-IsProtocol,
}
use sqlc_gen_unison.Tests.Plugin.{decode, plugin_request}
use sqlc_gen_unison.Tests.Emission.{gofmt}
use sqlc_gen_unison.Tests.Cli.{machine, cobra, getenv, plugin_args, piped}

-- A text ends with a zero, and its bytes are one more.
encode_text : Text → Text
encode_text [] = 0 ∷ []
encode_text (c ∷ s) = suc c ∷ encode_text s

encode_files : List File → Text
unfolding encode_text
encode_files [] = []
encode_files (f ∷ fs) = encode_text f.name ++ encode_text f.contents ++ encode_files fs

abbrev put_byte : ℕ → List Text → List Text
put_byte c [] = []
put_byte c (t ∷ ts) = (c ∷ t) ∷ ts

decode_texts : Text → List Text
decode_texts [] = []
decode_texts (zero ∷ s) = [] ∷ decode_texts s
decode_texts (suc c ∷ s) = put_byte c (decode_texts s)

abbrev pair_up : List Text → List File
pair_up [] = []
pair_up (name ∷ []) = []
pair_up (name ∷ contents ∷ ts) = record { name = name; contents = contents } ∷ pair_up ts

decode_texts-encode_text :
    (s rest : Text) → decode_texts (encode_text s ++ rest) ≡ s ∷ decode_texts rest
unfolding decode_texts encode_text
decode_texts-encode_text [] rest = refl
decode_texts-encode_text (c ∷ s) rest = ap (put_byte c) (decode_texts-encode_text s rest)

decode_texts-encode_files : (fs : List File) → pair_up (decode_texts (encode_files fs)) ≡ fs
unfolding decode_texts encode_files
decode_texts-encode_files [] = refl
decode_texts-encode_files (f ∷ fs) =
    ap (λ s. pair_up (decode_texts s))
      (append_assoc (encode_text f.name) (encode_text f.contents) (encode_files fs))
    ∙ ap pair_up (decode_texts-encode_text f.name (encode_text f.contents ++ encode_files fs))
    ∙ ap (λ ts. pair_up (f.name ∷ ts)) (decode_texts-encode_text f.contents (encode_files fs))
    ∙ ap (λ gs. f ∷ gs) (decode_texts-encode_files fs)

abbrev marshal : List File → Option Text
marshal fs = some (encode_files fs)

abbrev unmarshal : Text → Option PluginRequest
unmarshal bytes = some plugin_request

abbrev decode_response : Text → Option (List File)
decode_response bytes = some (pair_up (decode_texts bytes))

inverse :
    (fs : List File) (bytes : Text) → marshal fs ≡ some bytes → decode_response bytes ≡ some fs
inverse fs bytes h =
    let e : encode_files fs ≡ bytes = ground arith in
    ap decode_response (sym e) ∙ ap some (decode_texts-encode_files fs)

abbrev gen : PluginRequest → Result PluginError (List File)
gen = generate_files decode gofmt (codes "dev")

abbrev takes : Text → Option Text
takes bytes = none

-- A stream that fails behind the first byte.
abbrev breaks : Text → Option Text
breaks [] = none
breaks (c ∷ s) = some (c ∷ [])

abbrev input : Option Text
input = some (codes "request")

abbrev answer : Outcome
answer =
    (execute machine getenv (served unmarshal marshal takes gen input getenv) cobra plugin_args
      piped []).0

execute-IsServed_example :
    ((exit_code answer.error ≡ 0)
      ↔ ((response : Text) × IsServed unmarshal marshal takes gen input getenv response))
    × (exit_code answer.error ≡ 0
        → (v : IsServed unmarshal marshal takes gen input getenv answer.stdout) × (decode_response
              answer.stdout
            ≡ some v.sent.files))
unfolding is_plugin_invocation is_terminal has_prefix
execute-IsServed_example =
    execute-IsServed unmarshal marshal takes gen input getenv machine cobra decode_response inverse
      plugin_args piped [] refl

execute-IsProtocol_example :
    IsProtocol unmarshal marshal breaks gen input getenv
      (execute machine getenv
        (served unmarshal marshal breaks gen input getenv)
        cobra
        plugin_args
        piped
        []).0
unfolding is_plugin_invocation is_terminal has_prefix
execute-IsProtocol_example =
    execute-IsProtocol unmarshal marshal breaks gen input getenv machine cobra plugin_args piped []
      refl
