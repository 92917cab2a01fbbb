-- ===== src/Cli/Responses.antt =====
-- internal/cli/plugin.go with internal/protocol: what a plugin's process answers, from the bytes of the
-- request to those of the response.
use sqlc_gen_unison.Base.{
  ◌≡◌, ◌≢◌, refl, sym, ap, subst, ◌∙◌, ◌↔◌, ◌⊎◌, inl, inr, Bool, true, Option, none, some, List, [],
  ◌∷◌, Text, arith, Option-cases, Result, ok, err, ok_unique, Result-cases,
}
use sqlc_gen_unison.Gogen.Files.{File}
use sqlc_gen_unison.Plugin.{
  PluginRequest, PluginError, unwritable, Level, is_terminal, is_plugin_invocation, respond, serve,
  parse_level,
}
use sqlc_gen_unison.Disk.{Disk}
use sqlc_gen_unison.Runner.{State, log_level_env_var}
use sqlc_gen_unison.Cli.{
  CliError, bad_level, of_plugin, Outcome, Invocation, Machine, of_served, answer_of, serve_plugin,
  run_plugin, execute, exit_code,
}
use sqlc_gen_unison.Cli.Modes.{execute-run_plugin}

none-ne-some : {A : Type 0} {a : A} → ◌≡◌ {A = Option A} none (some a) → ⊥
none-ne-some h = cc

ok-ne-err : {E A : Type 0} {a : A} {e : E} → ◌≡◌ {A = Result E A} (ok a) (err e) → ⊥
ok-ne-err h = cc

module _ (unmarshal : Text → Option PluginRequest) (marshal : List File → Option Text)
    (write : Text → Option Text) (gen : PluginRequest → Result PluginError (List File))
    (input : Option Text) (getenv : Text → Text) where
  -- Each step before the write succeeds, and `response` is the result.
  pub record IsEncoded (response : Text) : Type 0 where
    pub level : Level
    pub bytes : Text
    pub request : PluginRequest
    pub files : List File
    pub leveled : parse_level (getenv log_level_env_var) ≡ ok level
    pub was_read : input ≡ some bytes
    pub decoded : unmarshal bytes ≡ some request
    pub generated : gen request ≡ ok files
    pub encoded : marshal files ≡ some response

  -- The response is written in full.
  pub record IsServed (response : Text) : Type 0 where
    pub sent : IsEncoded response
    pub written : write response ≡ none

  abbrev responded : Result PluginError Text
  responded = respond unmarshal marshal gen input

  abbrev pub served : Text × Option PluginError
  served = serve unmarshal marshal write gen input

  respond-IsEncoded :
      (level : Level) (response : Text)
      → parse_level (getenv log_level_env_var) ≡ ok level
      → responded ≡ ok response
      → IsEncoded response
  unfolding respond
  respond-IsEncoded level response l h = elim (Option-cases input) [
    | inl e ↦ ground arith
    | inr (bytes, e) ↦ elim (Option-cases (unmarshal bytes)) [
      | inl f ↦ ground arith
      | inr (request, f) ↦ elim (Result-cases (gen request)) [
        | inr (x, g) ↦ ground arith
        | inl (files, g) ↦ elim (Option-cases (marshal files)) [
          | inl k ↦ ground arith
          | inr (bytes', k) ↦
              let same : bytes' ≡ response = ground arith in
              record {
                level = level;
                bytes = bytes;
                request = request;
                files = files;
                leveled = l;
                was_read = e;
                decoded = f;
                generated = g;
                encoded = k ∙ ap some same;
              }
        ]
      ]
    ]
  ]

  IsEncoded-respond : (response : Text) → IsEncoded response → responded ≡ ok response
  unfolding respond
  IsEncoded-respond response v = rw (respond, v.was_read, v.decoded, v.generated, v.encoded) refl

  -- What a process leaves: the response; the part of it that stdout took; or nothing on stdout, where no
  -- response was made.
  data Leaves : Outcome → Type 0 where
    whole : (response : Text) → IsServed response → Leaves (answer_of (response, none))
    part :
        (response taken : Text)
        → IsEncoded response
        → write response ≡ some taken
        → Leaves (answer_of (taken, some (of_plugin unwritable)))
    nothing :
        (e : CliError)
        → ((response : Text) → IsEncoded response → ⊥)
        → Leaves (answer_of ([], some e))

  served-Leaves :
      (level : Level)
      → parse_level (getenv log_level_env_var) ≡ ok level
      → Leaves (answer_of (of_served served))
  unfolding serve
  served-Leaves level l = elim (Result-cases responded) [
    | inr (e, h) ↦
        let q : served ≡ ([], some e) = rw (serve, h) refl in
        subst (λ s. Leaves (answer_of (of_served s))) (sym q)
          (nothing (of_plugin e) (λ response v. ok-ne-err (sym (IsEncoded-respond response v) ∙ h)))
    | inl (response, h) ↦
        let v = respond-IsEncoded level response l h in
        elim (Option-cases (write response)) [
          | inl k ↦
              let q : served ≡ (response, none) = rw (serve, h, k) refl in
              subst (λ s. Leaves (answer_of (of_served s))) (sym q)
                (whole response (record { sent = v; written = k }))
          | inr (taken, k) ↦
              let q : served ≡ (taken, some unwritable) = rw (serve, h, k) refl in
              subst (λ s. Leaves (answer_of (of_served s))) (sym q) (part response taken v k)
        ]
  ]

  run_plugin-Leaves : Leaves (run_plugin getenv served)
  unfolding run_plugin serve_plugin
  run_plugin-Leaves = elim (Result-cases (parse_level (getenv log_level_env_var))) [
    | inr (name, l) ↦
        let q : serve_plugin getenv served ≡ ([], some (bad_level name)) =
          rw (serve_plugin, l) refl in
        subst (λ s. Leaves (answer_of s)) (sym q)
          (nothing (bad_level name) (λ response v. ok-ne-err (sym v.leveled ∙ l)))
    | inl (level, l) ↦
        let q : serve_plugin getenv served ≡ of_served served = rw (serve_plugin, l) refl in
        subst (λ s. Leaves (answer_of s)) (sym q) (served-Leaves level l)
  ]

  -- What an outcome says of the exchange, with the inverse of the encoder.
  abbrev Tells : (Text → Option (List File)) → Outcome → Type 0
  Tells decode_response o =
      ((exit_code o.error ≡ 0) ↔ ((response : Text) × IsServed response))
      × (exit_code o.error ≡ 0
          → (v : IsServed o.stdout) × (decode_response o.stdout ≡ some v.sent.files))

  Leaves-Tells :
      (decode_response : Text → Option (List File))
      → ((fs : List File) (bytes : Text)
          → marshal fs ≡ some bytes
          → decode_response bytes ≡ some fs)
      → (o : Outcome) → Leaves o
      → Tells decode_response o
  unfolding exit_code
  Leaves-Tells decode_response inverse _ (whole response v) = (
    ((λ _. (response, v)), (λ _. refl)),
    (λ _. (v, inverse v.sent.files response v.sent.encoded)),
  )
  Leaves-Tells decode_response inverse _ (part response taken v k) = (
    (
      (λ z. ground arith),
      (λ (other, w).
          let same : response ≡ other =
            ok_unique (IsEncoded-respond response v) (IsEncoded-respond other w.sent) in
          absurd (none-ne-some (sym w.written ∙ ap write (sym same) ∙ k))),
    ),
    (λ z. ground arith),
  )
  Leaves-Tells decode_response inverse _ (nothing e never) = (
    ((λ z. ground arith), (λ (response, v). absurd (never response v.sent))),
    (λ z. ground arith),
  )

  -- Stdout has bytes of a response only.
  abbrev pub IsProtocol : Outcome → Type 0
  IsProtocol o =
      (o.stdout ≢ []
        → (response : Text) × IsEncoded response
          × ((write response ≡ none) × (o.stdout ≡ response) ⊎ (write response ≡ some o.stdout)))
      × (exit_code o.error ≢ 0 → (e : CliError) × (o.error ≡ some e) × (o.reported ≡ e ∷ []))

  Leaves-IsProtocol : (o : Outcome) → Leaves o → IsProtocol o
  unfolding exit_code
  Leaves-IsProtocol _ (whole response v) =
      ((λ _. (response, v.sent, inl (v.written, refl))), (λ z. absurd (z refl)))
  Leaves-IsProtocol _ (part response taken v k) =
      ((λ _. (response, v, inr k)), (λ _. (of_plugin unwritable, refl, refl)))
  Leaves-IsProtocol _ (nothing e never) = ((λ z. absurd (z refl)), (λ _. (e, refl, refl)))

  module _ {Fields : Type 0} (machine : Machine Fields)
      (cobra : List Text → Result Text Invocation) where
    -- Called as a plugin, the process exits with zero exactly when the level is known, the request can
    -- be read and decoded, its files are generated, and the response can be encoded and written: and
    -- then stdout holds that response, so that what decodes responses finds the files of the request.
    pub execute-IsServed :
        (decode_response : Text → Option (List File))
        → ((fs : List File) (bytes : Text)
            → marshal fs ≡ some bytes
            → decode_response bytes ≡ some fs)
        → (args : List Text) (stdin : Option (Option Bool)) (disk : Disk)
        → is_plugin_invocation args (is_terminal stdin) ≡ true
        → let (o, _) = execute machine getenv served cobra args stdin disk in
          ((exit_code o.error ≡ 0) ↔ ((response : Text) × IsServed response))
          × (exit_code o.error ≡ 0
              → (v : IsServed o.stdout) × (decode_response o.stdout ≡ some v.sent.files))
    execute-IsServed decode_response inverse args stdin disk h =
        subst (λ (r : Outcome × State). Tells decode_response r.0)
          (sym (execute-run_plugin machine getenv served cobra args stdin disk h))
          (Leaves-Tells decode_response inverse _ run_plugin-Leaves)

    -- Called as a plugin, the process leaves bytes on stdout only where the level is known, the request was
    -- read and decoded, its files were generated and the response was encoded: all of that response, or the
    -- part that stdout took before it failed. Where it exits with another code than zero, it has reported
    -- its error once and nothing else.
    pub execute-IsProtocol :
        (args : List Text) (stdin : Option (Option Bool)) (disk : Disk)
        → is_plugin_invocation args (is_terminal stdin) ≡ true
        → IsProtocol (execute machine getenv served cobra args stdin disk).0
    execute-IsProtocol args stdin disk h =
        subst (λ (r : Outcome × State). IsProtocol r.0)
          (sym (execute-run_plugin machine getenv served cobra args stdin disk h))
          (Leaves-IsProtocol _ run_plugin-Leaves)
