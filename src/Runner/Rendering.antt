-- ===== src/Runner/Rendering.antt =====
-- internal/orchestrator/run.go, `renderConfig` and `relativeTo`: what a rendered configuration names.
use sqlc_gen_unison.Base.{
  ◌≡◌, refl, sym, ◌∙◌, ap, ap₂, subst, inl, inr, true, some, [], ◌∷◌, codes, ok, Option-cases, Text,
  Result-cases, arith,
}
use sqlc_gen_unison.Paths.{is_rooted, join_path, rel}
use sqlc_gen_unison.Paths.Relative.{rel-join_path}
use sqlc_gen_unison.Paths.Clean.{IsAbsolute, join_path-IsAbsolute}
use sqlc_gen_unison.Orchestrator.{Config}
use sqlc_gen_unison.Disk.{Disk, write}
use sqlc_gen_unison.Host.{SqlcSqlConfig, SqlcCodegen, SqlcConfig, Host}
use sqlc_gen_unison.Runner.{
  Runner, plugin_name, log_level_env_var, path_for, resolved, relative_to, options_map, rendered,
  render_config, config_path, out_of,
}

pub absolute-is_rooted : (s : Text) → IsAbsolute s → is_rooted s ≡ true
absolute-is_rooted s (names, h, e) = rw e refl

module _ {Fields : Type 0} (host : Host Fields) where
  -- `filepath.EvalSymlinks` gives clean paths, and those of a path from the root are from the root.
  abbrev pub KeepsAbsolute : Type 0
  KeepsAbsolute = (p q : Text) → is_rooted p ≡ true → host.eval_symlinks p ≡ some q → IsAbsolute q

  module _ (keeps : KeepsAbsolute) where
    pub resolved-IsAbsolute : (p : Text) → IsAbsolute p → IsAbsolute (resolved host p)
    unfolding resolved
    resolved-IsAbsolute p h = elim (Option-cases (host.eval_symlinks p)) [
      | inl e ↦ let same : p ≡ resolved host p = rw (resolved, e) refl in subst IsAbsolute same h
      | inr (q, e) ↦
          let same : q ≡ resolved host p = rw (resolved, e) refl in
          subst IsAbsolute same (keeps p q (absolute-is_rooted p h) e)
    ]

    relative_to-rel :
        (base target r : Text)
        → rel (resolved host base) (resolved host target) ≡ some r
        → relative_to host base target ≡ ok r
    unfolding relative_to
    relative_to-rel base target r h = rw (relative_to, h) refl

    relative_to_eq :
        (base target : Text)
        → IsAbsolute base
        → IsAbsolute target
        → (r : Text) × (relative_to host base target ≡ ok r)
          × (join_path (resolved host base) r ≡ resolved host target)
    relative_to_eq base target hb ht =
        let (bs, nb, eb) = resolved-IsAbsolute base hb in
        let (ts, nt, et) = resolved-IsAbsolute target ht in
        let (r, found, joined) = rel-join_path bs ts nb nt in
        (
          r,
          relative_to-rel base target r (ap₂ rel eb et ∙ found),
          ap (λ b. join_path b r) eb ∙ joined ∙ sym et,
        )

  -- The one configuration that a dialect's run of sqlc is given.
  pub record IsRendered (runner : Runner) (c : Config) (dialect staging : Text)
      (config : SqlcConfig Fields) : Type 0 where
    pub block : SqlcSqlConfig Fields
    pub code : SqlcCodegen Fields
    pub blocks : config.sql ≡ block ∷ []
    pub codegens : block.codegen ≡ code ∷ []
    pub plugins :
        config.plugins
        ≡ record {
          name = code.plugin;
          process = record { cmd = runner.self };
          env = log_level_env_var ∷ [];
        }
          ∷ []
    pub engine : block.engine ≡ dialect
    pub schema :
        join_path (resolved host staging) block.schema
        ≡ resolved host (join_path c.dir (path_for dialect c.schemas))
    pub queries :
        join_path (resolved host staging) block.queries
        ≡ resolved host (join_path c.dir (path_for dialect c.queries))
    pub out : join_path (resolved host staging) code.out ≡ resolved host (out_of host c)
    pub options : options_map host c ≡ ok code.options

  -- What `renderConfig` writes, of the relative paths and the decoded options.
  abbrev config_of : Runner → Text → Text → Text → Text → Fields → SqlcConfig Fields
  config_of runner dialect schema queries out fields = record {
    version = codes "2";
    plugins =
        record {
          name = plugin_name;
          process = record { cmd = runner.self };
          env = log_level_env_var ∷ [];
        }
        ∷ [];
    sql =
        record {
          engine = dialect;
          schema = schema;
          queries = queries;
          codegen = record { options = fields; plugin = plugin_name; out = out } ∷ [];
        }
        ∷ [];
  }

  rendered_ok :
      (runner : Runner) (c : Config) (dialect staging root schema queries out : Text)
      (fields : Fields)
      → relative_to host staging (join_path c.dir (path_for dialect c.schemas)) ≡ ok schema
      → relative_to host staging (join_path c.dir (path_for dialect c.queries)) ≡ ok queries
      → relative_to host staging root ≡ ok out
      → options_map host c ≡ ok fields
      → rendered host runner c dialect staging root
        ≡ ok (config_of runner dialect schema queries out fields)
  unfolding rendered
  rendered_ok runner c dialect staging root schema queries out fields a b d e = rw (a, b, d, e) refl

  -- Where the options can be encoded, the paths of the configuration's and of the staging directory are
  -- from the root, and links keep paths so, the configuration of every dialect is rendered: it names this
  -- binary as its one plugin, with the variable of the log level, the dialect as its one engine, the
  -- options, and relative paths which, joined to the staging directory, are the dialect's schema and
  -- queries and the one output directory, with links resolved.
  pub rendered-IsRendered :
      KeepsAbsolute
      → (runner : Runner) (c : Config) (dialect staging : Text) (fields : Fields)
      → is_rooted c.dir ≡ true
      → IsAbsolute staging
      → options_map host c ≡ ok fields
      → (config : SqlcConfig Fields) × (rendered host runner c dialect staging (out_of host c)
          ≡ ok config)
        × IsRendered runner c dialect staging config
  rendered-IsRendered keeps runner c dialect staging fields h hs encoded =
      let (schema, a, schema_joined) =
        relative_to_eq keeps staging _ hs
          (join_path-IsAbsolute c.dir (path_for dialect c.schemas) h) in
      let (queries, b, queries_joined) =
        relative_to_eq keeps staging _ hs
          (join_path-IsAbsolute c.dir (path_for dialect c.queries) h) in
      let (out, d, out_joined) =
        relative_to_eq keeps staging _ hs (join_path-IsAbsolute c.dir c.out h) in
      (
        config_of runner dialect schema queries out fields,
        rendered_ok runner c dialect staging (out_of host c) schema queries out fields a b d
            encoded,
        record {
          block = _;
          code = record { options = fields; plugin = plugin_name; out = out };
          blocks = refl;
          codegens = refl;
          plugins = refl;
          engine = refl;
          schema = schema_joined;
          queries = queries_joined;
          out = out_joined;
          options = encoded;
        },
      )

module _ {Fields : Type 0} (host : Host Fields) (runner : Runner) (c : Config)
    (staging root : Text) where
  -- What `renderConfig` has done where it succeeds.
  pub render_config-eq-ok :
      (d path : Text) (disk staged : Disk)
      → render_config host runner c d staging root disk ≡ (ok path, staged)
      → (config : SqlcConfig Fields) × (text : Text) × (rendered host runner c d staging root
          ≡ ok config)
        × (host.marshal config ≡ ok text)
        × (path ≡ config_path staging d)
        × (staged ≡ write (config_path staging d) text disk)
  unfolding render_config
  render_config-eq-ok d path disk staged h =
      elim (Result-cases (rendered host runner c d staging root)) [
        | inr (x, e) ↦ ground arith
        | inl (config, e) ↦ elim (Result-cases (host.marshal config)) [
          | inr (x, f) ↦ ground arith
          | inl (text, f) ↦ elim (Option-cases (host.write_file (config_path staging d))) [
            | inr (x, g) ↦ ground arith
            | inl g ↦ (config, text, e, f, ground arith, ground arith)
          ]
        ]
      ]
