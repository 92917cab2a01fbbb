-- ===== src/Gogen/Files/Shared.antt =====
-- internal/emit/gogen/emit.go, `Emit`: what the three shared files depend on.
use sqlc_gen_unison.Base.{
  ◌≡◌, inl, inr, refl, sym, ap, ◌∙◌, Option, List, [], ◌∷◌, map, Text, codes, arith, Result, ok,
  map_err, bind-eq-ok, Option-cases,
}
use sqlc_gen_unison.Base.Sets.{AreDistinct}
use sqlc_gen_unison.Ir.{Package}
use sqlc_gen_unison.Options.{Options}
use sqlc_gen_unison.Converge.Analysis.{Request}
use sqlc_gen_unison.Converge.Requests.{converge_package}
use sqlc_gen_unison.Converge.Requests.Settings.{converge_package-HasSettings}
use sqlc_gen_unison.Gogen.Types.{EmitError}
use sqlc_gen_unison.Gogen.Database.{header, has_slice_params, new_func, emit_db}
use sqlc_gen_unison.Gogen.Interface.{emit_types, has_exec_rows, emit_querier}
use sqlc_gen_unison.Gogen.Queries.{emit_queries}
use sqlc_gen_unison.Gogen.Files.{File, queries_filename, finish, emit}

-- Two packages that agree in all but the dialect, its time layout and its statements.
pub record AreShared (p q : Package) : Type 0 where
  pub name : p.name ≡ q.name
  pub sqlc_version : p.sqlc_version ≡ q.sqlc_version
  pub unison_version : p.unison_version ≡ q.unison_version
  pub null_as : p.null_as ≡ q.null_as
  pub roster : p.roster ≡ q.roster
  pub queries : p.queries ≡ q.queries
  pub table_prefix : p.table_prefix ≡ q.table_prefix

emit_db-eq : (p q : Package) → AreShared p q → emit_db p ≡ emit_db q
unfolding emit_db header has_slice_params new_func
emit_db-eq p q s =
    rw (s.name, s.sqlc_version, s.unison_version, s.roster, s.queries, s.table_prefix) refl

emit_types-eq : (p q : Package) → AreShared p q → emit_types p ≡ emit_types q
unfolding emit_types header
emit_types-eq p q s = rw (s.name, s.sqlc_version, s.unison_version, s.null_as, s.queries) refl

emit_querier-eq : (p q : Package) → AreShared p q → emit_querier p ≡ emit_querier q
unfolding emit_querier header has_slice_params has_exec_rows
emit_querier-eq p q s = rw (s.name, s.sqlc_version, s.unison_version, s.queries) refl

-- The first three files.
abbrev pub shared_files : List File → List File
shared_files (db ∷ types ∷ querier ∷ _) = db ∷ types ∷ querier ∷ []
shared_files _ = []

abbrev pub file_names : List File → List Text
file_names = map (λ f. f.name)

pub names_distinct :
    (dialect : Text)
    → AreDistinct (
        codes "db_generated.go"
        ∷ codes "types_generated.go"
        ∷ codes "querier_generated.go"
        ∷ queries_filename dialect
        ∷ [])
unfolding queries_filename
names_distinct dialect = (
  ((λ e. ground arith), ((λ e. ground arith), ((λ e. ground arith), tt))),
  (((λ e. ground arith), ((λ e. ground arith), tt)), (((λ e. ground arith), tt), (tt, tt))),
)

module _ (format : Text → Option Text) where
  finish-eq-ok :
      (name : Text) (source : Result EmitError Text) (f : File)
      → finish format name source ≡ ok f
      → f.name ≡ name
  unfolding finish
  finish-eq-ok name source f h =
      let (text, _, h1) = bind-eq-ok (map_err _ source) _ h in
      elim (Option-cases (format text)) [ inl e ↦ ground arith | inr (formatted, e) ↦ ground arith ]

  finish_agree :
      (name : Text) {r t : Result EmitError Text} {f g : File}
      → r ≡ t
      → finish format name r ≡ ok f
      → finish format name t ≡ ok g
      → f ≡ g
  finish_agree name e h k = cc

  record IsEmitted (pkg : Package) (fs : List File) : Type 0 where
    db : File
    types : File
    querier : File
    queries : File
    from_db : finish format (codes "db_generated.go") (ok (emit_db pkg)) ≡ ok db
    from_types : finish format (codes "types_generated.go") (emit_types pkg) ≡ ok types
    from_querier : finish format (codes "querier_generated.go") (emit_querier pkg) ≡ ok querier
    from_queries : finish format (queries_filename pkg.dialect) (emit_queries pkg) ≡ ok queries
    files : db ∷ types ∷ querier ∷ queries ∷ [] ≡ fs

  emit-IsEmitted : (pkg : Package) (fs : List File) → emit format pkg ≡ ok fs → IsEmitted pkg fs
  unfolding emit
  emit-IsEmitted pkg fs h =
      let (db, a, h1) =
        bind-eq-ok (finish format (codes "db_generated.go") (ok (emit_db pkg))) _ h in
      let (types, b, h2) =
        bind-eq-ok (finish format (codes "types_generated.go") (emit_types pkg)) _ h1 in
      let (querier, c, h3) =
        bind-eq-ok (finish format (codes "querier_generated.go") (emit_querier pkg)) _ h2 in
      let (queries, d, h4) =
        bind-eq-ok (finish format (queries_filename pkg.dialect) (emit_queries pkg)) _ h3 in
      record {
        db = db;
        types = types;
        querier = querier;
        queries = queries;
        from_db = a;
        from_types = b;
        from_querier = c;
        from_queries = d;
        files = ground arith;
      }

  -- Two dialects whose packages agree in all but the dialect, its time layout and its statements
  -- write the same three shared files, byte for byte.
  pub emit-shared :
      (p q : Package) (fs gs : List File)
      → AreShared p q
      → emit format p ≡ ok fs
      → emit format q ≡ ok gs
      → shared_files fs ≡ shared_files gs
  emit-shared p q fs gs s h k =
      let a = emit-IsEmitted p fs h in
      let b = emit-IsEmitted q gs k in
      let db =
        finish_agree (codes "db_generated.go") (ap ok (emit_db-eq p q s)) a.from_db b.from_db in
      let types =
        finish_agree (codes "types_generated.go") (emit_types-eq p q s) a.from_types b.from_types in
      let querier =
        finish_agree (codes "querier_generated.go") (emit_querier-eq p q s) a.from_querier
          b.from_querier in
      sym (ap shared_files a.files) ∙ rw (db, types, querier) refl ∙ ap shared_files b.files

  -- The four files that are written have the names of the source, each its own whatever the dialect.
  pub emit-file_names :
      (pkg : Package) (fs : List File)
      → emit format pkg ≡ ok fs
      → (file_names fs
          ≡ codes "db_generated.go"
            ∷ codes "types_generated.go"
            ∷ codes "querier_generated.go"
            ∷ queries_filename pkg.dialect
            ∷ [])
        × AreDistinct (file_names fs)
  emit-file_names pkg fs h =
      let a = emit-IsEmitted pkg fs h in
      let named =
        sym (ap file_names a.files)
        ∙ rw
            (
              finish-eq-ok _ _ a.db a.from_db,
              finish-eq-ok _ _ a.types a.from_types,
              finish-eq-ok _ _ a.querier a.from_querier,
              finish-eq-ok _ _ a.queries a.from_queries,
            )
            refl in
      (named, rw named (names_distinct pkg.dialect))

-- If one configuration is run for two dialects with the same sqlc, and both analyze the same shared
-- queries, then both write the same three shared files.
pub converge_package-emit :
    (format : Text → Option Text) (r t : Request) (opts : Options) (version : Text) (p q : Package)
    (fs gs : List File)
    → r.sqlc_version ≡ t.sqlc_version
    → converge_package r opts version ≡ ok p
    → converge_package t opts version ≡ ok q
    → p.queries ≡ q.queries
    → emit format p ≡ ok fs
    → emit format q ≡ ok gs
    → shared_files fs ≡ shared_files gs
converge_package-emit format r t opts version p q fs gs versions h k queries a b =
    let s = converge_package-HasSettings r opts version p h in
    let s' = converge_package-HasSettings t opts version q k in
    emit-shared format p q fs gs
      (record {
        name = s.name ∙ sym s'.name;
        sqlc_version = s.sqlc_version ∙ versions ∙ sym s'.sqlc_version;
        unison_version = s.unison_version ∙ sym s'.unison_version;
        null_as = s.null_as ∙ sym s'.null_as;
        roster = s.roster ∙ sym s'.roster;
        queries = queries;
        table_prefix = s.table_prefix ∙ sym s'.table_prefix;
      })
      a b
