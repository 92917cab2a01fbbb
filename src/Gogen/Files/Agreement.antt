-- ===== src/Gogen/Files/Agreement.antt =====
-- internal/emit/gogen/emit.go, `Emit`: files of two dialects that have one name have one content.
use sqlc_gen_unison.Base.{◌≡◌, ◌≢◌, refl, sym, ap, subst, ◌∙◌, List, [], ◌∷◌, Text, codes, All}
use sqlc_gen_unison.Gogen.Files.{File, queries_filename}
use sqlc_gen_unison.Gogen.Files.Shared.{shared_files, file_names, names_distinct}

-- A file of the one list and a file of the other that share a name share their content.
abbrev pub Agrees : File → File → Type 0
Agrees f g = f.name ≡ g.name → f.contents ≡ g.contents

abbrev pub Agree : List File → List File → Type 0
Agree fs gs = All (λ f. All (Agrees f) gs) fs

-- The names that a dialect's files have.
abbrev pub AreNamed : Text → List File → Type 0
AreNamed dialect fs =
    file_names fs
    ≡ codes "db_generated.go"
      ∷ codes "types_generated.go"
      ∷ codes "querier_generated.go"
      ∷ queries_filename dialect
      ∷ []

record AreFour (dialect : Text) (fs : List File) : Type 0 where
  db : File
  types : File
  querier : File
  queries : File
  files : fs ≡ db ∷ types ∷ querier ∷ queries ∷ []
  from_db : db.name ≡ codes "db_generated.go"
  from_types : types.name ≡ codes "types_generated.go"
  from_querier : querier.name ≡ codes "querier_generated.go"
  from_queries : queries.name ≡ queries_filename dialect

AreNamed-AreFour : (dialect : Text) (fs : List File) → AreNamed dialect fs → AreFour dialect fs
AreNamed-AreFour dialect [] h = cc
AreNamed-AreFour dialect (a ∷ []) h = cc
AreNamed-AreFour dialect (a ∷ b ∷ []) h = cc
AreNamed-AreFour dialect (a ∷ b ∷ c ∷ []) h = cc
AreNamed-AreFour dialect (a ∷ b ∷ c ∷ d ∷ []) h = record {
  db = a;
  types = b;
  querier = c;
  queries = d;
  files = refl;
  from_db = cc;
  from_types = cc;
  from_querier = cc;
  from_queries = cc;
}
AreNamed-AreFour dialect (a ∷ b ∷ c ∷ d ∷ e ∷ fs) h = cc

flip : {x y : Text} → x ≢ y → y ≢ x
flip h e = h (sym e)

files_injective :
    {a b c a' b' c' : File}
    → ◌≡◌ {A = List File} (a ∷ b ∷ c ∷ []) (a' ∷ b' ∷ c' ∷ [])
    → (a ≡ a') × (b ≡ b') × (c ≡ c')
files_injective h = (cc, cc, cc)

last_file :
    {a b c d a' b' c' d' : File}
    → ◌≡◌ {A = List File} (a ∷ b ∷ c ∷ d ∷ []) (a' ∷ b' ∷ c' ∷ d' ∷ [])
    → d.contents ≡ d'.contents
last_file h = cc

subst2 :
    (P : List File → List File → Type 0) {a a' b b' : List File} → a ≡ a' → b ≡ b' → P a b → P a' b'
subst2 P {a = a} {a' = a'} {b = b} e f h = subst (P a') f (subst (λ x. P x b) e h)

apart : (f g : File) {x y : Text} → f.name ≡ x → g.name ≡ y → x ≢ y → Agrees f g
apart f g h k ne e = absurd (ne (sym h ∙ e ∙ k))

-- Files that share the first three, of which the last ones agree, agree.
pub shared_files-Agree :
    (d d' : Text) (fs gs : List File)
    → AreNamed d fs
    → AreNamed d' gs
    → shared_files fs ≡ shared_files gs
    → (queries_filename d ≡ queries_filename d' → fs ≡ gs)
    → Agree fs gs
shared_files-Agree d d' fs gs h k same last =
    let a = AreNamed-AreFour d fs h in
    let b = AreNamed-AreFour d' gs k in
    let three : ◌≡◌ {A = List File} (a.db ∷ a.types ∷ a.querier ∷ [])
        (b.db ∷ b.types ∷ b.querier ∷ []) =
      sym (ap shared_files a.files) ∙ same ∙ ap shared_files b.files in
    let (one, two, third) = files_injective three in
    let ((n12, (n13, (n14, _))), ((n23, (n24, _)), ((n34, _), _))) = names_distinct d in
    let ((_, (_, (m14, _))), ((_, (m24, _)), ((m34, _), _))) = names_distinct d' in
    let queries = λ (e : a.queries.name ≡ b.queries.name).
      let whole = sym a.files ∙ last (sym a.from_queries ∙ e ∙ b.from_queries) ∙ b.files in
      last_file whole in
    subst2 Agree (sym a.files) (sym b.files) (
      (
        (λ _. ap (λ f. f.contents) one),
        (
          apart a.db b.types a.from_db b.from_types n12,
          (
            apart a.db b.querier a.from_db b.from_querier n13,
            (apart a.db b.queries a.from_db b.from_queries m14, tt),
          ),
        ),
      ),
      (
        (
          apart a.types b.db a.from_types b.from_db (flip n12),
          (
            (λ _. ap (λ f. f.contents) two),
            (
              apart a.types b.querier a.from_types b.from_querier n23,
              (apart a.types b.queries a.from_types b.from_queries m24, tt),
            ),
          ),
        ),
        (
          (
            apart a.querier b.db a.from_querier b.from_db (flip n13),
            (
              apart a.querier b.types a.from_querier b.from_types (flip n23),
              (
                (λ _. ap (λ f. f.contents) third),
                (apart a.querier b.queries a.from_querier b.from_queries m34, tt),
              ),
            ),
          ),
          (
            (
              apart a.queries b.db a.from_queries b.from_db (flip n14),
              (
                apart a.queries b.types a.from_queries b.from_types (flip n24),
                (apart a.queries b.querier a.from_queries b.from_querier (flip n34), (queries, tt)),
              ),
            ),
            tt,
          ),
        ),
      ),
    )
