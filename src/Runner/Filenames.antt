-- ===== src/Runner/Filenames.antt =====
-- The engines of internal/orchestrator/config.go, and the names of the files that internal/emit/gogen
-- writes for each.
use mathlib.Core.List.{append_cancel_left, append_cancel_right}
use sqlc_gen_unison.Base.{
  ℕ, ◌≡◌, refl, sym, subst, ◌∙◌, ◌⊎◌, inl, inr, true, false, List, [], ◌∷◌, ◌++◌, Text, codes,
  text_eq, text_eq_iff, text_mem, any, ◌==◌, arith, All, All-append, Bool-cases,
}
use sqlc_gen_unison.Strings.{to_lower}
use sqlc_gen_unison.Paths.Relative.{IsName, NoSlash}
use sqlc_gen_unison.Paths.Below.{IsDirectory, NoSlash-of_any, is_below-join_path}
use sqlc_gen_unison.Gogen.Files.{File, queries_filename}
use sqlc_gen_unison.Gogen.Files.Shared.{file_names}
use sqlc_gen_unison.Gogen.Files.Agreement.{AreNamed}
use sqlc_gen_unison.Disk.Responses.{IsPlain}
use sqlc_gen_unison.Orchestrator.{engines}
use sqlc_gen_unison.Paths.{is_below}
use sqlc_gen_unison.Runner.{config_path}

pub engine-NoSlash : (d : Text) → text_mem d engines ≡ true → NoSlash d
unfolding text_mem any
engine-NoSlash d h = elim (Bool-cases (any (λ c. c == b'/') d)) [
  | inr e ↦ NoSlash-of_any d e
  | inl e ↦ absurd (
      ground (
        arith,
        text_eq_iff d (codes "mysql"),
        text_eq_iff d (codes "postgresql"),
        text_eq_iff d (codes "sqlite"),
      ))
]

-- One of the three engines.
pub engine-cases :
    (d : Text)
    → text_mem d engines ≡ true
    → (d ≡ codes "mysql") ⊎ ((d ≡ codes "postgresql") ⊎ (d ≡ codes "sqlite"))
unfolding text_mem any
engine-cases d h = elim (Bool-cases (text_eq d (codes "mysql"))) [
  | inl e ↦ inl ((text_eq_iff d (codes "mysql")).0 e)
  | inr e ↦ elim (Bool-cases (text_eq d (codes "postgresql"))) [
    | inl f ↦ inr (inl ((text_eq_iff d (codes "postgresql")).0 f))
    | inr f ↦ inr (inr ((text_eq_iff d (codes "sqlite")).0 (ground arith)))
  ]
]

to_lower-engine : (d : Text) → text_mem d engines ≡ true → to_lower d ≡ d
unfolding to_lower
to_lower-engine d h = elim (engine-cases d h) [
  | inl e ↦ rw e refl
  | inr (inl e) ↦ rw e refl
  | inr (inr e) ↦ rw e refl
]

-- Two engines have two files of queries.
pub queries_filename-injective :
    (d d' : Text)
    → text_mem d engines ≡ true
    → text_mem d' engines ≡ true
    → queries_filename d ≡ queries_filename d'
    → d ≡ d'
unfolding queries_filename
queries_filename-injective d d' h k e =
    sym (to_lower-engine d h)
    ∙ append_cancel_left (codes "queries_") _ _ (append_cancel_right _ _ (codes "_generated.go") e)
    ∙ to_lower-engine d' k

queries_filename-IsName :
    (d : Text) → text_mem d engines ≡ true → IsName (codes "queries_" ++ d ++ codes "_generated.go")
unfolding any
queries_filename-IsName d h =
    let before : NoSlash (codes "queries_") = NoSlash-of_any (codes "queries_") refl in
    let behind : NoSlash (codes "_generated.go") = NoSlash-of_any (codes "_generated.go") refl in
    record {
      no_slash =
          All-append _ (codes "queries_" ++ d) (codes "_generated.go")
            (All-append _ (codes "queries_") d before (engine-NoSlash d h)) behind;
      not_empty = λ e. cc;
      not_here = λ e. ground arith;
      not_up = λ e. ground arith;
    }

pub constant-IsName :
    (b : ℕ) (s : Text) → any (λ c. c == b'/') (b ∷ s) ≡ false → (b == b'.') ≡ false → IsName (b ∷ s)
constant-IsName b s h k = record {
  no_slash = NoSlash-of_any (b ∷ s) h;
  not_empty = λ e. cc;
  not_here = λ e. ground arith;
  not_up = λ e. ground arith;
}

pub AreNamed-IsPlain :
    (place d : Text) (dir : IsDirectory place) (fs : List File)
    → text_mem d engines ≡ true
    → AreNamed d fs
    → All (IsPlain place dir) fs
unfolding queries_filename any
AreNamed-IsPlain place d dir fs h k = names-IsPlain fs (
    subst (All IsName) (sym k) (
      constant-IsName _ _ refl refl,
      (
        constant-IsName _ _ refl refl,
        (
          constant-IsName _ _ refl refl,
          (
            subst (λ t. IsName (codes "queries_" ++ t ++ codes "_generated.go"))
                (sym (to_lower-engine d h)) (queries_filename-IsName d h),
            tt,
          ),
        ),
      ),
    ))
  where
    names-IsPlain : (gs : List File) → All IsName (file_names gs) → All (IsPlain place dir) gs
    names-IsPlain [] _ = tt
    names-IsPlain (g ∷ gs) (n, ns) = (n, names-IsPlain gs ns)

yaml_file-IsName : (d : Text) → NoSlash d → IsName (codes "sqlc-" ++ d ++ codes ".yaml")
unfolding any
yaml_file-IsName d h =
    let before : NoSlash (codes "sqlc-") = NoSlash-of_any (codes "sqlc-") refl in
    let behind : NoSlash (codes ".yaml") = NoSlash-of_any (codes ".yaml") refl in
    record {
      no_slash =
          All-append _ (codes "sqlc-" ++ d) (codes ".yaml")
            (All-append _ (codes "sqlc-") d before h) behind;
      not_empty = λ e. cc;
      not_here = λ e. ground arith;
      not_up = λ e. ground arith;
    }

pub config_path-below :
    (staging d : Text)
    → IsDirectory staging
    → text_mem d engines ≡ true
    → is_below staging (config_path staging d) ≡ true
config_path-below staging d v h =
    is_below-join_path staging _ v (yaml_file-IsName d (engine-NoSlash d h))
