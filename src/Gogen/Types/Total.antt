-- ===== src/Gogen/Types/Total.antt =====
-- internal/emit/gogen/types.go, `goType`: which types are refused, and that rendering ends.
use sqlc_gen_unison.Base.{
  ℕ, zero, suc, ◌≤◌, ◌<◌, ◌+◌, ◌≡◌, ◌≢◌, inl, inr, Bool, true, false, some, [], ◌∷◌, Text, codes,
  text_eq, text_eq_iff, length, arith, err, Bool-cases, Option-cases,
}
use sqlc_gen_unison.Ir.{FieldType}
use sqlc_gen_unison.Strings.{trim_space, trim_left, trim_right, cut_prefix}
use sqlc_gen_unison.Converge.Types.Mapped.{IsMapped}
use sqlc_gen_unison.Gogen.Imports.{ImportSet}
use sqlc_gen_unison.Gogen.Types.{
  EmitError, no_import_path, no_type_name, render_qualified, render_plain, render_starred,
  render_override, plain_type, sql_null_type, element_type, go_type,
}

-- The two ways in which a consumer's own type is refused.
abbrev pub is_override_error : EmitError → Bool
is_override_error (no_import_path _) = true
is_override_error (no_type_name _) = true
is_override_error _ = false

length-trim_left : (s : Text) → length (trim_left s) ≤ length s
unfolding trim_left
length-trim_left [] = omega arith
length-trim_left (c ∷ s) = ground (arith, length-trim_left s)

length-trim_right : (s : Text) → length (trim_right s) ≤ length s
unfolding trim_right
length-trim_right [] = omega arith
length-trim_right (c ∷ s) = ground (arith, length-trim_right s)

length-trim_space : (s : Text) → length (trim_space s) ≤ length s
unfolding trim_space
length-trim_space s = omega (arith, length-trim_right (trim_left s), length-trim_left s)

length-cut_prefix :
    (s p rest : Text) → cut_prefix s p ≡ some rest → length rest + length p ≡ length s
unfolding cut_prefix
length-cut_prefix s [] rest h = ground arith
length-cut_prefix [] (b ∷ p) rest h = cc
length-cut_prefix (a ∷ s) (b ∷ p) rest h = ground (arith, length-cut_prefix s p rest)

render_plain-err :
    (override : Text) (imports : ImportSet) (e : EmitError)
    → render_plain override imports ≡ err e
    → is_override_error e ≡ true
unfolding render_plain render_qualified
render_plain-err override imports e h = ground arith

render_starred-err :
    (fuel : ℕ) (override : Text) (imports : ImportSet) (e : EmitError)
    → length override < fuel
    → render_starred fuel override imports ≡ err e
    → is_override_error e ≡ true
unfolding render_starred
render_starred-err zero override imports e h k = elim h [ ]
render_starred-err (suc fuel) override imports e h k =
    elim (Option-cases (cut_prefix (trim_space override) (codes "*"))) [
      | inl bare ↦ render_plain-err (trim_space override) imports e (ground arith)
      | inr (pointee, starred) ↦
          render_starred-err fuel pointee imports e
            (omega (
              arith,
              length-trim_space override,
              length-cut_prefix (trim_space override) (codes "*") pointee starred,
            ))
            (ground arith)
    ]

-- Rendering an override ends: the fuel suffices, since each star shortens the text.
render_override-err :
    (override : Text) (imports : ImportSet) (e : EmitError)
    → render_override override imports ≡ err e
    → is_override_error e ≡ true
unfolding render_override
render_override-err override imports e h =
    render_starred-err (suc (length override)) override imports e (omega arith) h

element_type-err :
    (t : FieldType) (null_as : Text) (imports : ImportSet) (e : EmitError)
    → IsMapped t
    → element_type t null_as imports ≡ err e
    → (t.override ≢ []) × (is_override_error e ≡ true)
unfolding element_type plain_type sql_null_type
element_type-err t null_as imports e m h = elim (Bool-cases (text_eq t.override [])) [
  | inr own ↦ (
    (λ q. ground (arith, text_eq_iff t.override [])),
    render_override-err t.override imports e (ground arith),
  )
  | inl converged ↦ absurd (ground (arith, text_eq_iff t.override []))
]

-- A mapped type is rendered, or it is a consumer's own type that is refused for naming a package
-- without its import path or an import path without a type.
pub go_type-err :
    (t : FieldType) (null_as : Text) (imports : ImportSet) (e : EmitError)
    → IsMapped t
    → go_type t null_as imports ≡ err e
    → (t.override ≢ []) × (is_override_error e ≡ true)
unfolding go_type
go_type-err t null_as imports e m h = elim (Bool-cases t.slice) [
  | inl list ↦ element_type-err (record t { slice = false }) null_as imports e m (ground arith)
  | inr single ↦ element_type-err t null_as imports e m (ground arith)
]
