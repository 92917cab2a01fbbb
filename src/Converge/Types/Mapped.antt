-- ===== src/Converge/Types/Mapped.antt =====
-- internal/converge/types.go, `mapType`: a type that is returned is a consumer's own or of a kind.
use sqlc_gen_unison.Base.{
  ◌≡◌, ◌≢◌, refl, subst, ◌&&◌, &&-eq-true, ◌⊎◌, inl, inr, Bool, true, false, Option, none, some,
  List, [], ◌∷◌, Text, text_eq, text_eq_iff, if◌then◌else◌, arith, All, Bool-cases, Option-cases,
  ok,
}
use sqlc_gen_unison.Ir.{Kind, kind_invalid, FieldType}
use sqlc_gen_unison.Options.{
  Options, TypeOverride, is_incomplete, override_from, override_for, map_get, wildcard_key,
  column_key,
}
use sqlc_gen_unison.Converge.Types.{engine_types, normalize_type_name, map_type}

-- A consumer's own type, or one of the converged kinds.
abbrev pub IsMapped : FieldType → Type 0
IsMapped t = (t.override ≢ []) ⊎ (t.kind ≢ kind_invalid)

-- What `mapType` relies on in the override that it is handed.
abbrev pub NamesTypes : (Text → Text → Option Text) → Type 0
NamesTypes override = (table column g : Text) → override table column ≡ some g → g ≢ []

override_from-ne-nil :
    (wildcard table column : Text) (os : List TypeOverride) {g : Text}
    → All (λ o. is_incomplete o ≡ false) os
    → override_from wildcard table column os ≡ some g
    → g ≢ []
unfolding override_from
override_from-ne-nil wildcard table column [] h e = ground (arith, text_eq_iff wildcard [])
override_from-ne-nil wildcard table column (o ∷ os) (h, hs) e =
    let wildcard' = if text_eq o.column (wildcard_key column) then o.go_type else wildcard in
    elim (Bool-cases (text_eq o.column (column_key table column))) [
      | inl q ↦ ground (arith, text_eq_iff o.go_type [])
      | inr q ↦ override_from-ne-nil wildcard' table column os hs (ground arith)
    ]

-- Complete overrides name types.
pub override_for-NamesTypes :
    (o : Options)
    → All (λ t. is_incomplete t ≡ false) o.type_overrides
    → NamesTypes (override_for o)
unfolding override_for
override_for-NamesTypes o h table column g e =
    override_from-ne-nil [] table column o.type_overrides h e

is_valid : Kind → Bool
is_valid kind_invalid = false
is_valid _ = true

all_valid : List (Text × Kind) → Bool
all_valid [] = true
all_valid ((_, kind) ∷ m) = is_valid kind && all_valid m

all_valid-All : (m : List (Text × Kind)) → all_valid m ≡ true → All (λ e. e.1 ≢ kind_invalid) m
unfolding all_valid
all_valid-All [] h = tt
all_valid-All ((_, kind) ∷ m) h =
    let (here, later) = &&-eq-true (is_valid kind) (all_valid m) h in
    (λ e. unfold is_valid in ground arith, all_valid-All m later)

map_get-All :
    (P : Kind → Type 0) (key : Text) (m : List (Text × Kind)) {k : Kind}
    → All (λ e. P e.1) m
    → map_get key m ≡ some k
    → P k
unfolding map_get
map_get-All P key [] h e = cc
map_get-All P key ((j, v) ∷ m) (p, ps) e = elim (Bool-cases (text_eq j key)) [
  | inl q ↦ subst P (ground arith) p
  | inr q ↦ map_get-All P key m ps (rw (q, map_get) at e)
]

engine_types-All : All (λ e. e.1 ≢ kind_invalid) engine_types
unfolding engine_types all_valid is_valid
engine_types-All = all_valid-All engine_types refl

-- A type that is mapped is a consumer's own or of a kind, if the overrides name types; it is no list yet,
-- and it is nullable only if the analyzer could not rule NULL out and no override replaced it.
pub map_type-IsMapped :
    (table column engine_type : Text) (not_null : Bool) (override : Text → Text → Option Text)
    (t : FieldType)
    → NamesTypes override
    → map_type table column engine_type not_null override ≡ ok t
    → IsMapped t
      × (t.slice ≡ false)
      × (t.nullable ≡ true → (not_null ≡ false) × (override table column ≡ none))
unfolding map_type
map_type-IsMapped table column engine_type not_null override t names e =
    elim (Option-cases (override table column)) [
      | inl plain ↦ elim (Option-cases (map_get (normalize_type_name engine_type) engine_types)) [
        | inl unknown ↦ ground arith
        | inr (kind, known) ↦
            let valid = map_get-All (λ k. k ≢ kind_invalid) _ engine_types engine_types-All known in
            (inr (λ i. valid (ground arith)), ground arith, λ n. (ground arith, plain))
      ]
      | inr (g, own) ↦
          let named = names table column g own in
          (inl (λ i. named (ground arith)), ground arith, λ n. ground arith)
    ]
