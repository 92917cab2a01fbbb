-- ===== src/Gogen/Types/Renders.antt =====
-- internal/emit/gogen/types.go, `goType`, on the types of internal/converge/types.go.
use sqlc_gen_unison.Base.{
  ◌≡◌, ◌≢◌, ◌⊎◌, inl, inr, Bool, true, false, Option, none, some, [], Text, arith, Option-cases, ok,
  err, Result-cases,
}
use sqlc_gen_unison.Ir.{FieldType}
use sqlc_gen_unison.Converge.Types.{map_type}
use sqlc_gen_unison.Converge.Types.Mapped.{IsMapped, NamesTypes, map_type-IsMapped}
use sqlc_gen_unison.Gogen.Imports.{ImportSet}
use sqlc_gen_unison.Gogen.Types.{EmitError, go_type}
use sqlc_gen_unison.Gogen.Types.Total.{is_override_error, go_type-err}

-- In every null style and behind any imports, the type is rendered, or it is a consumer's own type that
-- is refused for naming a package without its import path or an import path without a type.
abbrev pub Renders : FieldType → Type 0
Renders t =
    (null_as : Text) (imports : ImportSet)
    → ((r : Text × ImportSet) × (go_type t null_as imports ≡ ok r))
      ⊎ ((e : EmitError) × (go_type t null_as imports ≡ err e)
          × (t.override ≢ [])
          × (is_override_error e ≡ true))

pub IsMapped-Renders : (t : FieldType) → IsMapped t → Renders t
IsMapped-Renders t m null_as imports = elim (Result-cases (go_type t null_as imports)) [
  | inl (r, h) ↦ inl (r, h)
  | inr (e, h) ↦
      let (own, refused) = go_type-err t null_as imports e m h in inr (e, h, own, refused)
]

map_type-override :
    (table column engine_type : Text) (not_null : Bool) (override : Text → Text → Option Text)
    (t : FieldType)
    → map_type table column engine_type not_null override ≡ ok t
    → t.override ≢ []
    → override table column ≡ some t.override
unfolding map_type
map_type-override table column engine_type not_null override t h own =
    elim (Option-cases (override table column)) [
      | inr (g, e) ↦ ground arith
      | inl e ↦ absurd (own (ground arith))
    ]

-- Where the overrides name types, a type that is mapped is rendered in every null style and behind any
-- imports, as a single value and as a list; or it is exactly the override of its column, which is refused
-- for naming a package without its import path or an import path without a type. It is nullable only if
-- the analyzer could not rule NULL out and no override replaced it.
pub map_type-Renders :
    (table column engine_type : Text) (not_null : Bool) (override : Text → Text → Option Text)
    (t : FieldType)
    → NamesTypes override
    → map_type table column engine_type not_null override ≡ ok t
    → Renders t
      × Renders (record t { slice = true })
      × (t.override ≢ [] → override table column ≡ some t.override)
      × (t.nullable ≡ true → (not_null ≡ false) × (override table column ≡ none))
map_type-Renders table column engine_type not_null override t names h =
    let (mapped, _, nullable) =
      map_type-IsMapped table column engine_type not_null override t names h in
    (
      IsMapped-Renders t mapped,
      IsMapped-Renders (record t { slice = true }) mapped,
      map_type-override table column engine_type not_null override t h,
      nullable,
    )
