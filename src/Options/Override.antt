-- ===== src/Options/Override.antt =====
-- internal/options/options.go, `OverrideFor`: which override a column gets.
use sqlc_gen_unison.Base.{
  ◌≡◌, refl, false, Option, none, some, List, [], ◌∷◌, Text, text_eq, if◌then◌else◌, arith, All,
}
use sqlc_gen_unison.Options.{
  Options, TypeOverride, is_incomplete, wildcard_key, column_key, override_from, override_for,
}

unfoldable pub first_for : Text → List TypeOverride → Option Text
first_for key [] = none
first_for key (o ∷ os) = if text_eq o.column key then some o.go_type else first_for key os

unfoldable pub last_for : Text → List TypeOverride → Option Text
last_for key [] = none
last_for key (o ∷ os) = elim (last_for key os) [
  | some g ↦ some g
  | none ↦ if text_eq o.column key then some o.go_type else none
]

-- The override that the documentation describes: one for the very column wins over a wildcard.
unfoldable pub chosen : Text → Text → List TypeOverride → Option Text
unfolding first_for last_for
chosen table column os = elim (first_for (column_key table column) os) [
  | some g ↦ some g
  | none ↦ last_for (wildcard_key column) os
]

abbrev kept : Text → Option Text → Option Text
kept wildcard none = if text_eq wildcard [] then none else some wildcard
kept wildcard (some g) = some g

override_from-chosen :
    (wildcard table column : Text) (os : List TypeOverride)
    → All (λ o. is_incomplete o ≡ false) os
    → override_from wildcard table column os ≡ kept wildcard (chosen table column os)
unfolding override_from chosen first_for last_for
override_from-chosen wildcard table column [] _ = refl
override_from-chosen wildcard table column (o ∷ os) (h, hs) =
    let wildcard' = if text_eq o.column (wildcard_key column) then o.go_type else wildcard in
    ground (arith, override_from-chosen wildcard' table column os hs)

-- If every override is complete, a column gets the first override that names it by its table, and
-- if there is none the last that names it by the wildcard, and if there is neither none.
pub override_for-chosen :
    (o : Options) (table column : Text)
    → All (λ t. is_incomplete t ≡ false) o.type_overrides
    → override_for o table column ≡ chosen table column o.type_overrides
unfolding override_for text_eq
override_for-chosen o table column h =
    ground (arith, override_from-chosen [] table column o.type_overrides h)
