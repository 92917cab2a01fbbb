-- ===== src/Tests/Options.antt =====
-- internal/options/options.go on concrete options.
use sqlc_gen_unison.Base.{◌≡◌, refl, false, [], ◌∷◌, codes, text_eq, ok, err, Perm, All}
use sqlc_gen_unison.Base.Order.{text_le, sort_by, insert_by}
use sqlc_gen_unison.Strings.{trim_space, trim_left, trim_right, is_space}
use sqlc_gen_unison.Options.{
  repeated_dialect, compact, null_style, check_overrides, normalize, is_incomplete, override_for,
}
use sqlc_gen_unison.Options.Normalize.{IsNormal, normalize-IsNormal}
use sqlc_gen_unison.Options.Override.{chosen, override_for-chosen}
use sqlc_gen_unison.Tests.Samples.{given, normal}

pub normalize-given : normalize given ≡ ok normal
unfolding normalize trim_space trim_left trim_right is_space text_eq sort_by insert_by text_le
    compact null_style check_overrides
normalize-given = refl

normalize_repeated :
    normalize (record given { roster = codes "mysql" ∷ codes "mysql" ∷ [] })
    ≡ err (repeated_dialect (codes "mysql" ∷ codes "mysql" ∷ []))
unfolding normalize trim_space trim_left trim_right is_space text_eq sort_by insert_by text_le
    compact null_style check_overrides
normalize_repeated = refl

normalize-IsNormal_example :
    IsNormal normal
    × Perm normal.roster given.roster
    × Perm normal.type_overrides given.type_overrides
    × (normal.package_name ≡ given.package_name)
    × (normal.rename_params ≡ given.rename_params)
    × (normal.table_prefix_var ≡ given.table_prefix_var)
normalize-IsNormal_example = normalize-IsNormal given normal normalize-given

normal-IsNormal : IsNormal normal
normal-IsNormal = let (v, _, _, _, _, _) = normalize-IsNormal given normal normalize-given in v

given_complete : All (λ t. is_incomplete t ≡ false) given.type_overrides
unfolding text_eq
given_complete = (refl, tt)

override_for-chosen_example :
    override_for given (codes "users") (codes "id")
    ≡ chosen (codes "users") (codes "id") given.type_overrides
override_for-chosen_example = override_for-chosen given (codes "users") (codes "id") given_complete
