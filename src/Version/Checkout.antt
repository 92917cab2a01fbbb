-- ===== src/Version/Checkout.antt =====
-- version/version.go: which binaries report a version of their own.
use sqlc_gen_unison.Base.{
  ℕ, [], ◌∷◌, ap, ◌≡◌, ◌≢◌, true, false, some, Text, text_eq_iff, any, arith,
}
use sqlc_gen_unison.Strings.{has_prefix}
use sqlc_gen_unison.Version.{
  development, is_vcs, BuildInfo, is_module_version, resolve, recorded_version, module_version,
}

-- The first byte of a text with a prefix of one byte.
has_prefix-byte : (b : ℕ) (s : Text) → has_prefix s (b ∷ []) ≡ true → (rest : Text) × (s ≡ b ∷ rest)
unfolding has_prefix
has_prefix-byte b [] h = cc
has_prefix-byte b (c ∷ s) h = (s, ap (λ x. x ∷ s) (ground arith))

-- A binary that is built from a checkout reports what was stamped into it, and an unstamped one
-- changes its version only to one that starts with a v, of a build that records no checkout.
pub resolve-module_version :
    (stamped : Text) (info : BuildInfo)
    → (any is_vcs info.settings ≡ true → resolve stamped (module_version (some info)) ≡ stamped)
      × (resolve stamped (module_version (some info)) ≢ stamped
          → (any is_vcs info.settings ≡ false)
            × (stamped ≡ development)
            × (resolve stamped (module_version (some info)) ≡ info.main_version)
            × ((rest : Text) × (info.main_version ≡ b'v' ∷ rest)))
unfolding resolve module_version recorded_version is_module_version
resolve-module_version stamped info = (
  (λ h. ground (arith, text_eq_iff stamped development)),
  (λ h. (
    ground (arith, text_eq_iff stamped development),
    ground (arith, text_eq_iff stamped development),
    ground (arith, text_eq_iff stamped development),
    has_prefix-byte b'v' info.main_version (ground (arith, text_eq_iff stamped development)),
  )),
)
