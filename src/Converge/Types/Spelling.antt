-- ===== src/Converge/Types/Spelling.antt =====
-- internal/converge/types.go, `normalizeTypeName`: which spellings of a type are one.
use sqlc_gen_unison.Base.{
  ◌≡◌, ◌≢◌, refl, sym, ap, ◌∙◌, false, [], ◌∷◌, ◌++◌, append_assoc, Text, arith, All, All-map,
}
use sqlc_gen_unison.Strings.{
  trim_space, trim_left, trim_right, to_lower, lower, trim_prefix, trim_suffix, is_space,
}
use sqlc_gen_unison.Strings.Laws.{
  to_lower-trim_space, HasNoSpace, trim_space_of_HasNoSpace, trim_prefix-append, trim_prefix-All,
  cut_at-append, cut_at-none, trim_right_end, is_space-lower,
}
use sqlc_gen_unison.Converge.Types.{normalize_type_name, drop_length, catalog_qualifier, unsigned}

-- Spellings that differ only in case are one type.
pub normalize_type_name_case :
    (s t : Text) → to_lower s ≡ to_lower t → normalize_type_name s ≡ normalize_type_name t
unfolding normalize_type_name
normalize_type_name_case s t h =
    ap (λ n. trim_suffix (drop_length (trim_prefix n catalog_qualifier)) unsigned)
      (to_lower-trim_space s ∙ ap trim_space h ∙ sym (to_lower-trim_space t))

-- A plain name: no white space and no parenthesis.
abbrev pub IsPlain : Text → Type 0
IsPlain = All (λ c. (is_space c ≡ false) × (c ≢ b'('))

IsPlain-HasNoSpace : (s : Text) → IsPlain s → HasNoSpace s
IsPlain-HasNoSpace [] h = tt
IsPlain-HasNoSpace (c ∷ s) ((h, _), hs) = (h, IsPlain-HasNoSpace s hs)

to_lower-IsPlain : (s : Text) → IsPlain s → IsPlain (to_lower s)
unfolding to_lower
to_lower-IsPlain [] h = tt
to_lower-IsPlain (c ∷ s) ((h, k), hs) =
    ((is_space-lower c ∙ h, unfold lower in ground arith), to_lower-IsPlain s hs)

drop_length-IsPlain : (s : Text) → IsPlain s → drop_length s ≡ s
unfolding drop_length
drop_length-IsPlain s h = ground (arith, cut_at-none s b'(' (All-map (λ c p. p.1) s h))

drop_length-append : (s r : Text) → IsPlain s → drop_length (s ++ b'(' ∷ r) ≡ s
unfolding drop_length
drop_length-append s r h =
    rw (cut_at-append s r b'(' (All-map (λ c p. p.1) s h), drop_length)
      (trim_space_of_HasNoSpace s (IsPlain-HasNoSpace s h))

trim_space-parens :
    (s r : Text)
    → IsPlain s
    → trim_space (s ++ b'(' ∷ (r ++ b')' ∷ [])) ≡ s ++ b'(' ∷ (r ++ b')' ∷ [])
unfolding trim_space
trim_space-parens s r h =
    ap trim_right (starts s h)
    ∙ ap trim_right (sym (append_assoc s (b'(' ∷ r) (b')' ∷ [])))
    ∙ trim_right_end (s ++ b'(' ∷ r) b')' (unfold is_space in refl)
    ∙ append_assoc s (b'(' ∷ r) (b')' ∷ [])
  where
    starts :
        (s : Text)
        → IsPlain s
        → trim_left (s ++ b'(' ∷ (r ++ b')' ∷ [])) ≡ s ++ b'(' ∷ (r ++ b')' ∷ [])
    starts [] _ = refl
    starts (c ∷ s) ((h, _), _) = rw (h, trim_left)

to_lower-append : (s t : Text) → to_lower (s ++ t) ≡ to_lower s ++ to_lower t
unfolding to_lower
to_lower-append [] t = refl
to_lower-append (c ∷ s) t = ap (◌∷◌ (lower c)) (to_lower-append s t)

-- A length or a precision in parentheses makes no difference behind a plain name.
pub normalize_type_name_parens :
    (s r : Text)
    → IsPlain s
    → normalize_type_name (s ++ b'(' ∷ (r ++ b')' ∷ [])) ≡ normalize_type_name s
unfolding normalize_type_name to_lower
normalize_type_name_parens s r h =
    let low = to_lower-IsPlain s h in
    let plain =
      trim_prefix-All (λ c. (is_space c ≡ false) × (c ≢ b'(')) (to_lower s) catalog_qualifier low in
    ap (λ n. trim_suffix n unsigned)
      (ap (λ n. drop_length (trim_prefix (to_lower n) catalog_qualifier)) (trim_space-parens s r h)
        ∙ ap (λ n. drop_length (trim_prefix n catalog_qualifier))
            (to_lower-append s (b'(' ∷ (r ++ b')' ∷ [])))
        ∙ ap drop_length (
            trim_prefix-append (to_lower s) (to_lower (r ++ b')' ∷ [])) catalog_qualifier b'('
              (omega arith))
        ∙ drop_length-append _ (to_lower (r ++ b')' ∷ [])) plain
        ∙ sym (drop_length-IsPlain _ plain)
        ∙ ap (λ n. drop_length (trim_prefix (to_lower n) catalog_qualifier))
            (sym (trim_space_of_HasNoSpace s (IsPlain-HasNoSpace s h))))
