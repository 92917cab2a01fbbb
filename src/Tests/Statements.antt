-- ===== src/Tests/Statements.antt =====
-- internal/converge/prefix.go and types.go on concrete texts.
use sqlc_gen_unison.Base.{
  ◌≡◌, ◌≢◌, refl, Bool, false, ◌||◌, ◌==◌, [], ◌∷◌, ◌++◌, Text, codes, length, All, arith,
}
use sqlc_gen_unison.Strings.{to_lower, lower, is_space, replace_all}
use sqlc_gen_unison.Ir.{prefix_marker}
use sqlc_gen_unison.Converge.Prefix.{mark_prefixes, in_span, string_literal_spans, quote}
use sqlc_gen_unison.Converge.Prefix.Literals.{open_after, in_span-string_literal_spans}
use sqlc_gen_unison.Converge.Prefix.Scan.{reference, mark_prefixes-reference}
use sqlc_gen_unison.Converge.Prefix.Construct.{
  HasNoBrace, replace_all-mark_prefixes, replace_all-mark_prefixes_nil,
}
use sqlc_gen_unison.Tests.Samples.{sql}

in_span-string_literal_spans_example :
    in_span (string_literal_spans (codes "a = 'b" ++ b' ' ∷ codes "c'")) (length (codes "a = 'b"))
    ≡ ((b' ' == quote) || open_after false (codes "a = 'b"))
in_span-string_literal_spans_example =
    in_span-string_literal_spans (codes "a = 'b") b' ' (codes "c'")

mark_prefixes-reference_example :
    mark_prefixes sql (codes "users" ∷ [])
    ≡ reference (codes "users" ∷ []) prefix_marker false false false sql
mark_prefixes-reference_example = mark_prefixes-reference sql (codes "users" ∷ [])

abbrev braces : Text → Bool
braces [] = false
braces (c ∷ s) = (c == b'{') || braces s

HasNoBrace-of_braces : (s : Text) → braces s ≡ false → HasNoBrace s
HasNoBrace-of_braces [] h = tt
HasNoBrace-of_braces (c ∷ s) h = (ground arith, HasNoBrace-of_braces s (ground arith))

replace_all-mark_prefixes_example :
    replace_all (mark_prefixes sql (codes "users" ∷ [])).text prefix_marker (codes "app_")
    ≡ (reference (codes "users" ∷ []) (codes "app_") false false false sql).text
replace_all-mark_prefixes_example =
    replace_all-mark_prefixes sql (codes "users" ∷ []) (codes "app_")
      (HasNoBrace-of_braces sql refl)

replace_all-mark_prefixes_nil_example :
    replace_all (mark_prefixes sql (codes "users" ∷ [])).text prefix_marker [] ≡ sql
replace_all-mark_prefixes_nil_example =
    replace_all-mark_prefixes_nil sql (codes "users" ∷ []) (HasNoBrace-of_braces sql refl)

same_case : to_lower (codes "VARCHAR") ≡ to_lower (codes "VarChar")
unfolding to_lower lower
same_case = refl

plain_blob : All (λ c. (is_space c ≡ false) × (c ≢ b'(')) (codes "int")
unfolding is_space
plain_blob = ((refl, ground arith), ((refl, ground arith), ((refl, ground arith), tt)))
