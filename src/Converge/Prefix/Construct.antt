-- ===== src/Converge/Prefix/Construct.antt =====
-- What the marked statement becomes when the generated constructor (internal/emit/gogen/queries.go,
-- `writeConstructor`) replaces the marker by a prefix.
use sqlc_gen_unison.Base.{
  ℕ, ◌≡◌, ◌≢◌, refl, ◌∙◌, Bool, false, List, [], ◌∷◌, ◌++◌, Text, if◌then◌else◌, arith, All,
}
use sqlc_gen_unison.Ir.{prefix_marker}
use sqlc_gen_unison.Strings.{replace_all}
use sqlc_gen_unison.Converge.Prefix.{mark_prefixes, is_ident_part, is_ident_start}
use sqlc_gen_unison.Converge.Prefix.Literals.{flip}
use sqlc_gen_unison.Converge.Prefix.Scan.{reference, place, dot_after, mark_prefixes-reference}

replace_all_marker :
    (s prefix : Text)
    → replace_all (prefix_marker ++ s) prefix_marker prefix
      ≡ prefix ++ replace_all s prefix_marker prefix
unfolding replace_all
replace_all_marker s prefix = refl

replace_all_byte :
    (c : ℕ) (s prefix : Text)
    → c ≢ b'{'
    → replace_all (c ∷ s) prefix_marker prefix ≡ c ∷ replace_all s prefix_marker prefix
unfolding replace_all
replace_all_byte c s prefix h = ground arith

-- The source text holds no brace of its own, so no marker but those that were placed.
abbrev pub HasNoBrace : Text → Type 0
HasNoBrace = All (λ c. c ≢ b'{')

module _ (tables : List Text) where
  replace_all-reference :
      (prefix : Text) (lit dotted inside : Bool) (s : Text)
      → HasNoBrace s
      → replace_all (reference tables prefix_marker lit dotted inside s).text prefix_marker prefix
        ≡ (reference tables prefix lit dotted inside s).text
  unfolding reference place
  replace_all-reference prefix lit dotted inside [] h = unfold replace_all in refl
  replace_all-reference prefix lit dotted inside (c ∷ s) (h, hs) =
      let inside' = if inside then is_ident_part c else is_ident_start c in
      let rest =
        (reference tables prefix_marker (flip lit c) (dot_after dotted c) inside' s).text in
      ground (
        arith,
        replace_all-reference prefix (flip lit c) (dot_after dotted c) inside' s,
        replace_all_byte c rest prefix,
        replace_all_marker (c ∷ rest) prefix,
      )

  reference_unmarked :
      (lit dotted inside : Bool) (s : Text) → (reference tables [] lit dotted inside s).text ≡ s
  unfolding reference place
  reference_unmarked lit dotted inside [] = refl
  reference_unmarked lit dotted inside (c ∷ s) =
      let inside' = if inside then is_ident_part c else is_ident_start c in
      ground (arith, reference_unmarked (flip lit c) (dot_after dotted c) inside' s)

-- Replacing the marker in a marked statement puts the prefix, for any prefix, exactly where the
-- reference puts it, if the source statement holds no brace.
pub replace_all-mark_prefixes :
    (sql : Text) (tables : List Text) (prefix : Text)
    → HasNoBrace sql
    → replace_all (mark_prefixes sql tables).text prefix_marker prefix
      ≡ (reference tables prefix false false false sql).text
replace_all-mark_prefixes sql tables prefix h =
    rw (mark_prefixes-reference sql tables)
      (replace_all-reference tables prefix false false false sql h)

-- With the empty prefix the constructed statement is the analyzed one, if that holds no brace.
pub replace_all-mark_prefixes_nil :
    (sql : Text) (tables : List Text)
    → HasNoBrace sql
    → replace_all (mark_prefixes sql tables).text prefix_marker [] ≡ sql
replace_all-mark_prefixes_nil sql tables h =
    replace_all-mark_prefixes sql tables [] h ∙ reference_unmarked tables false false false sql
