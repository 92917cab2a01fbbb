-- ===== src/Gogen/Queries/Terms.antt =====
-- internal/emit/gogen/queries.go, `capacity`: the terms of the sum that is written.
use sqlc_gen_unison.Base.{
  ◌≡◌, ◌≢◌, refl, ap, ◌∙◌, List, [], ◌∷◌, ◌++◌, Text, codes, ◌==◌, if◌then◌else◌, arith, All,
  append_assoc,
}
use sqlc_gen_unison.Strings.{join}
use sqlc_gen_unison.Gogen.Queries.Lines.{start_line}

-- The terms of a sum.
unfoldable pub read_terms : Text → List Text
read_terms [] = [] ∷ []
read_terms (c ∷ s) = let rest = read_terms s in if c == b'+' then [] ∷ rest else start_line c rest

-- The text of one term.
abbrev pub IsTerm : Text → Type 0
IsTerm = All (λ c. c ≢ b'+')

read_terms-append : (s rest : Text) → IsTerm s → read_terms (s ++ b'+' ∷ rest) ≡ s ∷ read_terms rest
unfolding read_terms
read_terms-append [] rest h = refl
read_terms-append (c ∷ s) rest (h, hs) = ground (arith, read_terms-append s rest)

read_terms_term : (s : Text) → IsTerm s → read_terms s ≡ s ∷ []
unfolding read_terms
read_terms_term [] h = refl
read_terms_term (c ∷ s) (h, hs) = ground (arith, read_terms_term s)

pub read_terms-join :
    (t : Text) (ts : List Text)
    → All IsTerm (t ∷ ts)
    → read_terms (join (t ∷ ts) (codes "+")) ≡ t ∷ ts
unfolding join
read_terms-join t [] (h, _) = read_terms_term t h
read_terms-join t (u ∷ ts) (h, hs) =
    ap read_terms (append_assoc t (codes "+") (join (u ∷ ts) (codes "+")))
    ∙ read_terms-append t (join (u ∷ ts) (codes "+")) h
    ∙ ap (λ us. t ∷ us) (read_terms-join u ts hs)
