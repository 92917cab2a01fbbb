-- ===== src/Converge/Slices/Sites.antt =====
-- internal/converge/slices.go, `checkExpansions`: exactly which statements pass.
use sqlc_gen_unison.Base.{
  ℕ, ◌+◌, ◌≡◌, refl, ◌⊎◌, ◌↔◌, List, [], ◌∷◌, Text, text_eq_iff, length, arith, ok,
}
use sqlc_gen_unison.Ir.{Arg}
use sqlc_gen_unison.Strings.{count}
use sqlc_gen_unison.Converge.Slices.{check_from, check_expansions}

-- Only the last placeholder may expand, and the statement then holds its site once.
abbrev pub IsExpandable : Text → List Arg → Type 0
IsExpandable text [] = Unit
IsExpandable text (a ∷ []) = (a.expand ≡ []) ⊎ (count text a.expand ≡ 1)
IsExpandable text (a ∷ b ∷ args) = (a.expand ≡ []) × IsExpandable text (b ∷ args)

check_from-IsExpandable :
    (text : Text) (i total : ℕ) (args : List Arg)
    → total ≡ i + length args
    → check_from text i total args ≡ ok tt
    → IsExpandable text args
unfolding check_from
check_from-IsExpandable text i total [] h e = tt
check_from-IsExpandable text i total (a ∷ []) h e = ground (arith, text_eq_iff a.expand [])
check_from-IsExpandable text i total (a ∷ b ∷ args) h e = (
  ground (arith, text_eq_iff a.expand []),
  check_from-IsExpandable text (i + 1) total (b ∷ args) (omega arith)
      (ground (arith, text_eq_iff a.expand [])),
)

IsExpandable-check_from :
    (text : Text) (i total : ℕ) (args : List Arg)
    → total ≡ i + length args
    → IsExpandable text args
    → check_from text i total args ≡ ok tt
unfolding check_from
IsExpandable-check_from text i total [] h v = refl
IsExpandable-check_from text i total (a ∷ []) h v = ground (arith, text_eq_iff a.expand [])
IsExpandable-check_from text i total (a ∷ b ∷ args) h (v, vs) = ground (
  arith,
  text_eq_iff a.expand [],
  IsExpandable-check_from text (i + 1) total (b ∷ args) (omega arith) vs,
)

-- A statement passes exactly when no placeholder but the last expands, and the expansion site of the
-- last, if it has one, occurs in the text exactly once.
pub check_expansions_iff :
    (text : Text) (args : List Arg) → (check_expansions text args ≡ ok tt) ↔ IsExpandable text args
unfolding check_expansions
check_expansions_iff text args = (
  check_from-IsExpandable text 0 (length args) args (omega arith),
  IsExpandable-check_from text 0 (length args) args (omega arith),
)
