-- ===== src/Base/Bytes.antt =====
-- Go strings as lists of bytes. A literal of ASCII is written `codes "..."`: its code points are its
-- bytes.
use Prim.Native.Nat.{ℕ}
use Prim.Native.Char.{code}
use Prim.Native.String.{String}
use mathlib.Core.Path.{◌≡◌, refl}
use mathlib.Core.Logic.{◌↔◌}
use mathlib.Core.Bool.{Bool, true, false, ◌&&◌, ◌||◌}
use mathlib.Core.List.{List, [], ◌∷◌}
use native.Mathlib.Omega.{arith}
use sqlc_gen_unison.Base.Tests.{◌==◌}
use sqlc_gen_unison.Base.Lists.{any, All}

abbrev pub Text : Type 0
Text = List ℕ

abbrev pub codes : String → Text
codes String.[] = []
codes (String.◌∷◌ c s) = code c ∷ codes s

unfoldable pub text_eq : Text → Text → Bool
text_eq [] [] = true
text_eq (a ∷ s) (b ∷ t) = (a == b) && text_eq s t
text_eq _ _ = false

pub text_eq_iff : (s t : Text) → (text_eq s t ≡ true) ↔ (s ≡ t)
unfolding text_eq
text_eq_iff [] [] = ground arith
text_eq_iff [] (b ∷ t) = ground arith
text_eq_iff (a ∷ s) [] = ground arith
text_eq_iff (a ∷ s) (b ∷ t) = ground (arith, text_eq_iff s t)

pub text_eq_refl : (s : Text) → text_eq s s ≡ true
text_eq_refl s = (text_eq_iff s s).1 refl

-- `slices.Contains` at strings.
unfoldable pub text_mem : Text → List Text → Bool
unfolding any text_eq
text_mem s ts = any (λ t. text_eq s t) ts

pub text_mem-cons :
    (a x : Text) (xs : List Text) → text_mem a (x ∷ xs) ≡ (text_eq a x || text_mem a xs)
unfolding text_mem any
text_mem-cons a x xs = refl

pub All_of_mem :
    {P : Text → Type 0} (ds : List Text) → ((d : Text) → text_mem d ds ≡ true → P d) → All P ds
All_of_mem [] h = tt
All_of_mem (d ∷ ds) h = (
  h d (ground (arith, text_mem-cons d d ds, text_eq_refl d)),
  All_of_mem ds (λ x k. h x (ground (arith, text_mem-cons x d ds))),
)
