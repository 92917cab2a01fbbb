-- ===== src/Base/Sets.antt =====
-- Lists of texts as sets: the same members, each once, give the same sorted list.
use mathlib.Core.Path.{◌≡◌, refl, sym, ◌∙◌}
use mathlib.Core.Logic.{◌↔◌, ◌≢◌, inl, inr}
use mathlib.Core.Logic.Or
use mathlib.Core.Bool.{true, false}
use mathlib.Core.List.{
  List, [], ◌∷◌, Mem, Nodup, Nodup-nil, Nodup-cons, mem-cons, not-mem-nil, perm_ext_iff_of_Nodup,
}
use native.Mathlib.Omega.{arith}
use sqlc_gen_unison.Base.Tests.{Bool-cases}
use sqlc_gen_unison.Base.Lists.{All, any}
use sqlc_gen_unison.Base.Bytes.{Text, text_eq, text_eq_iff, text_mem}
use sqlc_gen_unison.Base.Order.{text_le, text_order, text_le_antisymm, sort_by, sort_by-eq_of_perm}

-- No text occurs twice.
abbrev pub AreDistinct : List Text → Type 0
AreDistinct [] = Unit
AreDistinct (x ∷ xs) = All (λ y. x ≢ y) xs × AreDistinct xs

text_mem-Mem : (a : Text) (xs : List Text) → (text_mem a xs ≡ true) ↔ Mem a xs
unfolding text_mem any
text_mem-Mem a [] = (λ h. cc, λ m. absurd (not-mem-nil m))
text_mem-Mem a (x ∷ xs) = (
  λ h. elim (Bool-cases (text_eq a x)) [
    | inl e ↦ mem-cons.1 (Or.inl ((text_eq_iff a x).0 e))
    | inr e ↦ mem-cons.1 (Or.inr ((text_mem-Mem a xs).0 (ground arith)))
  ],
  λ m.
      Or.elim (hlevel) (mem-cons.0 m) (λ e. ground (arith, text_eq_iff a x))
        (λ k. let later = (text_mem-Mem a xs).1 k in ground arith),
)

text_mem_of_All-ne : (a : Text) (xs : List Text) → All (λ y. a ≢ y) xs → text_mem a xs ≡ false
unfolding text_mem any
text_mem_of_All-ne a [] _ = refl
text_mem_of_All-ne a (x ∷ xs) (h, hs) = ground (arith, text_eq_iff a x, text_mem_of_All-ne a xs hs)

AreDistinct-Nodup : (xs : List Text) → AreDistinct xs → Nodup xs
AreDistinct-Nodup [] _ = Nodup-nil
AreDistinct-Nodup (x ∷ xs) (h, hs) = Nodup-cons.1 (
  (λ m. let e = (text_mem-Mem x xs).1 m in ground (arith, text_mem_of_All-ne x xs h)),
  AreDistinct-Nodup xs hs,
)

abbrev pub SameMembers : List Text → List Text → Type 0
SameMembers xs ys = (a : Text) → text_mem a xs ≡ text_mem a ys

pub sort_by-eq_of_SameMembers :
    (xs ys : List Text)
    → AreDistinct xs
    → AreDistinct ys
    → SameMembers xs ys
    → sort_by text_le xs ≡ sort_by text_le ys
sort_by-eq_of_SameMembers xs ys hx hy same =
    sort_by-eq_of_perm text_le text_order text_le_antisymm (hlevel) (
      (perm_ext_iff_of_Nodup (AreDistinct-Nodup xs hx) (AreDistinct-Nodup ys hy)).1 (λ a. (
        (λ m. (text_mem-Mem a ys).0 (sym (same a) ∙ (text_mem-Mem a xs).1 m)),
        (λ m. (text_mem-Mem a xs).0 (same a ∙ (text_mem-Mem a ys).1 m)),
      )))
