-- ===== src/Strings/Laws.antt =====
-- Laws of case, trimming and cutting that the components share.
use mathlib.Core.Option
use sqlc_gen_unison.Base.{
  ℕ, ◌≡◌, ◌≢◌, refl, ap, ◌∙◌, true, false, none, some, [], ◌∷◌, ◌++◌, subst, Option-cases, ◌==◌,
  if◌then◌else◌, Text, arith, All, inl, inr,
}
use sqlc_gen_unison.Strings.{
  contains, has_prefix, replace_all, replace_from, cut_prefix, trim_prefix, is_space, trim_left,
  trim_right, trim_space, lower, to_lower, cut_at,
}

pub lower_idem : (c : ℕ) → lower (lower c) ≡ lower c
unfolding lower
lower_idem c = ground arith

pub is_space-lower : (c : ℕ) → is_space (lower c) ≡ is_space c
unfolding lower is_space
is_space-lower c = ground arith

pub to_lower_idem : (s : Text) → to_lower (to_lower s) ≡ to_lower s
unfolding to_lower
to_lower_idem [] = refl
to_lower_idem (c ∷ s) = cc (lower_idem c, to_lower_idem s)

to_lower-trim_left : (s : Text) → to_lower (trim_left s) ≡ trim_left (to_lower s)
unfolding to_lower trim_left
to_lower-trim_left [] = refl
to_lower-trim_left (c ∷ s) = ground (arith, to_lower-trim_left s, is_space-lower c)

to_lower-trim_right : (s : Text) → to_lower (trim_right s) ≡ trim_right (to_lower s)
unfolding to_lower trim_right
to_lower-trim_right [] = refl
to_lower-trim_right (c ∷ s) = ground (arith, to_lower-trim_right s, is_space-lower c)

pub to_lower-trim_space : (s : Text) → to_lower (trim_space s) ≡ trim_space (to_lower s)
unfolding trim_space
to_lower-trim_space s = to_lower-trim_right (trim_left s) ∙ ap trim_right (to_lower-trim_left s)

abbrev pub HasNoSpace : Text → Type 0
HasNoSpace = All (λ c. is_space c ≡ false)

pub trim_left_of_HasNoSpace : (s : Text) → HasNoSpace s → trim_left s ≡ s
unfolding trim_left
trim_left_of_HasNoSpace [] h = refl
trim_left_of_HasNoSpace (c ∷ s) (h, _) = ground arith

-- Text that ends in a byte that is no space keeps its end.
pub trim_right_end :
    (s : Text) (c : ℕ) → is_space c ≡ false → trim_right (s ++ c ∷ []) ≡ s ++ c ∷ []
unfolding trim_right
trim_right_end [] c h = ground arith
trim_right_end (d ∷ []) c h = ground arith
trim_right_end (d ∷ e ∷ s) c h = rw (trim_right_end (e ∷ s) c h, trim_right)

pub trim_right_of_HasNoSpace : (s : Text) → HasNoSpace s → trim_right s ≡ s
unfolding trim_right
trim_right_of_HasNoSpace [] h = refl
trim_right_of_HasNoSpace (c ∷ s) (h, hs) = ground (arith, trim_right_of_HasNoSpace s hs)

pub trim_space_of_HasNoSpace : (s : Text) → HasNoSpace s → trim_space s ≡ s
unfolding trim_space
trim_space_of_HasNoSpace s h =
    ap trim_right (trim_left_of_HasNoSpace s h) ∙ trim_right_of_HasNoSpace s h

cut_prefix-append :
    (s r p : Text) (x : ℕ)
    → All (λ c. c ≢ x) p
    → cut_prefix (s ++ x ∷ r) p ≡ Option.map (λ t. t ++ x ∷ r) (cut_prefix s p)
unfolding cut_prefix
cut_prefix-append s r [] x h = refl
cut_prefix-append [] r (b ∷ p) x (h, _) = ground arith
cut_prefix-append (a ∷ s) r (b ∷ p) x (_, h) = ground (arith, cut_prefix-append s r p x h)

-- A prefix without the byte `x` is cut from what stands before it, or not at all.
pub trim_prefix-append :
    (s r p : Text) (x : ℕ)
    → All (λ c. c ≢ x) p
    → trim_prefix (s ++ x ∷ r) p ≡ trim_prefix s p ++ x ∷ r
unfolding trim_prefix
trim_prefix-append s r p x h = ground (arith, cut_prefix-append s r p x h)

pub cut_at-append : (s r : Text) (x : ℕ) → All (λ c. c ≢ x) s → cut_at x (s ++ x ∷ r) ≡ some s
unfolding cut_at
cut_at-append [] r x h = ground arith
cut_at-append (c ∷ s) r x (h, hs) = ground (arith, cut_at-append s r x hs)

pub cut_at-none : (s : Text) (x : ℕ) → All (λ c. c ≢ x) s → cut_at x s ≡ none
unfolding cut_at
cut_at-none [] x h = refl
cut_at-none (c ∷ s) x (h, hs) = ground (arith, cut_at-none s x hs)

module _ (P : ℕ → Type 0) where
  cut_prefix-All : (s p rest : Text) → cut_prefix s p ≡ some rest → All P s → All P rest
  unfolding cut_prefix
  cut_prefix-All s [] rest e h = subst (All P) (ground arith) h
  cut_prefix-All [] (b ∷ p) rest e h = cc
  cut_prefix-All (a ∷ s) (b ∷ p) rest e (_, h) = cut_prefix-All s p rest (ground arith) h

  pub trim_prefix-All : (s p : Text) → All P s → All P (trim_prefix s p)
  unfolding trim_prefix
  trim_prefix-All s p h = elim (Option-cases (cut_prefix s p)) [
    | inl e ↦ rw (e, trim_prefix) h
    | inr (rest, e) ↦ rw (e, trim_prefix) (cut_prefix-All s p rest e h)
  ]

-- What a part of a text contains, the text contains.
pub contains-behind : (a s p : Text) → contains s p ≡ true → contains (a ++ s) p ≡ true
unfolding contains
contains-behind [] s p h = h
contains-behind (c ∷ a) s p h = ground (arith, contains-behind a s p h)

pub has_prefix-append : (s t p : Text) → has_prefix s p ≡ true → has_prefix (s ++ t) p ≡ true
unfolding has_prefix
has_prefix-append s t [] h = refl
has_prefix-append [] t (b ∷ p) h = cc
has_prefix-append (a ∷ s) t (b ∷ p) h = ground (arith, has_prefix-append s t p)

pub contains-before : (s t p : Text) → contains s p ≡ true → contains (s ++ t) p ≡ true
unfolding contains has_prefix
contains-before [] [] p h = h
contains-before [] (c ∷ t) [] h = refl
contains-before [] (c ∷ t) (b ∷ p) h = cc
contains-before (c ∷ s) t p h = ground (arith, has_prefix-append (c ∷ s) t p, contains-before s t p)

-- One byte is replaced at a time.
pub replace_all-byte :
    (b c : ℕ) (s new : Text)
    → replace_all (c ∷ s) (b ∷ []) new
      ≡ (if c == b then new ++ replace_all s (b ∷ []) new else c ∷ replace_all s (b ∷ []) new)
unfolding replace_all replace_from has_prefix
replace_all-byte b c s new = ground arith
