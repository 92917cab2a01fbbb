-- ===== src/Base/Order.antt =====
-- `strings.Compare` as a total order, and sorting by a Boolean test. The runtime sorts in place by
-- an algorithm of its own; the model inserts one element at a time. Where the test is a total order
-- the result is the same list; elements that compare equal keep their order here, which the
-- runtime does not promise.
use Prim.Native.Nat.{suc}
use mathlib.Core.Path.{◌≡◌, refl, ◌∙◌, ap₂}
use mathlib.Core.Logic.{inl, inr, ∥∥₁_elim}
use mathlib.Core.Bool.{Bool, true, false, ◌||◌}
use mathlib.Core.List.{List, [], ◌∷◌, Perm, Permᴰ}
use mathlib.Core.List.Perm
use native.Mathlib.Omega.{arith}
use sqlc_gen_unison.Base.Tests.{ltb, ◌==◌, if◌then◌else◌, Bool-cases}
use sqlc_gen_unison.Base.Lists.{All, All-map, any, length}
use sqlc_gen_unison.Base.Bytes.{Text}

-- `strings.Compare(s, t) <= 0`
unfoldable pub text_le : Text → Text → Bool
text_le [] t = true
text_le (a ∷ s) [] = false
text_le (a ∷ s) (b ∷ t) = if ltb a b then true else if a == b then text_le s t else false

pub text_le_refl : (s : Text) → text_le s s ≡ true
unfolding text_le
text_le_refl [] = refl
text_le_refl (a ∷ s) = ground (arith, text_le_refl s)

pub text_le_total : (s t : Text) → text_le s t ≡ false → text_le t s ≡ true
unfolding text_le
text_le_total [] t h = cc
text_le_total (a ∷ s) [] h = refl
text_le_total (a ∷ s) (b ∷ t) h = ground (arith, text_le_total s t)

pub text_le_trans : (r s t : Text) → text_le r s ≡ true → text_le s t ≡ true → text_le r t ≡ true
unfolding text_le
text_le_trans [] s t h k = refl
text_le_trans (a ∷ r) [] t h k = cc
text_le_trans (a ∷ r) (b ∷ s) [] h k = cc
text_le_trans (a ∷ r) (b ∷ s) (c ∷ t) h k = ground (arith, text_le_trans r s t)

pub text_le_antisymm : (s t : Text) → text_le s t ≡ true → text_le t s ≡ true → s ≡ t
unfolding text_le
text_le_antisymm [] [] h k = refl
text_le_antisymm [] (b ∷ t) h k = cc
text_le_antisymm (a ∷ s) [] h k = cc
text_le_antisymm (a ∷ s) (b ∷ t) h k = ground (arith, text_le_antisymm s t)

-- A test that decides a total preorder.
pub record IsOrder {ℓ} {A : Type ℓ} (le : A → A → Bool) : Type ℓ where
  pub total : (a b : A) → le a b ≡ false → le b a ≡ true
  pub trans : (a b c : A) → le a b ≡ true → le b c ≡ true → le a c ≡ true

abbrev pub text_order : IsOrder text_le
text_order = record { total = text_le_total; trans = text_le_trans }

module _ {ℓ} {A : Type ℓ} (le : A → A → Bool) where
  unfoldable pub insert_by : A → List A → List A
  insert_by x [] = x ∷ []
  insert_by x (y ∷ ys) = if le x y then x ∷ y ∷ ys else y ∷ insert_by x ys

  -- `slices.SortFunc`, `slices.Sort`, `sort.Strings`
  unfoldable pub sort_by : List A → List A
  unfolding insert_by
  sort_by [] = []
  sort_by (x ∷ xs) = insert_by x (sort_by xs)

  -- Every element is at most each one behind it.
  abbrev pub IsSorted : List A → Type ℓ
  IsSorted [] = Unit
  IsSorted (x ∷ xs) = All (λ y. le x y ≡ true) xs × IsSorted xs

  insert_by-All :
      (a x : A) (xs : List A)
      → le a x ≡ true
      → All (λ y. le a y ≡ true) xs
      → All (λ y. le a y ≡ true) (insert_by x xs)
  unfolding insert_by
  insert_by-All a x [] h hs = (h, tt)
  insert_by-All a x (y ∷ ys) h (k, hs) = elim (Bool-cases (le x y)) [
    | inl e ↦ rw (e, insert_by) (h, (k, hs))
    | inr e ↦ rw (e, insert_by) (k, insert_by-All a x ys h hs)
  ]

  pub insert_by-perm : (x : A) (xs : List A) → Perm (insert_by x xs) (x ∷ xs)
  unfolding insert_by
  insert_by-perm x [] = Perm.rfl
  insert_by-perm x (y ∷ ys) = elim (Bool-cases (le x y)) [
    | inl e ↦ rw (e, insert_by) Perm.rfl
    | inr e ↦ rw (e, insert_by) (Perm.trans (Perm.cons y (insert_by-perm x ys)) (Perm.swap x y ys))
  ]

  pub sort_by-perm : (xs : List A) → Perm (sort_by xs) xs
  unfolding sort_by
  sort_by-perm [] = Perm.rfl
  sort_by-perm (x ∷ xs) = Perm.trans (insert_by-perm x (sort_by xs)) (Perm.cons x (sort_by-perm xs))

  length-insert_by : (x : A) (xs : List A) → length (insert_by x xs) ≡ suc (length xs)
  unfolding insert_by
  length-insert_by x [] = refl
  length-insert_by x (y ∷ ys) = ground (arith, length-insert_by x ys)

  pub length-sort_by : (xs : List A) → length (sort_by xs) ≡ length xs
  unfolding sort_by
  length-sort_by [] = refl
  length-sort_by (x ∷ xs) = omega (arith, length-insert_by x (sort_by xs), length-sort_by xs)

  -- Sorting changes no membership.
  any-insert_by : (p : A → Bool) (x : A) (xs : List A) → any p (insert_by x xs) ≡ (p x || any p xs)
  unfolding insert_by any
  any-insert_by p x [] = refl
  any-insert_by p x (y ∷ ys) = ground (arith, any-insert_by p x ys)

  pub any-sort_by : (p : A → Bool) (xs : List A) → any p (sort_by xs) ≡ any p xs
  unfolding sort_by any
  any-sort_by p [] = refl
  any-sort_by p (x ∷ xs) = rw (any-insert_by p x (sort_by xs), any-sort_by p xs)

  -- A sorted list is left as it is.
  pub sort_by_of_IsSorted : (xs : List A) → IsSorted xs → sort_by xs ≡ xs
  unfolding sort_by
  sort_by_of_IsSorted [] _ = refl
  sort_by_of_IsSorted (x ∷ []) _ = refl
  sort_by_of_IsSorted (x ∷ y ∷ ys) ((h, _), s) =
      rw (sort_by_of_IsSorted (y ∷ ys) s) (rw (h, insert_by))

  module _ (o : IsOrder le) where
    insert_by-IsSorted : (x : A) (xs : List A) → IsSorted xs → IsSorted (insert_by x xs)
    unfolding insert_by
    insert_by-IsSorted x [] _ = (tt, tt)
    insert_by-IsSorted x (y ∷ ys) (h, s) = elim (Bool-cases (le x y)) [
      | inl e ↦ rw (e, insert_by) (((e, All-map (λ z k. o.trans x y z e k) ys h)), (h, s))
      | inr e ↦
          rw (e, insert_by) (insert_by-All y x ys (o.total x y e) h, insert_by-IsSorted x ys s)
    ]

    pub sort_by-IsSorted : (xs : List A) → IsSorted (sort_by xs)
    unfolding sort_by
    sort_by-IsSorted [] = tt
    sort_by-IsSorted (x ∷ xs) = insert_by-IsSorted x (sort_by xs) (sort_by-IsSorted xs)

    module _ (antisymm : (a b : A) → le a b ≡ true → le b a ≡ true → a ≡ b) where
      insert_by_comm :
          (x y : A) (xs : List A) → insert_by x (insert_by y xs) ≡ insert_by y (insert_by x xs)
      unfolding insert_by
      insert_by_comm x y [] = ground (arith, antisymm x y, o.total x y)
      insert_by_comm x y (z ∷ zs) = ground (
        arith,
        insert_by_comm x y zs,
        antisymm x y,
        o.total x y,
        o.total y x,
        o.trans x y z,
        o.trans y x z,
        o.total x z,
        o.total y z,
      )

      sort_by-permᴰ : {xs ys : List A} → Permᴰ xs ys → sort_by xs ≡ sort_by ys
      unfolding sort_by
      sort_by-permᴰ Permᴰ.nil = refl
      sort_by-permᴰ (Permᴰ.cons e p) = ap₂ insert_by e (sort_by-permᴰ p)
      sort_by-permᴰ (Permᴰ.swap {a} {b} {l} e f) =
          insert_by_comm a b (sort_by l) ∙ ap₂ (λ u v. insert_by u (insert_by v (sort_by l))) f e
      sort_by-permᴰ (Permᴰ.trans p q) = sort_by-permᴰ p ∙ sort_by-permᴰ q

      -- Where elements that compare equal are equal, the input's order does not matter.
      pub sort_by-eq_of_perm : IsSet A → {xs ys : List A} → Perm xs ys → sort_by xs ≡ sort_by ys
      sort_by-eq_of_perm A_set p = ∥∥₁_elim p (hlevel A_set) sort_by-permᴰ
