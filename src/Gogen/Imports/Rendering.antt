-- ===== src/Gogen/Imports/Rendering.antt =====
-- internal/emit/gogen/types.go, `importSet`: the block is a function of the set of paths.
use sqlc_gen_unison.Base.{
  ◌≡◌, ◌≢◌, refl, sym, ap, ◌∙◌, inl, inr, Bool, false, ◌&&◌, ◌||◌, not, List, [], ◌∷◌, Text,
  text_eq, text_eq_iff, text_mem, text_mem-cons, any, length, ◌==◌, arith, All, Bool-cases,
}
use sqlc_gen_unison.Base.Order.{text_le, sort_by}
use sqlc_gen_unison.Base.Sets.{AreDistinct, SameMembers, sort_by-eq_of_SameMembers}
use sqlc_gen_unison.Gogen.Imports.{ImportSet, no_imports, add, is_stdlib, keep, render}

All-ne_of_text_mem : (a : Text) (xs : List Text) → text_mem a xs ≡ false → All (λ y. a ≢ y) xs
unfolding text_mem any
All-ne_of_text_mem a [] h = tt
All-ne_of_text_mem a (x ∷ xs) h =
    ((λ e. ground (arith, text_eq_iff a x)), All-ne_of_text_mem a xs (ground arith))

pub add-AreDistinct : (path : Text) (s : ImportSet) → AreDistinct s → AreDistinct (add path s)
unfolding add
add-AreDistinct path s h = elim (Bool-cases (text_mem path s)) [
  | inl e ↦ rw (e, add) h
  | inr e ↦ rw (e, add) (All-ne_of_text_mem path s e, h)
]

pub text_mem-add :
    (a path : Text) (s : ImportSet) → text_mem a (add path s) ≡ (text_eq a path || text_mem a s)
unfolding add
text_mem-add a path s = ground (arith, text_mem-cons a path s, text_eq_iff a path)

keep-All : (P : Text → Type 0) (p : Text → Bool) (xs : List Text) → All P xs → All P (keep p xs)
unfolding keep
keep-All P p [] h = tt
keep-All P p (x ∷ xs) (h, hs) = elim (Bool-cases (p x)) [
  | inl e ↦ rw (e, keep) (h, keep-All P p xs hs)
  | inr e ↦ rw (e, keep) (keep-All P p xs hs)
]

keep-AreDistinct : (p : Text → Bool) (xs : List Text) → AreDistinct xs → AreDistinct (keep p xs)
unfolding keep
keep-AreDistinct p [] h = tt
keep-AreDistinct p (x ∷ xs) (h, hs) = elim (Bool-cases (p x)) [
  | inl e ↦ rw (e, keep) (keep-All (λ y. x ≢ y) p xs h, keep-AreDistinct p xs hs)
  | inr e ↦ rw (e, keep) (keep-AreDistinct p xs hs)
]

text_mem-keep :
    (p : Text → Bool) (a : Text) (xs : List Text) → text_mem a (keep p xs) ≡ (p a && text_mem a xs)
unfolding keep text_mem any
text_mem-keep p a [] = ground arith
text_mem-keep p a (x ∷ xs) = ground (arith, text_mem-keep p a xs, text_eq_iff a x)

keep-SameMembers :
    (p : Text → Bool) (xs ys : List Text) → SameMembers xs ys → SameMembers (keep p xs) (keep p ys)
keep-SameMembers p xs ys h a =
    text_mem-keep p a xs ∙ ap (λ b. p a && b) (h a) ∙ sym (text_mem-keep p a ys)

sort_keep :
    (p : Text → Bool) (xs ys : List Text)
    → AreDistinct xs
    → AreDistinct ys
    → SameMembers xs ys
    → sort_by text_le (keep p xs) ≡ sort_by text_le (keep p ys)
sort_keep p xs ys hx hy h =
    sort_by-eq_of_SameMembers (keep p xs) (keep p ys) (keep-AreDistinct p xs hx)
      (keep-AreDistinct p ys hy) (keep-SameMembers p xs ys h)

is_empty_of_SameMembers :
    (xs ys : List Text) → SameMembers xs ys → (length xs == 0) ≡ (length ys == 0)
unfolding text_mem any
is_empty_of_SameMembers [] [] h = refl
is_empty_of_SameMembers [] (y ∷ ys) h = ground (arith, h y, text_eq_iff y y)
is_empty_of_SameMembers (x ∷ xs) [] h = ground (arith, h x, text_eq_iff x x)
is_empty_of_SameMembers (x ∷ xs) (y ∷ ys) h = ground arith

-- `add` for each path of a list.
unfoldable pub add_all : List Text → ImportSet → ImportSet
add_all [] s = s
add_all (path ∷ paths) s = add_all paths (add path s)

add_all-AreDistinct :
    (paths : List Text) (s : ImportSet) → AreDistinct s → AreDistinct (add_all paths s)
unfolding add_all
add_all-AreDistinct [] s h = h
add_all-AreDistinct (path ∷ paths) s h =
    add_all-AreDistinct paths (add path s) (add-AreDistinct path s h)

text_mem-add_all :
    (a : Text) (paths : List Text) (s : ImportSet)
    → text_mem a (add_all paths s) ≡ (text_mem a paths || text_mem a s)
unfolding add_all text_mem any
text_mem-add_all a [] s = refl
text_mem-add_all a (path ∷ paths) s =
    ground (arith, text_mem-add_all a paths (add path s), text_mem-add a path s)

render-eq :
    (s t : ImportSet) → AreDistinct s → AreDistinct t → SameMembers s t → render s ≡ render t
unfolding render
render-eq s t hs ht h = rw (is_empty_of_SameMembers s t h) (
    rw (sort_keep is_stdlib s t hs ht h) (rw (sort_keep (λ p. not (is_stdlib p)) s t hs ht h) refl))

-- The import block depends only on which paths were added: neither on their order nor on how often
-- each was added.
pub render-add_all :
    (ps qs : List Text)
    → SameMembers ps qs
    → render (add_all ps no_imports) ≡ render (add_all qs no_imports)
render-add_all ps qs h =
    render-eq (add_all ps no_imports) (add_all qs no_imports) (add_all-AreDistinct ps no_imports tt)
      (add_all-AreDistinct qs no_imports tt)
      (λ a.
        text_mem-add_all a ps no_imports
        ∙ ap (λ b. b || text_mem a no_imports) (h a)
        ∙ sym (text_mem-add_all a qs no_imports))
