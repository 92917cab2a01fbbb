-- ===== src/Paths/Clean.antt =====
-- `filepath.Clean` and `filepath.Join` on paths from the root: what they give is clean.
use sqlc_gen_unison.Base.{
  ◌≡◌, refl, subst, inl, inr, true, false, ◌||◌, List, [], ◌∷◌, ◌++◌, Text, codes, text_eq,
  text_eq_iff, ◌==◌, arith, All, Bool-cases,
}
use sqlc_gen_unison.Paths.{
  split, is_rooted, go_up, step_into, walk, rev_onto, elements_of, print, clean, join_path,
}
use sqlc_gen_unison.Paths.Relative.{IsName, NoSlash, absolute, split-cons}

abbrev pub IsAbsolute : Text → Type 0
IsAbsolute s = (names : List Text) × All IsName names × (s ≡ absolute names)

split-NoSlash : (s : Text) → All NoSlash (split s)
unfolding split
split-NoSlash [] = (tt, tt)
split-NoSlash (c ∷ s) =
    let (part, parts, h) = split-cons s in
    let rest : All NoSlash (part ∷ parts) = subst (All NoSlash) h (split-NoSlash s) in
    let (here, later) = rest in
    elim (Bool-cases (c == b'/')) [
      | inl e ↦ rw e (tt, split-NoSlash s)
      | inr e ↦ rw (e, h) (((λ q. ground arith), here), later)
    ]

go_up-IsName : (st : List Text) → All IsName st → All IsName (go_up true st)
unfolding go_up
go_up-IsName [] h = tt
go_up-IsName (x ∷ st) (n, h) =
    let no : text_eq x (codes "..") ≡ false = elim (Bool-cases (text_eq x (codes ".."))) [
      | inl e ↦ absurd (n.not_up ((text_eq_iff x (codes "..")).0 e))
      | inr e ↦ e
    ] in
    rw no h

step_into-IsName :
    (st : List Text) (s : Text) → NoSlash s → All IsName st → All IsName (step_into true st s)
unfolding step_into go_up
step_into-IsName st s free h = elim (Bool-cases (text_eq s [] || text_eq s (codes "."))) [
  | inl e ↦ rw e h
  | inr e ↦ elim (Bool-cases (text_eq s (codes ".."))) [
    | inl f ↦ rw (e, f) (go_up-IsName st h)
    | inr f ↦
        rw (e, f)
          (
            record {
              no_slash = free;
              not_empty = λ q. ground (arith, text_eq_iff s []);
              not_here = λ q. ground (arith, text_eq_iff s (codes "."));
              not_up = λ q. ground (arith, text_eq_iff s (codes ".."));
            },
            h,
          )
  ]
]

walk-IsName : (st xs : List Text) → All NoSlash xs → All IsName st → All IsName (walk true st xs)
unfolding walk
walk-IsName st [] _ h = h
walk-IsName st (x ∷ xs) (free, rest) h =
    walk-IsName (step_into true st x) xs rest (step_into-IsName st x free h)

rev_onto-All : (xs ys : List Text) → All IsName xs → All IsName ys → All IsName (rev_onto xs ys)
rev_onto-All [] ys _ h = h
rev_onto-All (x ∷ xs) ys (p, ps) h = rev_onto-All xs (x ∷ ys) ps (p, h)

pub clean-IsAbsolute : (s : Text) → is_rooted s ≡ true → IsAbsolute (clean s)
unfolding clean print elements_of
clean-IsAbsolute s h =
    (_, rev_onto-All _ [] (walk-IsName [] (split s) (split-NoSlash s) tt) tt, rw h refl)

pub join_path-IsAbsolute : (a b : Text) → is_rooted a ≡ true → IsAbsolute (join_path a b)
unfolding join_path
join_path-IsAbsolute [] b h = cc
join_path-IsAbsolute (c ∷ s) b h = clean-IsAbsolute ((c ∷ s) ++ b'/' ∷ b) h
