-- ===== src/Paths/Relative.antt =====
-- `filepath.Rel` against `filepath.Join`: a relative path leads back to its target.
use sqlc_gen_unison.Base.{
  ◌≡◌, ◌≢◌, refl, ap, ◌∙◌, inl, inr, Bool, true, some, List, [], ◌∷◌, ◌++◌, Text, codes, text_eq,
  text_eq_iff, ◌==◌, arith, All, Bool-cases, append-nil, append_assoc, All-map, All-append,
}
use sqlc_gen_unison.Strings.{join}
use sqlc_gen_unison.Paths.{
  split, go_up, step_into, walk, rev_onto, elements_of, print, clean, join_path, strip, ups,
  descend, rel,
}

-- One element of a clean path.
pub record IsName (s : Text) : Type 0 where
  pub no_slash : All (λ c. c ≢ b'/') s
  pub not_empty : s ≢ []
  pub not_here : s ≢ codes "."
  pub not_up : s ≢ codes ".."

-- The clean path from the root through some elements.
abbrev pub absolute : List Text → Text
absolute names = b'/' ∷ join names (codes "/")

-- There is one element at least.
pub split-cons : (s : Text) → (part : Text) × (parts : List Text) × (split s ≡ part ∷ parts)
unfolding split
split-cons [] = ([], [], refl)
split-cons (c ∷ s) = elim (Bool-cases (c == b'/')) [
  | inl e ↦ ([], split s, rw e refl)
  | inr e ↦ let (part, parts, h) = split-cons s in (c ∷ part, parts, rw (e, h) refl)
]

split-append : (s t : Text) → split (s ++ b'/' ∷ t) ≡ split s ++ split t
unfolding split
split-append [] t = refl
split-append (c ∷ s) t =
    let (part, parts, h) = split-cons s in
    elim (Bool-cases (c == b'/')) [
      | inl e ↦ rw (e, split-append s t) refl
      | inr e ↦ rw (e, split-append s t, h) refl
    ]

pub split-name : (s : Text) → All (λ c. c ≢ b'/') s → split s ≡ s ∷ []
unfolding split
split-name [] h = refl
split-name (c ∷ s) (h, hs) = ground (arith, split-name s hs)

walk-append : (r : Bool) (st xs ys : List Text) → walk r st (xs ++ ys) ≡ walk r (walk r st xs) ys
unfolding walk
walk-append r st [] ys = refl
walk-append r st (x ∷ xs) ys = walk-append r (step_into r st x) xs ys

abbrev pub NoSlash : Text → Type 0
NoSlash s = All (λ c. c ≢ b'/') s

walk-join :
    (r : Bool) (st xs : List Text)
    → All NoSlash xs
    → walk r st (split (join xs (codes "/"))) ≡ walk r st xs
unfolding walk join
walk-join r st [] h = unfold split step_into in refl
walk-join r st (x ∷ []) (h, _) = ap (walk r st) (split-name x h)
walk-join r st (x ∷ y ∷ ys) (h, hs) =
    ap (λ s. walk r st (split s)) (append_assoc x (codes "/") (join (y ∷ ys) (codes "/")))
    ∙ ap (walk r st) (split-append x (join (y ∷ ys) (codes "/")))
    ∙ ap (λ xs. walk r st (xs ++ split (join (y ∷ ys) (codes "/")))) (split-name x h)
    ∙ walk-join r (step_into r st x) (y ∷ ys) hs

pub step_into-name : (r : Bool) (st : List Text) (s : Text) → IsName s → step_into r st s ≡ s ∷ st
unfolding step_into
step_into-name r st s n = ground (
  arith,
  text_eq_iff s [],
  text_eq_iff s (codes "."),
  text_eq_iff s (codes ".."),
  n.not_empty,
  n.not_here,
  n.not_up,
)

pub walk-names : (r : Bool) (st xs : List Text) → All IsName xs → walk r st xs ≡ rev_onto xs st
unfolding walk
walk-names r st [] h = refl
walk-names r st (x ∷ xs) (h, hs) = rw (step_into-name r st x h) (walk-names r (x ∷ st) xs hs)

step_into-up : (st : List Text) (s : Text) → IsName s → step_into true (s ∷ st) (codes "..") ≡ st
unfolding step_into go_up
step_into-up st s n = ground (arith, text_eq_iff s (codes ".."), n.not_up)

ups-end : (bs : List Text) → codes ".." ∷ ups bs ≡ ups bs ++ codes ".." ∷ []
ups-end [] = refl
ups-end (b ∷ bs) = ap (λ xs. codes ".." ∷ xs) (ups-end bs)

walk-ups : (bs st : List Text) → All IsName bs → walk true (rev_onto bs st) (ups bs) ≡ st
unfolding walk
walk-ups [] st h = refl
walk-ups (b ∷ bs) st (h, hs) =
    ap (walk true (rev_onto bs (b ∷ st))) (ups-end bs)
    ∙ walk-append true (rev_onto bs (b ∷ st)) (ups bs) (codes ".." ∷ [])
    ∙ ap (λ s. step_into true s (codes "..")) (walk-ups bs (b ∷ st) hs)
    ∙ step_into-up st b h

-- What is left behind the shared elements leads from the one path to the other.
walk-strip :
    (bs ts st : List Text)
    → All IsName bs
    → All IsName ts
    → let (up, down) = strip bs ts in walk true (rev_onto bs st) (ups up ++ down) ≡ rev_onto ts st
unfolding strip
walk-strip [] ts st hb ht = walk-names true st ts ht
walk-strip (b ∷ bs) [] st hb ht =
    ap (walk true (rev_onto (b ∷ bs) st)) (append-nil _) ∙ walk-ups (b ∷ bs) st hb
walk-strip (b ∷ bs) (t ∷ ts) st (hb, hbs) (ht, hts) = elim (Bool-cases (text_eq b t)) [
  | inl e ↦
      let same : b ≡ t = (text_eq_iff b t).0 e in
      rw e (rw (← same) (walk-strip bs ts (b ∷ st) hbs hts))
  | inr e ↦ rw e (
      walk-append true (rev_onto (b ∷ bs) st) (ups (b ∷ bs)) (t ∷ ts)
      ∙ ap (λ s. walk true s (t ∷ ts)) (walk-ups (b ∷ bs) st (hb, hbs))
      ∙ walk-names true st (t ∷ ts) (ht, hts))
]

walk-absolute :
    (xs : List Text) → All IsName xs → walk true [] (split (absolute xs)) ≡ rev_onto xs []
unfolding split step_into join walk
walk-absolute xs h =
    walk-join true [] xs (All-map (λ x n. n.no_slash) xs h) ∙ walk-names true [] xs h

rev_onto-rev_onto : (xs ys zs : List Text) → rev_onto (rev_onto xs ys) zs ≡ rev_onto ys (xs ++ zs)
rev_onto-rev_onto [] ys zs = refl
rev_onto-rev_onto (x ∷ xs) ys zs = rev_onto-rev_onto xs (x ∷ ys) zs

pub rev_onto-append : (xs ys zs : List Text) → rev_onto (xs ++ ys) zs ≡ rev_onto ys (rev_onto xs zs)
rev_onto-append [] ys zs = refl
rev_onto-append (x ∷ xs) ys zs = rev_onto-append xs ys (x ∷ zs)

elements_of-absolute : (xs : List Text) → All IsName xs → elements_of (absolute xs) ≡ xs
unfolding elements_of
elements_of-absolute xs h =
    ap (λ s. rev_onto s []) (walk-absolute xs h) ∙ rev_onto-rev_onto xs [] [] ∙ append-nil xs

up_NoSlash : NoSlash (codes "..")
up_NoSlash = ((λ e. omega arith), ((λ e. omega arith), tt))

ups-NoSlash : (bs : List Text) → All NoSlash (ups bs)
ups-NoSlash [] = tt
ups-NoSlash (b ∷ bs) = (up_NoSlash, ups-NoSlash bs)

strip-All :
    (bs ts : List Text)
    → All IsName bs
    → All IsName ts
    → let (up, down) = strip bs ts in All IsName up × All IsName down
unfolding strip
strip-All [] ts hb ht = (tt, ht)
strip-All (b ∷ bs) [] hb ht = (hb, tt)
strip-All (b ∷ bs) (t ∷ ts) (hb, hbs) (ht, hts) = elim (Bool-cases (text_eq b t)) [
  | inl e ↦ rw e (strip-All bs ts hbs hts)
  | inr e ↦ rw e ((hb, hbs), (ht, hts))
]

-- The text of a way down, up first: `.` where there is none.
descend-walk :
    (bs ts st : List Text)
    → All IsName bs
    → All IsName ts
    → (r : Text) × (descend bs ts ≡ some r) × (walk true st (split r) ≡ walk true st (ups bs ++ ts))
descend-walk [] [] st hb ht = (codes ".", refl, unfold walk split step_into in refl)
descend-walk [] (t ∷ ts) st hb ht =
    (_, refl, walk-join true st (t ∷ ts) (All-map (λ x n. n.no_slash) (t ∷ ts) ht))
descend-walk (b ∷ bs) ts st (n, hb) ht = (
  join (ups (b ∷ bs) ++ ts) (codes "/"),
  ground (arith, text_eq_iff b (codes ".."), n.not_up),
  walk-join true st (ups (b ∷ bs) ++ ts) (
      All-append NoSlash (ups (b ∷ bs)) ts (ups-NoSlash (b ∷ bs))
        (All-map (λ x m. m.no_slash) ts ht)),
)

rel-absolute :
    (bs ts : List Text)
    → All IsName bs
    → All IsName ts
    → let (up, down) = strip bs ts in rel (absolute bs) (absolute ts) ≡ descend up down
unfolding rel
rel-absolute bs ts hb ht = rw (elements_of-absolute bs hb, elements_of-absolute ts ht) refl

pub join_path-absolute :
    (bs : List Text) (r : Text) (ts : List Text)
    → All IsName bs
    → walk true (rev_onto bs []) (split r) ≡ rev_onto ts []
    → join_path (absolute bs) r ≡ absolute ts
unfolding join_path clean print elements_of
join_path-absolute bs r ts hb h =
    let parted =
      ap (walk true []) (split-append (absolute bs) r)
      ∙ walk-append true [] (split (absolute bs)) (split r) in
    let walked = parted ∙ ap (λ st. walk true st (split r)) (walk-absolute bs hb) ∙ h in
    ap (λ st. absolute (rev_onto st [])) walked
    ∙ ap absolute (rev_onto-rev_onto ts [] [] ∙ append-nil ts)

-- Between two clean paths from the root there always is a relative path, and joined to the first it
-- is the second.
pub rel-join_path :
    (bs ts : List Text)
    → All IsName bs
    → All IsName ts
    → (r : Text) × (rel (absolute bs) (absolute ts) ≡ some r)
      × (join_path (absolute bs) r ≡ absolute ts)
rel-join_path bs ts hb ht =
    let (hup, hdown) = strip-All bs ts hb ht in
    let (r, found, walked) = descend-walk _ _ (rev_onto bs []) hup hdown in
    (
      r,
      rel-absolute bs ts hb ht ∙ found,
      join_path-absolute bs r ts hb (walked ∙ walk-strip bs ts [] hb ht),
    )
