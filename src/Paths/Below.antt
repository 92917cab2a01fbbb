-- ===== src/Paths/Below.antt =====
-- `filepath.Join` of a directory and the name of a file: the path is below the directory.
use sqlc_gen_unison.Base.{
  ◌≡◌, refl, sym, ap, subst, ◌∙◌, true, false, List, [], ◌∷◌, ◌++◌, append_assoc, Text, codes, any,
  ◌==◌, arith, All,
}
use sqlc_gen_unison.Strings.{join, has_prefix}
use sqlc_gen_unison.Strings.Laws.{has_prefix-append}
use sqlc_gen_unison.Paths.{split, walk, rev_onto, is_below, join_path}
use sqlc_gen_unison.Paths.Relative.{
  IsName, NoSlash, absolute, join_path-absolute, split-name, step_into-name, rev_onto-append,
}
use sqlc_gen_unison.Paths.Clean.{IsAbsolute}

-- A directory below the root, by its clean path.
abbrev pub IsDirectory : Text → Type 0
IsDirectory dir =
    (name : Text) × (names : List Text) × All IsName (name ∷ names)
    × (dir ≡ absolute (name ∷ names))

pub IsDirectory-IsAbsolute : (dir : Text) → IsDirectory dir → IsAbsolute dir
IsDirectory-IsAbsolute dir (name, names, h, e) = (name ∷ names, h, e)

pub NoSlash-of_any : (s : Text) → any (λ c. c == b'/') s ≡ false → NoSlash s
unfolding any
NoSlash-of_any [] h = tt
NoSlash-of_any (c ∷ s) h = ((λ e. ground arith), NoSlash-of_any s (ground arith))

has_prefix_self : (s : Text) → has_prefix s s ≡ true
unfolding has_prefix
has_prefix_self [] = refl
has_prefix_self (c ∷ s) = ground (arith, has_prefix_self s)

join-append :
    (x : Text) (xs : List Text) (y : Text)
    → join (x ∷ xs ++ y ∷ []) (codes "/") ≡ join (x ∷ xs) (codes "/") ++ codes "/" ++ y
unfolding join
join-append x [] y = refl
join-append x (x' ∷ xs) y =
    ap (λ s. x ++ codes "/" ++ s) (join-append x' xs y)
    ∙ sym (append_assoc (x ++ codes "/") (join (x' ∷ xs) (codes "/") ++ codes "/") y)
    ∙ ap (λ s. s ++ y)
        (sym (append_assoc (x ++ codes "/") (join (x' ∷ xs) (codes "/")) (codes "/")))

walk-name :
    (n : Text) (ns : List Text) (name : Text)
    → IsName name
    → walk true (rev_onto (n ∷ ns) []) (split name) ≡ rev_onto ((n ∷ ns) ++ name ∷ []) []
unfolding walk
walk-name n ns name k =
    ap (walk true (rev_onto (n ∷ ns) [])) (split-name name k.no_slash)
    ∙ step_into-name true (rev_onto (n ∷ ns) []) name k
    ∙ sym (rev_onto-append (n ∷ ns) (name ∷ []) [])

-- The path of a file in a directory.
pub join_path-name :
    (dir name : Text)
    → IsDirectory dir
    → IsName name
    → join_path dir name ≡ dir ++ codes "/" ++ name
join_path-name dir name (n, ns, h, e) k =
    ap (λ d. join_path d name) e
    ∙ join_path-absolute (n ∷ ns) name ((n ∷ ns) ++ name ∷ []) h (walk-name n ns name k)
    ∙ ap (λ s. b'/' ∷ s) (join-append n ns name)
    ∙ ap (λ d. d ++ codes "/" ++ name) (sym e)

pub is_below-join_path :
    (dir name : Text) → IsDirectory dir → IsName name → is_below dir (join_path dir name) ≡ true
unfolding is_below
is_below-join_path dir name v k =
    let prefixed =
      has_prefix-append (dir ++ codes "/") name (dir ++ codes "/")
        (has_prefix_self (dir ++ codes "/")) in
    subst (λ p. is_below dir p ≡ true) (sym (join_path-name dir name v k))
      (ground (arith, prefixed))
