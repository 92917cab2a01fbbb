-- ===== src/Paths.antt =====
-- The functions of Go's `path/filepath` that internal/orchestrator calls, as they are on Unix, on
-- lists of bytes.
pub mod Relative
pub mod Clean
pub mod Below
use sqlc_gen_unison.Base.{
  ℕ, Bool, true, false, not, ◌||◌, Option, none, some, List, [], ◌∷◌, ◌++◌, Text, codes, text_eq,
  ◌==◌, if◌then◌else◌,
}
use sqlc_gen_unison.Strings.{has_prefix, join}

abbrev pub grow : ℕ → List Text → List Text
grow c [] = (c ∷ []) ∷ []
grow c (part ∷ parts) = (c ∷ part) ∷ parts

-- The elements between the slashes, one at least.
unfoldable pub split : Text → List Text
split [] = [] ∷ []
split (c ∷ s) = let rest = split s in if c == b'/' then [] ∷ rest else grow c rest

abbrev pub is_rooted : Text → Bool
is_rooted (c ∷ s) = c == b'/'
is_rooted [] = false

-- The elements that are kept so far are a stack, the last one first.
unfoldable pub go_up : Bool → List Text → List Text
unfolding text_eq
go_up true [] = []
go_up false [] = codes ".." ∷ []
go_up rooted (top ∷ below) = if text_eq top (codes "..") then codes ".." ∷ top ∷ below else below

unfoldable pub step_into : Bool → List Text → Text → List Text
unfolding go_up text_eq
step_into rooted stack element =
    if text_eq element [] || text_eq element (codes ".")
    then stack
    else if text_eq element (codes "..")
    then go_up rooted stack
    else element ∷ stack

unfoldable pub walk : Bool → List Text → List Text → List Text
walk rooted stack [] = stack
walk rooted stack (element ∷ elements) = walk rooted (step_into rooted stack element) elements

abbrev pub rev_onto : List Text → List Text → List Text
rev_onto [] ys = ys
rev_onto (x ∷ xs) ys = rev_onto xs (x ∷ ys)

unfoldable pub elements_of : Text → List Text
unfolding walk split
elements_of s = rev_onto (walk (is_rooted s) [] (split s)) []

unfoldable pub print : Bool → List Text → Text
unfolding join
print true elements = b'/' ∷ join elements (codes "/")
print false [] = codes "."
print false (e ∷ es) = join (e ∷ es) (codes "/")

-- `filepath.Clean`
unfoldable pub clean : Text → Text
unfolding print elements_of
clean s = print (is_rooted s) (elements_of s)

-- `filepath.Join` of two.
unfoldable pub join_path : Text → Text → Text
unfolding clean
join_path [] [] = []
join_path [] (c ∷ s) = clean (c ∷ s)
join_path (c ∷ s) t = clean ((c ∷ s) ++ b'/' ∷ t)

-- The text up to its last slash.
abbrev pub through_slash : Text → Text
through_slash [] = []
through_slash (c ∷ s) = elim (through_slash s) [
  | [] ↦ if c == b'/' then c ∷ [] else []
  | d ∷ t ↦ c ∷ d ∷ t
]

-- `filepath.Dir`
unfoldable pub dir_name : Text → Text
unfolding clean
dir_name s = clean (through_slash s)

-- What is left of both behind the elements they share.
unfoldable pub strip : List Text → List Text → List Text × List Text
unfolding text_eq
strip [] ts = ([], ts)
strip (b ∷ bs) [] = (b ∷ bs, [])
strip (b ∷ bs) (t ∷ ts) = let rest = strip bs ts in if text_eq b t then rest else (b ∷ bs, t ∷ ts)

abbrev pub ups : List Text → List Text
ups [] = []
ups (b ∷ bs) = codes ".." ∷ ups bs

abbrev pub descend : List Text → List Text → Option Text
descend [] [] = some (codes ".")
descend [] (t ∷ ts) = some (join (t ∷ ts) (codes "/"))
descend (b ∷ bs) ts =
    if text_eq b (codes "..") then none else some (join (ups (b ∷ bs) ++ ts) (codes "/"))

-- `filepath.Rel`, `none` where it reports an error.
unfoldable pub rel : Text → Text → Option Text
unfolding elements_of strip
rel base target =
    let (up, down) = strip (elements_of base) (elements_of target) in
    if (if is_rooted base then not (is_rooted target) else is_rooted target)
    then none
    else descend up down

-- Whether a path is a directory's own, or lies in it.
unfoldable pub is_below : Text → Text → Bool
unfolding has_prefix text_eq
is_below dir path = text_eq path dir || has_prefix path (dir ++ codes "/")
