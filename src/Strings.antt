-- ===== src/Strings.antt =====
-- The functions of Go's `strings` package that the program calls, on lists of bytes. Case and white
-- space are those of ASCII: a byte above 127 is neither a letter nor a space here, where Go decodes
-- it. The patterns that the program replaces or counts are never empty.
pub mod Laws
use sqlc_gen_unison.Base.{
  ℕ, zero, suc, ◌+◌, ◌-◌, Bool, true, false, ◌&&◌, ◌||◌, Option, none, some, List, [], ◌∷◌, ◌++◌,
  map, Text, codes, text_eq, leb, ltb, ◌==◌, if◌then◌else◌, length,
}

unfoldable pub has_prefix : Text → Text → Bool
has_prefix s [] = true
has_prefix [] (b ∷ p) = false
has_prefix (a ∷ s) (b ∷ p) = (a == b) && has_prefix s p

-- `strings.CutPrefix`: what is left behind the prefix.
unfoldable pub cut_prefix : Text → Text → Option Text
cut_prefix s [] = some s
cut_prefix [] (b ∷ p) = none
cut_prefix (a ∷ s) (b ∷ p) = let rest = cut_prefix s p in if a == b then rest else none

unfoldable pub trim_prefix : Text → Text → Text
unfolding cut_prefix
trim_prefix s p = elim (cut_prefix s p) [ none ↦ s | some rest ↦ rest ]

unfoldable pub trim_suffix : Text → Text → Text
unfolding text_eq
trim_suffix [] p = []
trim_suffix (a ∷ s) p = if text_eq (a ∷ s) p then [] else a ∷ trim_suffix s p

unfoldable pub is_space : ℕ → Bool
is_space c = (c == b' ') || (leb 9 c && leb c 13)

unfoldable pub trim_left : Text → Text
trim_left [] = []
trim_left (c ∷ s) = if is_space c then trim_left s else c ∷ s

-- White space at the end goes: what is left of the tail decides.
unfoldable pub trim_right : Text → Text
trim_right [] = []
trim_right (c ∷ s) = elim (trim_right s) [
  | [] ↦ if is_space c then [] else c ∷ []
  | d ∷ t ↦ c ∷ d ∷ t
]

unfoldable pub trim_space : Text → Text
unfolding trim_left trim_right is_space
trim_space s = trim_right (trim_left s)

unfoldable pub lower : ℕ → ℕ
lower c = if leb b'A' c && leb c b'Z' then c + 32 else c

unfoldable pub upper : ℕ → ℕ
upper c = if leb b'a' c && leb c b'z' then c - 32 else c

unfoldable pub to_lower : Text → Text
unfolding lower
to_lower s = map lower s

-- The text before the first `b`, or all of it, and whether there is one: `IndexByte` and `[:open]`.
unfoldable pub cut_at : ℕ → Text → Option Text
cut_at b [] = none
cut_at b (c ∷ s) =
    let rest = cut_at b s in
    if c == b then some [] else elim rest [ none ↦ none | some t ↦ some (c ∷ t) ]

unfoldable pub contains : Text → Text → Bool
unfolding has_prefix
contains [] p = has_prefix [] p
contains (c ∷ s) p = has_prefix (c ∷ s) p || contains s p

module _ (old : Text) where
  -- `skip` bytes of the last occurrence are still to be passed over.
  unfoldable pub count_from : ℕ → Text → ℕ
  unfolding has_prefix
  count_from skip [] = 0
  count_from (suc skip) (c ∷ s) = count_from skip s
  count_from zero (c ∷ s) = elim (has_prefix (c ∷ s) old) [
    | true ↦ suc (count_from (length old - 1) s)
    | false ↦ count_from 0 s
  ]

  module _ (new : Text) where
    unfoldable pub replace_from : ℕ → Text → Text
    unfolding has_prefix
    replace_from skip [] = []
    replace_from (suc skip) (c ∷ s) = replace_from skip s
    replace_from zero (c ∷ s) = elim (has_prefix (c ∷ s) old) [
      | true ↦ new ++ replace_from (length old - 1) s
      | false ↦ c ∷ replace_from 0 s
    ]

-- `strings.Count(s, old)`
unfoldable pub count : Text → Text → ℕ
unfolding count_from
count s old = count_from old 0 s

-- `strings.ReplaceAll(s, old, new)`
unfoldable pub replace_all : Text → Text → Text → Text
unfolding replace_from
replace_all s old new = replace_from old new 0 s

-- `strings.Replace(s, old, new, 1)`
unfoldable pub replace_first : Text → Text → Text → Text
unfolding cut_prefix
replace_first [] old new = []
replace_first (c ∷ s) old new =
    let rest = replace_first s old new in
    elim (cut_prefix (c ∷ s) old) [ none ↦ c ∷ rest | some behind ↦ new ++ behind ]

-- `strings.Join(parts, sep)`
unfoldable pub join : List Text → Text → Text
join [] sep = []
join (p ∷ []) sep = p
join (p ∷ q ∷ ps) sep = p ++ sep ++ join (q ∷ ps) sep
