-- ===== src/Gogen/Names/Identifiers.antt =====
-- internal/emit/gogen/names.go: the names that are written have the spelling of Go identifiers, and
-- which SQL names become one.
use sqlc_gen_unison.Base.{
  ℕ, ◌≡◌, refl, ap, inl, inr, Bool, true, false, ◌&&◌, ◌||◌, Option, none, some, List, [], ◌∷◌,
  ◌++◌, Text, text_eq, leb, ◌==◌, if◌then◌else◌, arith, All, All-append, All-map, Bool-cases,
  Option-cases, &&-eq-true,
}
use sqlc_gen_unison.Options.{map_get}
use sqlc_gen_unison.Strings.{lower, upper, to_lower}
use sqlc_gen_unison.Gogen.Names.{
  initialisms, is_separator, is_letter, flush, starts_word, split_from, split_words, capitalize,
  spell_word, spell_words, make_legal, join_words, exported_name, unexported_name,
}

abbrev is_digit : ℕ → Bool
is_digit c = leb b'0' c && leb c b'9'

abbrev is_word_byte : ℕ → Bool
is_word_byte c = is_letter c || is_digit c

abbrev pub IsWord : Text → Type 0
IsWord = All (λ c. is_word_byte c ≡ true)

-- Letters, digits and the four separators.
abbrev pub IsSqlName : Text → Type 0
IsSqlName = All (λ c. (is_word_byte c || is_separator c) ≡ true)

-- The spelling of a Go identifier, of ASCII; a keyword has it too.
abbrev pub IsSpelled : Text → Type 0
IsSpelled [] = ⊥
IsSpelled (c ∷ s) =
    ((is_letter c || (c == b'_')) ≡ true) × All (λ d. (is_word_byte d || (d == b'_')) ≡ true) s

flush-All :
    (word : Text) (words : List Text)
    → IsWord word
    → All IsWord words
    → All IsWord (flush word words)
flush-All [] words h hs = hs
flush-All (c ∷ word) words h hs = (h, hs)

split_from-All :
    (before : Option ℕ) (word s : Text)
    → IsWord word
    → IsSqlName s
    → All IsWord (split_from before word s)
unfolding split_from
split_from-All before word [] h _ = flush-All word [] h tt
split_from-All before word (c ∷ s) h (k, ks) = elim (Bool-cases (is_separator c)) [
  | inl e ↦ rw (e, split_from) (flush-All word _ h (split_from-All (some c) [] s tt ks))
  | inr e ↦ elim (Bool-cases (starts_word before c)) [
    | inl b ↦
        rw (e, b, split_from)
          (flush-All word _ h (split_from-All (some c) (c ∷ []) s (ground arith, tt) ks))
    | inr b ↦
        rw (e, b, split_from)
          (split_from-All (some c) (word ++ c ∷ []) s
            (All-append (λ c. is_word_byte c ≡ true) word (c ∷ []) h (ground arith, tt)) ks)
  ]
]

to_lower-IsWord : (s : Text) → IsWord s → IsWord (to_lower s)
unfolding to_lower lower
to_lower-IsWord [] h = tt
to_lower-IsWord (c ∷ s) (h, hs) = (ground arith, to_lower-IsWord s hs)

capitalize-IsWord : (s : Text) → IsWord s → IsWord (capitalize s)
unfolding capitalize upper
capitalize-IsWord [] h = tt
capitalize-IsWord (c ∷ s) (h, hs) = (ground arith, hs)

all_word_bytes : Text → Bool
all_word_bytes [] = true
all_word_bytes (c ∷ s) = is_word_byte c && all_word_bytes s

all_words : List (Text × Text) → Bool
all_words [] = true
all_words ((_, v) ∷ m) = all_word_bytes v && all_words m

all_word_bytes-IsWord : (s : Text) → all_word_bytes s ≡ true → IsWord s
unfolding all_word_bytes
all_word_bytes-IsWord [] h = tt
all_word_bytes-IsWord (c ∷ s) h =
    let (here, later) = &&-eq-true (is_word_byte c) (all_word_bytes s) h in
    (here, all_word_bytes-IsWord s later)

map_get-IsWord :
    (key : Text) (m : List (Text × Text)) {v : Text}
    → all_words m ≡ true
    → map_get key m ≡ some v
    → IsWord v
unfolding all_words map_get
map_get-IsWord key [] h e = cc
map_get-IsWord key ((k, v) ∷ m) {v = w} h e =
    let (here, later) = &&-eq-true (all_word_bytes v) (all_words m) h in
    elim (Bool-cases (text_eq k key)) [
      | inl q ↦ all_word_bytes-IsWord w (ground arith)
      | inr q ↦ map_get-IsWord key m later (ground arith)
    ]

initialisms_words : all_words initialisms ≡ true
unfolding all_words all_word_bytes initialisms
initialisms_words = refl

spell_word-IsWord : (word : Text) → IsWord word → IsWord (spell_word word)
unfolding spell_word
spell_word-IsWord word h = elim (Option-cases (map_get (to_lower word) initialisms)) [
  | inl plain ↦ rw (plain, spell_word) (capitalize-IsWord (to_lower word) (to_lower-IsWord word h))
  | inr (v, found) ↦
      rw (found, spell_word) (map_get-IsWord (to_lower word) initialisms initialisms_words found)
]

spell_words-IsWord : (words : List Text) → All IsWord words → IsWord (spell_words words)
unfolding spell_words
spell_words-IsWord [] h = tt
spell_words-IsWord (word ∷ words) (h, hs) =
    All-append (λ c. is_word_byte c ≡ true) (spell_word word) (spell_words words)
      (spell_word-IsWord word h) (spell_words-IsWord words hs)

IsWord-tail : (s : Text) → IsWord s → All (λ d. (is_word_byte d || (d == b'_')) ≡ true) s
IsWord-tail s h = All-map (λ c k. ground arith) s h

make_legal-IsSpelled : (s : Text) → IsWord s → IsSpelled (make_legal s)
unfolding make_legal
make_legal-IsSpelled [] h = (refl, tt)
make_legal-IsSpelled (c ∷ s) (h, hs) = elim (Bool-cases (is_letter c)) [
  | inl e ↦ rw e (ground arith, IsWord-tail s hs)
  | inr e ↦ elim (Bool-cases (c == b'_')) [
    | inl u ↦ rw (e, u) (ground arith, IsWord-tail s hs)
    | inr u ↦ rw (e, u) (refl, (ground arith, IsWord-tail s hs))
  ]
]

join_words-IsSpelled :
    (words : List Text) (exported : Bool) → All IsWord words → IsSpelled (join_words words exported)
unfolding join_words
join_words-IsSpelled [] exported h = make_legal-IsSpelled [] tt
join_words-IsSpelled (word ∷ words) true h =
    make_legal-IsSpelled _ (spell_words-IsWord (word ∷ words) h)
join_words-IsSpelled (word ∷ words) false (h, hs) = make_legal-IsSpelled _ (
    All-append (λ c. is_word_byte c ≡ true) (to_lower word) (spell_words words)
      (to_lower-IsWord word h) (spell_words-IsWord words hs))

-- Both spellings of a SQL name of letters, digits and separators are spelt as Go identifiers are.
pub names-IsSpelled :
    (name : Text)
    → IsSqlName name
    → IsSpelled (exported_name name) × IsSpelled (unexported_name name)
unfolding exported_name unexported_name split_words
names-IsSpelled name h =
    let words = split_from-All none [] name tt h in
    (
      join_words-IsSpelled (split_from none [] name) true words,
      join_words-IsSpelled (split_from none [] name) false words,
    )

split_from_doubled :
    (before : Option ℕ) (word s t : Text)
    → split_from before word (s ++ b'_' ∷ b'_' ∷ t) ≡ split_from before word (s ++ b'_' ∷ t)
unfolding split_from is_separator starts_word
split_from_doubled before word [] t = refl
split_from_doubled before word (c ∷ s) t =
    let word' =
      if is_separator c then [] else if starts_word before c then c ∷ [] else word ++ c ∷ [] in
    rw (split_from_doubled (some c) word' s t) refl

-- A doubled underscore is lost, so two names that differ in one become the same identifier.
pub exported_name_doubled :
    (s t : Text) → exported_name (s ++ b'_' ∷ b'_' ∷ t) ≡ exported_name (s ++ b'_' ∷ t)
unfolding exported_name split_words
exported_name_doubled s t = ap (λ ws. join_words ws true) (split_from_doubled none [] s t)
