-- ===== src/Gogen/Names/Keywords.antt =====
-- internal/emit/gogen/names.go: which names are words of the Go language, and so no identifiers.
use sqlc_gen_unison.Base.{
  ◌≡◌, refl, sym, subst, inl, inr, Bool, true, false, ◌&&◌, not, some, List, [], ◌∷◌, ◌++◌, Text,
  codes, text_eq, text_eq_iff, text_mem, any, leb, ◌==◌, arith, Bool-cases, Option-cases,
  &&-eq-true,
}
use sqlc_gen_unison.Options.{map_get}
use sqlc_gen_unison.Strings.{upper, to_lower}
use sqlc_gen_unison.Gogen.Names.{
  initialisms, is_letter, split_words, capitalize, spell_word, spell_words, make_legal, join_words,
  exported_name, unexported_name,
}
use sqlc_gen_unison.Gogen.Names.Identifiers.{IsSqlName, IsSpelled, names-IsSpelled}

-- The language's keywords.
abbrev keywords : List Text
keywords =
    codes "break"
    ∷ codes "case"
    ∷ codes "chan"
    ∷ codes "const"
    ∷ codes "continue"
    ∷ codes "default"
    ∷ codes "defer"
    ∷ codes "else"
    ∷ codes "fallthrough"
    ∷ codes "for"
    ∷ codes "func"
    ∷ codes "go"
    ∷ codes "goto"
    ∷ codes "if"
    ∷ codes "import"
    ∷ codes "interface"
    ∷ codes "map"
    ∷ codes "package"
    ∷ codes "range"
    ∷ codes "return"
    ∷ codes "select"
    ∷ codes "struct"
    ∷ codes "switch"
    ∷ codes "type"
    ∷ codes "var"
    ∷ []

abbrev starts_lower : Text → Bool
starts_lower [] = false
starts_lower (c ∷ s) = leb b'a' c && leb c b'z'

all_lower : List Text → Bool
all_lower [] = true
all_lower (k ∷ ks) = starts_lower k && all_lower ks

text_mem-all_lower :
    (s : Text) (ks : List Text) → all_lower ks ≡ true → text_mem s ks ≡ true → starts_lower s ≡ true
unfolding all_lower text_mem any
text_mem-all_lower s [] h k = cc
text_mem-all_lower s (w ∷ ks) h k =
    let (here, later) = &&-eq-true (starts_lower w) (all_lower ks) h in
    elim (Bool-cases (text_eq s w)) [
      | inl e ↦ subst (λ t. starts_lower t ≡ true) (sym ((text_eq_iff s w).0 e)) here
      | inr e ↦ text_mem-all_lower s ks later (ground arith)
    ]

keywords_lower : all_lower keywords ≡ true
unfolding all_lower
keywords_lower = refl

not-keyword : (s : Text) → starts_lower s ≡ false → text_mem s keywords ≡ false
not-keyword s h = elim (Bool-cases (text_mem s keywords)) [
  | inr e ↦ e
  | inl e ↦ absurd (ground (arith, text_mem-all_lower s keywords keywords_lower e))
]

none_lower : List (Text × Text) → Bool
none_lower [] = true
none_lower ((_, v) ∷ m) = not (starts_lower v) && none_lower m

map_get-none_lower :
    (key : Text) (m : List (Text × Text)) {v : Text}
    → none_lower m ≡ true
    → map_get key m ≡ some v
    → starts_lower v ≡ false
unfolding none_lower map_get
map_get-none_lower key [] h e = cc
map_get-none_lower key ((k, v) ∷ m) {v = w} h e =
    let (here, later) = &&-eq-true (not (starts_lower v)) (none_lower m) h in
    elim (Bool-cases (text_eq k key)) [
      | inl q ↦
          let same : v ≡ w = ground arith in subst (λ t. starts_lower t ≡ false) same (ground arith)
      | inr q ↦ map_get-none_lower key m {v = w} later (ground arith)
    ]

initialisms_lower : none_lower initialisms ≡ true
unfolding none_lower initialisms
initialisms_lower = refl

starts_lower-capitalize : (s : Text) → starts_lower (capitalize s) ≡ false
unfolding capitalize upper
starts_lower-capitalize [] = refl
starts_lower-capitalize (c ∷ s) = ground arith

starts_lower-spell_word : (word : Text) → starts_lower (spell_word word) ≡ false
unfolding spell_word
starts_lower-spell_word word = elim (Option-cases (map_get (to_lower word) initialisms)) [
  | inl plain ↦ rw (plain, spell_word) (starts_lower-capitalize (to_lower word))
  | inr (v, found) ↦
      rw (found, spell_word)
        (map_get-none_lower (to_lower word) initialisms initialisms_lower found)
]

starts_lower-append :
    (s t : Text) → starts_lower s ≡ false → starts_lower t ≡ false → starts_lower (s ++ t) ≡ false
starts_lower-append [] t h k = k
starts_lower-append (c ∷ s) t h k = h

starts_lower-spell_words : (words : List Text) → starts_lower (spell_words words) ≡ false
unfolding spell_words
starts_lower-spell_words [] = refl
starts_lower-spell_words (word ∷ words) =
    starts_lower-append (spell_word word) (spell_words words) (starts_lower-spell_word word)
      (starts_lower-spell_words words)

starts_lower-make_legal : (s : Text) → starts_lower s ≡ false → starts_lower (make_legal s) ≡ false
unfolding make_legal
starts_lower-make_legal [] h = refl
starts_lower-make_legal (c ∷ s) h = elim (Bool-cases (not (is_letter c) && not (c == b'_'))) [
  | inl e ↦ rw e refl
  | inr e ↦ rw e h
]

starts_lower-join_words : (words : List Text) → starts_lower (join_words words true) ≡ false
unfolding join_words
starts_lower-join_words [] = starts_lower-make_legal [] refl
starts_lower-join_words (word ∷ words) =
    starts_lower-make_legal _ (starts_lower-spell_words (word ∷ words))

-- A Go identifier, of ASCII.
abbrev pub IsIdentifier : Text → Type 0
IsIdentifier s = IsSpelled s × (text_mem s keywords ≡ false)

-- The exported spelling of a SQL name of letters, digits and separators is a Go identifier, and so no
-- keyword; the unexported one has the spelling of an identifier, so it is one unless it is a keyword.
pub names-IsIdentifier :
    (name : Text)
    → IsSqlName name
    → IsIdentifier (exported_name name) × IsSpelled (unexported_name name)
unfolding exported_name
names-IsIdentifier name h =
    let (exported, unexported) = names-IsSpelled name h in
    ((exported, not-keyword _ (starts_lower-join_words (split_words name))), unexported)
