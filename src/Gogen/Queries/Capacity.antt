-- ===== src/Gogen/Queries/Capacity.antt =====
-- internal/emit/gogen/queries.go, `capacity`: the length that is written for the arguments.
use sqlc_gen_unison.Base.{
  ℕ, zero, suc, ◌+◌, ◌-◌, ◌*◌, ◌/◌, ◌%◌, ◌<◌, ◌≡◌, refl, ap, ◌∙◌, inl, inr, List, [], ◌∷◌, ◌++◌,
  map, Text, codes, text_eq, ltb, if◌then◌else◌, arith, Bool-cases,
}
use sqlc_gen_unison.Ir.{Arg}
use sqlc_gen_unison.Gogen.Names.{exported_name}
use sqlc_gen_unison.Gogen.Queries.Methods.{expands_arg, digits_from, fixed_args, length_terms}

-- The number that decimal digits read as, behind a number that was read.
abbrev pub read_digits : ℕ → Text → ℕ
read_digits acc [] = acc
read_digits acc (c ∷ s) = read_digits (acc * 10 + (c - b'0')) s

pub read_digits-digits_from :
    (fuel n : ℕ) (s : Text) → n < fuel → read_digits 0 (digits_from fuel n s) ≡ read_digits n s
unfolding digits_from
read_digits-digits_from zero n s h = elim h [ ]
read_digits-digits_from (suc fuel) n s h = elim (Bool-cases (ltb n 10)) [
  | inl e ↦ rw (e, digits_from) (ap (λ a. read_digits a s) (ground arith))
  | inr e ↦ rw e (
      read_digits-digits_from fuel (n / 10) ((b'0' + n % 10) ∷ s) (ground arith)
      ∙ ap (λ a. read_digits a s) (omega arith))
]

abbrev pub expanded_names : List Arg → List Text
expanded_names [] = []
expanded_names (a ∷ args) =
    if expands_arg a then a.name ∷ expanded_names args else expanded_names args

abbrev pub length_of : Text → Text
length_of name = codes "len(arg." ++ exported_name name ++ codes ")"

pub length_terms-map : (args : List Arg) → length_terms args ≡ map length_of (expanded_names args)
unfolding length_terms
length_terms-map [] = refl
length_terms-map (a ∷ args) = elim (Bool-cases (text_eq a.expand [])) [
  | inl e ↦ rw e (length_terms-map args)
  | inr e ↦ rw e (ap (λ ts. length_of a.name ∷ ts) (length_terms-map args))
]

module _ (lengths : Text → ℕ) where
  abbrev pub total : List Text → ℕ
  total [] = 0
  total (name ∷ names) = lengths name + total names

  -- How many values the loop over the arguments appends: one, or one for each element of a list.
  abbrev pub appended : List Arg → ℕ
  appended [] = 0
  appended (a ∷ args) = (if expands_arg a then lengths a.name else 1) + appended args

  pub fixed_args-total :
      (args : List Arg) → fixed_args args + total (expanded_names args) ≡ appended args
  unfolding fixed_args
  fixed_args-total [] = refl
  fixed_args-total (a ∷ args) = elim (Bool-cases (text_eq a.expand [])) [
    | inl e ↦ rw e (ground (arith, fixed_args-total args))
    | inr e ↦ rw e (ground (arith, fixed_args-total args))
  ]
