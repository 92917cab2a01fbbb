-- ===== src/Gogen/Queries/Literals.antt =====
-- internal/emit/gogen/queries.go, `escapeBackticks`: what the emitted constant is worth.
use sqlc_gen_unison.Base.{
  ℕ, zero, suc, ◌≡◌, refl, sym, ap, ◌∙◌, inl, inr, true, false, Option, none, some, [], ◌∷◌, ◌++◌,
  Text, codes, ◌==◌, ==_iff, if◌then◌else◌, arith, Bool-cases, subst,
}
use sqlc_gen_unison.Strings.{has_prefix, replace_all, replace_from}
use sqlc_gen_unison.Strings.Laws.{replace_all-byte}
use sqlc_gen_unison.Gogen.Queries.{escape_backticks}

-- Puts a byte before a value that was read.
abbrev push : ℕ → Option Text → Option Text
push c none = none
push c (some s) = some (c ∷ s)

-- How Go reads a raw literal from behind its opening backtick, and the literals that are joined to it
-- by "`": a raw literal drops its carriage returns. `skip` bytes of the join are still to be passed
-- over, and a literal that does not end has no value.
abbrev pub read_raw : ℕ → Text → Option Text
read_raw skip [] = none
read_raw (suc skip) (c ∷ s) = read_raw skip s
read_raw zero (c ∷ s) = elim (c == b'`') [
  | true ↦ elim (has_prefix s (codes " + \"`\" + `")) [
    | true ↦ push b'`' (read_raw 10 s)
    | false ↦ some []
  ]
  | false ↦ elim (c == 13) [ true ↦ read_raw 0 s | false ↦ push c (read_raw 0 s) ]
]

abbrev pub without_returns : Text → Text
without_returns [] = []
without_returns (c ∷ s) = if c == 13 then without_returns s else c ∷ without_returns s

escape_backticks_plain :
    (c : ℕ) (s : Text) → (c == b'`') ≡ false → escape_backticks (c ∷ s) ≡ c ∷ escape_backticks s
unfolding escape_backticks
escape_backticks_plain c s h = replace_all-byte b'`' c s _ ∙ rw h refl

escape_backticks_tick :
    (s : Text) → escape_backticks (b'`' ∷ s) ≡ codes "` + \"`\" + `" ++ escape_backticks s
unfolding escape_backticks
escape_backticks_tick s = replace_all-byte b'`' b'`' s _

-- The text behind a constant's value.
abbrev closed : Text → Text
closed rest = b'`' ∷ 10 ∷ rest

read_raw-tick :
    (sql rest value : Text)
    → read_raw 0 (escape_backticks sql ++ closed rest) ≡ some value
    → read_raw 0 (escape_backticks (b'`' ∷ sql) ++ closed rest) ≡ some (b'`' ∷ value)
unfolding has_prefix
read_raw-tick sql rest value h =
    ap (λ t. read_raw 0 (t ++ closed rest)) (escape_backticks_tick sql) ∙ ap (push b'`') h

read_raw-cons :
    (c : ℕ) (t value : Text)
    → (c == b'`') ≡ false
    → read_raw 0 t ≡ some value
    → read_raw 0 (c ∷ t) ≡ some (if c == 13 then value else c ∷ value)
read_raw-cons c t value e h = ground arith

read_raw-plain :
    (c : ℕ) (sql rest value : Text)
    → (c == b'`') ≡ false
    → read_raw 0 (escape_backticks sql ++ closed rest) ≡ some value
    → read_raw 0 (escape_backticks (c ∷ sql) ++ closed rest)
      ≡ some (if c == 13 then value else c ∷ value)
read_raw-plain c sql rest value e h =
    ap (λ t. read_raw 0 (t ++ closed rest)) (escape_backticks_plain c sql e)
    ∙ read_raw-cons c (escape_backticks sql ++ closed rest) value e h

-- The constant that is written for a statement has the statement as its value, but for carriage
-- returns, which it loses.
pub read_raw-escape_backticks :
    (sql rest : Text)
    → read_raw 0 (escape_backticks sql ++ b'`' ∷ 10 ∷ rest) ≡ some (without_returns sql)
read_raw-escape_backticks [] rest =
    unfold escape_backticks replace_all replace_from has_prefix in refl
read_raw-escape_backticks (c ∷ sql) rest = elim (Bool-cases (c == b'`')) [
  | inl e ↦
      subst
        (λ d.
          read_raw 0 (escape_backticks (d ∷ sql) ++ closed rest) ≡ some (without_returns (d ∷ sql)))
        (sym ((==_iff c b'`').0 e))
        (read_raw-tick sql rest (without_returns sql) (read_raw-escape_backticks sql rest))
  | inr e ↦ read_raw-plain c sql rest (without_returns sql) e (read_raw-escape_backticks sql rest)
]
