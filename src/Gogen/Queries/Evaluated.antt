-- ===== src/Gogen/Queries/Evaluated.antt =====
-- internal/emit/gogen/queries.go, `capacity`: the expression that is written, as Go evaluates it, beside the
-- appends that are written.
use sqlc_gen_unison.Base.{
  any, ◌&&◌, ℕ, zero, suc, ◌+◌, ◌/◌, ◌%◌, ◌≡◌, ◌≢◌, refl, sym, ap, ap₂, ◌∙◌, inl, inr, true, false,
  ◌||◌, none, some, List, [], ◌∷◌, ◌++◌, map, Text, codes, text_eq, leb, ltb, ◌==◌, if◌then◌else◌,
  length, arith, Bool-cases, All, All-append, All-map,
}
use sqlc_gen_unison.Ir.{Query, Arg, Package}
use sqlc_gen_unison.Strings.{join, cut_prefix, trim_suffix}
use sqlc_gen_unison.Gogen.Names.{exported_name}
use sqlc_gen_unison.Gogen.Names.Identifiers.{IsSqlName, IsSpelled, names-IsSpelled}
use sqlc_gen_unison.Gogen.Times.{TimeBinders, time_binders}
use sqlc_gen_unison.Gogen.Times.Binders.{time_binders-AreBinders}
use sqlc_gen_unison.Gogen.Queries.Methods.{
  arg_field, digits_from, decimal, fixed_args, capacity, append_args,
}
use sqlc_gen_unison.Gogen.Queries.Capacity.{
  read_digits, expanded_names, length_of, total, appended, read_digits-digits_from,
  length_terms-map, fixed_args-total,
}
use sqlc_gen_unison.Gogen.Queries.Lines.{lines, trim_suffix-append}
use sqlc_gen_unison.Gogen.Queries.Appends.{
  Bound, one, each, bound_of, read_bounds, AreSqlNames, read_bounds-append_args,
}
use sqlc_gen_unison.Gogen.Queries.Terms.{read_terms, IsTerm, read_terms-join}

module _ (lengths : Text → ℕ) where
  -- What a term evaluates to, where `lengths` are those of the lists: `len(...)` of one, or a number.
  unfoldable pub value_of_term : Text → ℕ
  unfolding cut_prefix trim_suffix
  value_of_term t = elim (cut_prefix t (codes "len(")) [
    | some list ↦ lengths (trim_suffix list (codes ")"))
    | none ↦ read_digits 0 t
  ]

  abbrev pub sum_of : List Text → ℕ
  sum_of [] = 0
  sum_of (t ∷ ts) = value_of_term t + sum_of ts

  -- What an expression of terms evaluates to.
  unfoldable pub evaluate : Text → ℕ
  unfolding read_terms value_of_term
  evaluate s = sum_of (read_terms s)

  -- How many values are appended.
  abbrev pub appends_of : List Bound → ℕ
  appends_of [] = 0
  appends_of (one _ ∷ bs) = 1 + appends_of bs
  appends_of (each list _ ∷ bs) = lengths list + appends_of bs

abbrev IsNumber : Text → Type 0
IsNumber = All (λ c. (leb b'0' c && leb c b'9') ≡ true)

digits_from-IsNumber : (fuel n : ℕ) (s : Text) → IsNumber s → IsNumber (digits_from fuel n s)
unfolding digits_from
digits_from-IsNumber zero n s h = h
digits_from-IsNumber (suc fuel) n s h =
    let digit : (leb b'0' (b'0' + n % 10) && leb (b'0' + n % 10) b'9') ≡ true = ground arith in
    elim (Bool-cases (ltb n 10)) [
      | inl e ↦ rw (digits_from, e) (digit, h)
      | inr e ↦ rw (digits_from, e) (digits_from-IsNumber fuel (n / 10) _ (digit, h))
    ]

decimal-IsNumber : (n : ℕ) → IsNumber (decimal n)
unfolding decimal
decimal-IsNumber n = digits_from-IsNumber (suc n) n [] tt

IsNumber-IsTerm : (s : Text) → IsNumber s → IsTerm s
IsNumber-IsTerm s h = All-map (λ c k e. ground arith) s h

IsSpelled-IsTerm : (s : Text) → IsSpelled s → IsTerm s
IsSpelled-IsTerm [] h = absurd h
IsSpelled-IsTerm (c ∷ s) (h, hs) = ((λ e. ground arith), All-map (λ d k e. ground arith) s hs)

IsTerm-of_any : (s : Text) → any (λ c. c == b'+') s ≡ false → IsTerm s
unfolding any
IsTerm-of_any [] h = tt
IsTerm-of_any (c ∷ s) h = ((λ e. ground arith), IsTerm-of_any s (ground arith))

length_of-IsTerm : (name : Text) → IsSqlName name → IsTerm (length_of name)
length_of-IsTerm name h =
    let (exported, _) = names-IsSpelled name h in
    All-append (λ c. c ≢ b'+') (codes "len(arg." ++ exported_name name) (codes ")")
      (All-append (λ c. c ≢ b'+') (codes "len(arg.") (exported_name name)
        (IsTerm-of_any (codes "len(arg.") (unfold any in refl))
        (IsSpelled-IsTerm (exported_name name) exported))
      ((λ e. ground arith), tt)

expanded_names-IsTerm :
    (args : List Arg) → AreSqlNames args → All IsTerm (map length_of (expanded_names args))
expanded_names-IsTerm [] h = tt
expanded_names-IsTerm (a ∷ args) (n, ns) = elim (Bool-cases (text_eq a.expand [])) [
  | inl e ↦ rw e (expanded_names-IsTerm args ns)
  | inr e ↦ rw e (length_of-IsTerm a.name n, expanded_names-IsTerm args ns)
]

read_digits-decimal : (n : ℕ) → read_digits 0 (decimal n) ≡ n
unfolding decimal
read_digits-decimal n = read_digits-digits_from (suc n) n [] (omega arith)

module _ (lengths : Text → ℕ) where
  -- The length of the list of a field.
  abbrev length_at : Text → ℕ
  length_at name = lengths (arg_field name)

  value_of_term_number : (s : Text) → IsNumber s → value_of_term lengths s ≡ read_digits 0 s
  unfolding value_of_term cut_prefix
  value_of_term_number [] h = refl
  value_of_term_number (c ∷ s) (h, hs) =
      let other : (c == b'l') ≡ false = ground arith in rw (value_of_term, other) refl

  value_of_term-length_of : (name : Text) → value_of_term lengths (length_of name) ≡ length_at name
  unfolding value_of_term cut_prefix
  value_of_term-length_of name = ap lengths (trim_suffix-append (arg_field name) b')' [])

  sum_of-names : (names : List Text) → sum_of lengths (map length_of names) ≡ total length_at names
  sum_of-names [] = refl
  sum_of-names (name ∷ names) =
      ap₂ (λ a b. a + b) (value_of_term-length_of name) (sum_of-names names)

  evaluate-join :
      (t : Text) (ts : List Text)
      → All IsTerm (t ∷ ts)
      → evaluate lengths (join (t ∷ ts) (codes "+")) ≡ sum_of lengths (t ∷ ts)
  unfolding evaluate
  evaluate-join t ts h = ap (sum_of lengths) (read_terms-join t ts h)

  evaluate-numbered :
      (n : ℕ) (names : List Text)
      → All IsTerm (map length_of names)
      → evaluate lengths (join (decimal n ∷ map length_of names) (codes "+"))
        ≡ n + total length_at names
  evaluate-numbered n names h =
      evaluate-join (decimal n) (map length_of names) (IsNumber-IsTerm _ (decimal-IsNumber n), h)
      ∙ ap₂ (λ a b. a + b)
          (value_of_term_number (decimal n) (decimal-IsNumber n) ∙ read_digits-decimal n)
          (sum_of-names names)

  evaluate-terms :
      (n : ℕ) (names : List Text)
      → All IsTerm (map length_of names)
      → evaluate lengths (
          join
            (if ltb 0 n || (length (map length_of names) == 0)
              then decimal n ∷ map length_of names
              else map length_of names)
            (codes "+"))
        ≡ n + total length_at names
  evaluate-terms n [] h = elim (Bool-cases (ltb 0 n)) [
    | inl e ↦ rw e (evaluate-numbered n [] tt)
    | inr e ↦ rw e (evaluate-numbered n [] tt)
  ]
  evaluate-terms n (x ∷ names) h = elim (Bool-cases (ltb 0 n)) [
    | inl e ↦ rw e (evaluate-numbered n (x ∷ names) h)
    | inr e ↦
        let zero_fixed : n ≡ 0 = ground arith in
        let some_terms : (length (map length_of (x ∷ names)) == 0) ≡ false = ground arith in
        rw (e, some_terms)
          (evaluate-join (length_of x) (map length_of names) h
            ∙ sum_of-names (x ∷ names)
            ∙ omega (arith, zero_fixed))
  ]

  evaluate-capacity :
      (args : List Arg)
      → AreSqlNames args
      → evaluate lengths (capacity args) ≡ appended length_at args
  unfolding capacity
  evaluate-capacity args h =
      ap
        (λ ts. evaluate lengths (
          join
            (if ltb 0 (fixed_args args) || (length ts == 0)
              then decimal (fixed_args args) ∷ ts
              else ts)
            (codes "+")))
        (length_terms-map args)
      ∙ evaluate-terms (fixed_args args) (expanded_names args) (expanded_names-IsTerm args h)
      ∙ fixed_args-total length_at args

  appends_of-args :
      (binders : TimeBinders) (args : List Arg)
      → appends_of lengths (map (bound_of binders) args) ≡ appended length_at args
  appends_of-args binders [] = refl
  appends_of-args binders (a ∷ args) = elim (Bool-cases (text_eq a.expand [])) [
    | inl e ↦ rw e (ap (λ n. 1 + n) (appends_of-args binders args))
    | inr e ↦ rw e (ap (λ n. length_at a.name + n) (appends_of-args binders args))
  ]

  -- If the parameters have SQL names of letters, digits and separators, then the expression that is written
  -- for the capacity evaluates to as many values as the lines that are written append, whatever the lengths
  -- of the lists.
  pub capacity-append_args :
      (pkg : Package) (query : Query) (args : List Arg)
      → AreSqlNames args
      → evaluate lengths (capacity args)
        ≡ appends_of lengths (read_bounds none (lines (append_args (time_binders pkg query) args)))
  capacity-append_args pkg query args h =
      let binders = time_binders pkg query in
      evaluate-capacity args h
      ∙ sym (appends_of-args binders args)
      ∙ ap (appends_of lengths)
          (sym (read_bounds-append_args binders args (time_binders-AreBinders pkg query) h))
