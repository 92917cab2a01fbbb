-- ===== src/Converge/Prefix/Literals.antt =====
-- internal/converge/prefix.go, `stringLiteralSpans` and `inSpan`: which offsets the spans cover.
-- The reference counts quotes and knows nothing of doubled ones.
use sqlc_gen_unison.Base.{
  ℕ, ◌+◌, ◌≤◌, ◌<◌, ◌≡◌, refl, Bool, true, false, ◌||◌, not, [], ◌∷◌, ◌++◌, Text, ◌==◌,
  if◌then◌else◌, length, arith, inl, inr, Bool-cases,
}
use sqlc_gen_unison.Converge.Prefix.{
  quote, spans_outside, spans_inside, string_literal_spans, in_span,
}

-- Whether a literal is open behind a text, if each quote opens or closes one.
abbrev pub flip : Bool → ℕ → Bool
flip lit c = if c == quote then not lit else lit

unfoldable pub open_after : Bool → Text → Bool
open_after lit [] = lit
open_after lit (c ∷ s) = open_after (flip lit c) s

pub open_after-append :
    (lit : Bool) (s t : Text) → open_after lit (s ++ t) ≡ open_after (open_after lit s) t
unfolding open_after
open_after-append lit [] t = refl
open_after-append lit (c ∷ s) t = open_after-append (flip lit c) s t

-- The spans that start at an offset cover nothing before it.
mutual
  unfolding spans_outside spans_inside in_span

  outside_before : (i : ℕ) (s : Text) (j : ℕ) → j < i → in_span (spans_outside i s) j ≡ false
  outside_before i [] j h = refl
  outside_before i (c ∷ s) j h = elim (Bool-cases (c == quote)) [
    | inl q ↦ rw (q, spans_outside) (inside_before i (i + 1) s j h (omega arith))
    | inr q ↦ rw (q, spans_outside) (outside_before (i + 1) s j (omega arith))
  ]

  inside_before :
      (start i : ℕ) (s : Text) (j : ℕ)
      → j < start
      → start ≤ i
      → in_span (spans_inside start i s) j ≡ false
  inside_before start i [] j h k = ground arith
  inside_before start i (c ∷ []) j h k = ground arith
  inside_before start i (c ∷ d ∷ s) j h k = ground (
    arith,
    inside_before start (i + 1) (d ∷ s) j h,
    inside_before start (i + 2) s j h,
    outside_before (i + 1) (d ∷ s) j,
  )

-- An open literal covers what has been read of it.
inside_covers :
    (start i : ℕ) (s : Text) (j : ℕ) → start ≤ j → j < i → in_span (spans_inside start i s) j ≡ true
unfolding spans_inside in_span
inside_covers start i [] j h k = ground arith
inside_covers start i (c ∷ []) j h k = ground arith
inside_covers start i (c ∷ d ∷ s) j h k =
    ground (arith, inside_covers start (i + 1) (d ∷ s) j h, inside_covers start (i + 2) s j h)

mutual
  unfolding spans_outside spans_inside in_span open_after

  outside_at :
      (pre : Text) (c : ℕ) (s : Text) (i j : ℕ)
      → j ≡ i + length pre
      → in_span (spans_outside i (pre ++ c ∷ s)) j ≡ ((c == quote) || open_after false pre)
  outside_at [] c s i j e = elim (Bool-cases (c == quote)) [
    | inl q ↦ rw (q, spans_outside) (inside_covers i (i + 1) s j (omega arith) (omega arith))
    | inr q ↦ rw (q, spans_outside) (outside_before (i + 1) s j (omega arith))
  ]
  outside_at (a ∷ pre) c s i j e = elim (Bool-cases (a == quote)) [
    | inl q ↦
        rw (q, spans_outside, open_after)
          (inside_at pre c s i (i + 1) j (omega arith) (omega arith))
    | inr q ↦ rw (q, spans_outside, open_after) (outside_at pre c s (i + 1) j (omega arith))
  ]

  inside_at :
      (pre : Text) (c : ℕ) (s : Text) (start i j : ℕ)
      → start ≤ i
      → j ≡ i + length pre
      → in_span (spans_inside start i (pre ++ c ∷ s)) j ≡ ((c == quote) || open_after true pre)
  inside_at [] c [] start i j h e = ground arith
  inside_at [] c (d ∷ s) start i j h e =
      ground (arith, inside_covers start (i + 1) (d ∷ s) j, inside_covers start (i + 2) s j)
  inside_at (a ∷ []) c s start i j h e = ground (
    arith,
    inside_at [] c s start (i + 1) j,
    inside_covers start (i + 2) s j,
    outside_at [] c s (i + 1) j,
  )
  inside_at (a ∷ b ∷ pre) c s start i j h e = ground (
    arith,
    inside_at (b ∷ pre) c s start (i + 1) j,
    inside_at pre c s start (i + 2) j,
    outside_at (b ∷ pre) c s (i + 1) j,
  )

-- An offset of a statement lies in a literal span exactly when a quote stands there or an odd
-- number of quotes stands before it.
pub in_span-string_literal_spans :
    (before : Text) (c : ℕ) (s : Text)
    → in_span (string_literal_spans (before ++ c ∷ s)) (length before)
      ≡ ((c == quote) || open_after false before)
unfolding string_literal_spans
in_span-string_literal_spans before c s = outside_at before c s 0 (length before) (omega arith)
