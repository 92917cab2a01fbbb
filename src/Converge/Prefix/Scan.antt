-- ===== src/Converge/Prefix/Scan.antt =====
-- internal/converge/prefix.go, `markPrefixes`, against a reference that reads each byte once. The
-- reference keeps three bits: whether a literal is open, whether a dot is the last byte that is not
-- blank, and whether the byte before belongs to a word. It has no spans, looks nowhere back and
-- jumps over nothing.
use sqlc_gen_unison.Base.{
  ℕ, zero, suc, ◌+◌, ◌≡◌, ◌≢◌, refl, sym, ap, ap₂, ◌∙◌, Bool, true, false, ◌&&◌, not, List, [], ◌∷◌,
  ◌++◌, Text, ◌==◌, if◌then◌else◌, length, arith, text_mem, append_assoc,
}
use sqlc_gen_unison.Ir.{prefix_marker}
use sqlc_gen_unison.Converge.Prefix.{
  Marked, quote, write, warn, enter, mark_from, mark_prefixes, string_literal_spans, in_span,
  is_blank, preceded_by_dot, is_ident_start, is_ident_part, ident_rest,
}
use sqlc_gen_unison.Converge.Prefix.Literals.{
  flip, open_after, open_after-append, in_span-string_literal_spans,
}

abbrev pub dot_after : Bool → ℕ → Bool
dot_after dotted c = if is_blank c then dotted else c == b'.'

-- `shown` is what stands before a table.
module _ (tables : List Text) (shown : Text) where
  unfoldable pub place : Bool → Bool → Text → Marked → Marked
  place lit dotted word rest =
      if text_mem word tables
      then if lit then warn word rest else if not dotted then write shown rest else rest
      else rest

  unfoldable pub reference : Bool → Bool → Bool → Text → Marked
  unfolding place
  reference lit dotted inside [] = record { text = []; warned = [] }
  reference lit dotted inside (c ∷ s) =
      let inside' = if inside then is_ident_part c else is_ident_start c in
      let rest = write (c ∷ []) (reference (flip lit c) (dot_after dotted c) inside' s) in
      if not inside && is_ident_start c then place lit dotted (c ∷ ident_rest s) rest else rest

-- The bytes read, in their order, before what is left.
abbrev unwind : Text → Text → Text
unwind [] s = s
unwind (c ∷ before) s = unwind before (c ∷ s)

unwind-append : (before s : Text) → unwind before s ≡ unwind before [] ++ s
unwind-append [] s = refl
unwind-append (c ∷ before) s =
    unwind-append before (c ∷ s)
    ∙ sym (ap (λ t. t ++ s) (unwind-append before (c ∷ [])) ∙ append_assoc (unwind before []) _ _)

length-unwind : (before s : Text) → length (unwind before s) ≡ length before + length s
length-unwind [] s = omega arith
length-unwind (c ∷ before) s = omega (arith, length-unwind before (c ∷ s))

abbrev lit_at : Text → Bool
lit_at before = open_after false (unwind before [])

lit_at-cons : (c : ℕ) (before : Text) → lit_at (c ∷ before) ≡ flip (lit_at before) c
unfolding open_after
lit_at-cons c before =
    ap (open_after false) (unwind-append before (c ∷ []))
    ∙ open_after-append false (unwind before []) (c ∷ [])

in_span-unwind :
    (before : Text) (c : ℕ) (s : Text)
    → c ≢ quote
    → in_span (string_literal_spans (unwind before (c ∷ s))) (length before) ≡ lit_at before
in_span-unwind before c s h =
    ap₂ (λ t n. in_span (string_literal_spans t) n) (unwind-append before (c ∷ s))
      (omega (arith, length-unwind before []))
    ∙ in_span-string_literal_spans (unwind before []) c s
    ∙ ground arith

ident_start-ident_part : (c : ℕ) → is_ident_start c ≡ true → is_ident_part c ≡ true
unfolding is_ident_part
ident_start-ident_part c h = ground arith

-- A byte of a word is no quote.
ident_part-ne-quote : (c : ℕ) → is_ident_part c ≡ true → c ≢ quote
unfolding is_ident_part is_ident_start
ident_part-ne-quote c h = ground arith

module _ (tables : List Text) where
  enter-place :
      (before : Text) (c : ℕ) (s word : Text) (i : ℕ) (rest : Marked)
      → is_ident_start c ≡ true
      → i ≡ length before
      → enter tables (string_literal_spans (unwind before (c ∷ s))) before i word rest
        ≡ place tables prefix_marker (lit_at before) (preceded_by_dot before) word rest
  unfolding enter place
  enter-place before c s word i rest h e =
      rw e
        (rw (in_span-unwind before c s (ident_part-ne-quote c (ident_start-ident_part c h))) refl)

  mark_from-reference :
      (inside : Bool) (before rest : Text) (i left : ℕ)
      → i ≡ length before
      → left ≡ (if inside then length (ident_rest rest) else 0)
      → mark_from tables (string_literal_spans (unwind before rest)) before i left rest
        ≡ reference tables prefix_marker (lit_at before) (preceded_by_dot before) inside rest
  unfolding mark_from reference ident_rest preceded_by_dot
  mark_from-reference inside before [] i left e k = ground arith
  mark_from-reference true before (c ∷ s) i zero e k = ground (
    arith,
    mark_from-reference false (c ∷ before) s (i + 1) 0,
    lit_at-cons c before,
    ident_start-ident_part c,
  )
  mark_from-reference true before (c ∷ s) i (suc left) e k =
      ground (arith, mark_from-reference true (c ∷ before) s (i + 1) left, lit_at-cons c before)
  mark_from-reference false before (c ∷ s) i zero e k = ground (
    arith,
    mark_from-reference false (c ∷ before) s (i + 1) 0,
    mark_from-reference true (c ∷ before) s (i + 1) (length (ident_rest s)),
    lit_at-cons c before,
    enter-place before c s (c ∷ ident_rest s) i (
        write (c ∷ []) (
          mark_from tables (string_literal_spans (unwind before (c ∷ s))) (c ∷ before) (i + 1)
            (length (ident_rest s)) s)),
  )
  mark_from-reference false before (c ∷ s) i (suc left) e k = absurd (omega arith)

reference-nil :
    (shown : Text) (lit dotted inside : Bool) (s : Text)
    → reference [] shown lit dotted inside s ≡ record { text = s; warned = [] }
unfolding reference text_mem
reference-nil shown lit dotted inside [] = refl
reference-nil shown lit dotted inside (c ∷ s) =
    let inside' = if inside then is_ident_part c else is_ident_start c in
    ground (arith, reference-nil shown (flip lit c) (dot_after dotted c) inside' s)

-- Marking a statement gives the text and the warnings of the one-pass reference: the marker stands
-- before each whole word that is a table, outside literals, with no dot as the last byte before it
-- that is not blank; a table's name inside a literal is warned of and left.
pub mark_prefixes-reference :
    (sql : Text) (tables : List Text)
    → mark_prefixes sql tables ≡ reference tables prefix_marker false false false sql
unfolding mark_prefixes open_after
mark_prefixes-reference sql [] = sym (reference-nil prefix_marker false false false sql)
mark_prefixes-reference sql (t ∷ tables) =
    mark_from-reference (t ∷ tables) false [] sql 0 0 (omega arith) (omega arith)
