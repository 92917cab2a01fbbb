-- ===== src/Converge/Prefix.antt =====
-- internal/converge/prefix.go: the tables of a catalog, and the marker that is placed before each
-- of them in a statement. An offset into the statement is carried as the number of bytes read,
-- beside those bytes with the last one first, and the loop's jump behind a word as the number of its
-- bytes that are still to be copied.
pub mod Literals
pub mod Tables
pub mod Scan
pub mod Construct
use sqlc_gen_unison.Base.{
  ℕ, zero, suc, ◌+◌, ◌≤◌, Bool, true, false, ◌&&◌, ◌||◌, not, List, [], ◌∷◌, ◌++◌, map, Text, codes,
  leb, ltb, ◌==◌, if◌then◌else◌, text_eq, text_mem, length, any, min,
}
use sqlc_gen_unison.Base.Order.{text_le, sort_by}
use sqlc_gen_unison.Ir.{prefix_marker}

-- What the request's catalog holds of a schema: its name, and each table's `rel` name.
pub record Schema : Type 0 where
  pub name : Text
  pub tables : List Text

pub record Catalog : Type 0 where
  pub default_schema : Text
  pub schemas : List Schema

unfoldable pub named_tables : List Text → List Text
named_tables [] = []
named_tables (name ∷ rest) = if text_eq name [] then named_tables rest else name ∷ named_tables rest

unfoldable pub default_tables : Text → List Schema → List Text
unfolding named_tables
default_tables def [] = []
default_tables def (schema ∷ rest) =
    if not (text_eq schema.name def)
    then default_tables def rest
    else named_tables schema.tables ++ default_tables def rest

-- Longest first, and then by the bytes.
unfoldable pub table_le : Text → Text → Bool
unfolding text_le
table_le a b = if length a == length b then text_le a b else ltb (length b) (length a)

unfoldable pub user_tables : Catalog → List Text
unfolding default_tables table_le sort_by
user_tables catalog = sort_by table_le (default_tables catalog.default_schema catalog.schemas)

unfoldable pub is_ident_start : ℕ → Bool
is_ident_start c = (c == b'_') || (leb b'a' c && leb c b'z') || (leb b'A' c && leb c b'Z')

unfoldable pub is_ident_part : ℕ → Bool
is_ident_part c = is_ident_start c || (leb b'0' c && leb c b'9')

-- A half-open range of offsets.
pub record Span : Type 0 where
  pub start : ℕ
  pub end : ℕ

abbrev pub quote : ℕ
quote = b'\''

-- The outer loop at offset `i`, and the inner one once a quote has been read at `start`. At the end
-- of the text both `i + 1` and the length stop at `i`.
unfoldable mutual
  pub spans_outside : ℕ → Text → List Span
  spans_outside i [] = []
  spans_outside i (c ∷ s) = elim (c == quote) [
    | true ↦ spans_inside i (i + 1) s
    | false ↦ spans_outside (i + 1) s
  ]

  pub spans_inside : ℕ → ℕ → Text → List Span
  spans_inside start i [] = record { start = start; end = i } ∷ []
  spans_inside start i (c ∷ []) = record { start = start; end = i + 1 } ∷ []
  spans_inside start i (c ∷ d ∷ s) = elim (c == quote) [
    | false ↦ spans_inside start (i + 1) (d ∷ s)
    | true ↦ elim (d == quote) [
      | true ↦ spans_inside start (i + 2) s
      | false ↦ record { start = start; end = i + 1 } ∷ spans_outside (i + 1) (d ∷ s)
    ]
  ]

unfoldable pub string_literal_spans : Text → List Span
unfolding spans_outside spans_inside
string_literal_spans sql = spans_outside 0 sql

unfoldable pub in_span : List Span → ℕ → Bool
in_span [] offset = false
in_span (s ∷ spans) offset = (leb s.start offset && ltb offset s.end) || in_span spans offset

abbrev pub is_blank : ℕ → Bool
is_blank c = (c == b' ') || (c == 9) || (c == 10) || (c == 13)

-- The bytes before the offset, nearest first.
unfoldable pub preceded_by_dot : Text → Bool
preceded_by_dot [] = false
preceded_by_dot (c ∷ before) = if is_blank c then preceded_by_dot before else c == b'.'

-- `sql[i:end]`, from the byte behind the first one.
unfoldable pub ident_rest : Text → Text
ident_rest [] = []
ident_rest (c ∷ s) = if is_ident_part c then c ∷ ident_rest s else []

-- What a statement becomes, and the tables that a warning names, in order.
pub record Marked : Type 0 where
  pub text : Text
  pub warned : List Text

abbrev pub write : Text → Marked → Marked
write s m = record m { text = s ++ m.text }

abbrev pub warn : Text → Marked → Marked
warn word m = record m { warned = word ∷ m.warned }

module _ (tables : List Text) (literals : List Span) where
  -- What stands before a word at offset `i`.
  unfoldable pub enter : Text → ℕ → Text → Marked → Marked
  enter before i word rest =
      if text_mem word tables
      then if in_span literals i
        then warn word rest
        else if not (preceded_by_dot before)
        then write prefix_marker rest
        else rest
      else rest

  -- `left` bytes of the word that was entered last are still to be copied.
  unfoldable pub mark_from : Text → ℕ → ℕ → Text → Marked
  mark_from before i left [] = record { text = []; warned = [] }
  mark_from before i (suc left) (c ∷ s) = write (c ∷ []) (mark_from (c ∷ before) (i + 1) left s)
  mark_from before i zero (c ∷ s) = elim (is_ident_start c) [
    | false ↦ write (c ∷ []) (mark_from (c ∷ before) (i + 1) 0 s)
    | true ↦
        let word = ident_rest s in
        enter before i (c ∷ word) (write (c ∷ []) (mark_from (c ∷ before) (i + 1) (length word) s))
  ]

unfoldable pub mark_prefixes : Text → List Text → Marked
unfolding mark_from enter text_mem in_span preceded_by_dot is_ident_start is_ident_part ident_rest
    string_literal_spans
mark_prefixes sql [] = record { text = sql; warned = [] }
mark_prefixes sql (t ∷ tables) = mark_from (t ∷ tables) (string_literal_spans sql) [] 0 0 sql
