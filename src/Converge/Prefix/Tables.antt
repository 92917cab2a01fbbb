-- ===== src/Converge/Prefix/Tables.antt =====
-- internal/converge/prefix.go, `userTables`: which tables are marked, and in which order they are tried.
use sqlc_gen_unison.Base.{
  ◌≡◌, refl, ◌∙◌, Bool, ◌&&◌, ◌||◌, not, List, [], ◌∷◌, ◌++◌, Text, text_eq, text_eq_iff, text_mem,
  text_mem-cons, any, arith,
}
use sqlc_gen_unison.Base.Order.{
  text_le_total, text_le_trans, IsOrder, sort_by, IsSorted, sort_by-IsSorted, any-sort_by,
}
use sqlc_gen_unison.Converge.Prefix.{
  Schema, Catalog, named_tables, default_tables, table_le, user_tables,
}

table_order : IsOrder table_le
unfolding table_le
table_order = record {
  total = λ a b h. ground (arith, text_le_total a b);
  trans = λ a b c h k. ground (arith, text_le_trans a b c);
}

-- The catalog has a table of this name in a schema that has the default's name.
abbrev pub declares : Text → Catalog → Bool
declares name c =
    not (text_eq name [])
    && any (λ (s : Schema). text_eq s.name c.default_schema && text_mem name s.tables) c.schemas

text_mem-append :
    (x : Text) (s t : List Text) → text_mem x (s ++ t) ≡ (text_mem x s || text_mem x t)
text_mem-append x [] t = unfold text_mem any in refl
text_mem-append x (y ∷ s) t =
    ground (arith, text_mem-append x s t, text_mem-cons x y s, text_mem-cons x y (s ++ t))

text_mem-named_tables :
    (x : Text) (ts : List Text)
    → text_mem x (named_tables ts) ≡ (not (text_eq x []) && text_mem x ts)
unfolding named_tables
text_mem-named_tables x [] = unfold text_mem any in ground arith
text_mem-named_tables x (t ∷ ts) = ground (
  arith,
  text_mem-named_tables x ts,
  text_mem-cons x t ts,
  text_mem-cons x t (named_tables ts),
  text_eq_iff x t,
  text_eq_iff x [],
  text_eq_iff t [],
)

text_mem-default_tables :
    (x def : Text) (ss : List Schema)
    → text_mem x (default_tables def ss)
      ≡ (not (text_eq x []) && any (λ (s : Schema). text_eq s.name def && text_mem x s.tables) ss)
unfolding default_tables any
text_mem-default_tables x def [] = unfold text_mem any in ground arith
text_mem-default_tables x def (s ∷ ss) = ground (
  arith,
  text_mem-default_tables x def ss,
  text_mem-named_tables x s.tables,
  text_mem-append x (named_tables s.tables) (default_tables def ss),
)

text_mem-sorted : (x : Text) (ts : List Text) → text_mem x (sort_by table_le ts) ≡ text_mem x ts
unfolding text_mem
text_mem-sorted x ts = any-sort_by table_le (text_eq x) ts

-- The tables that are marked are those of the default schema that have a name, longer names first.
pub user_tables-IsSorted :
    (c : Catalog)
    → IsSorted table_le (user_tables c)
      × ((name : Text) → text_mem name (user_tables c) ≡ declares name c)
unfolding user_tables
user_tables-IsSorted c = (
  sort_by-IsSorted table_le table_order (default_tables c.default_schema c.schemas),
  λ name.
      text_mem-sorted name (default_tables c.default_schema c.schemas)
      ∙ text_mem-default_tables name c.default_schema c.schemas,
)
