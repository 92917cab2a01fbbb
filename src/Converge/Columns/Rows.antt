-- ===== src/Converge/Columns/Rows.antt =====
-- internal/converge/converge.go, `convergeColumns`: the row's fields, and what a repeated name is
-- refused with.
use sqlc_gen_unison.Base.{
  ℕ, ◌+◌, ◌≡◌, ◌≢◌, ◌<◌, refl, sym, ap, ap₂, ◌∙◌, append_assoc, length-append, Option-cases,
  Result-cases, inl, inr, Bool, false, Option, none, some, List, [], ◌∷◌, ◌++◌, map, Text, text_eq,
  text_eq_iff, if◌then◌else◌, length, get_elem?, arith, All, All-map, ok, err, bind-eq-ok, refuse,
  Bool-cases, subst,
}
use sqlc_gen_unison.Base.Sets.{AreDistinct}
use sqlc_gen_unison.Ir.{Field, Command, returns_rows}
use sqlc_gen_unison.Options.{Options, map_get, override_for}
use sqlc_gen_unison.Converge.Analysis.{Column, unnamed_column, repeated_column}
use sqlc_gen_unison.Converge.Types.{map_type, unmapped_type_error}
use sqlc_gen_unison.Converge.Types.Mapped.{IsMapped, NamesTypes, map_type-IsMapped}
use sqlc_gen_unison.Gogen.Types.Renders.{Renders, IsMapped-Renders}
use sqlc_gen_unison.Converge.Columns.{column_type_name, refuse_seen, columns_from, converge_columns}

abbrev pub column_names : List Column → List Text
column_names = map (λ c. c.name)

-- The fields have the columns' names, and the types that the columns are mapped to.
abbrev pub AreTyped : Options → List Column → List Field → Type 0
AreTyped opts [] [] = Unit {0}
AreTyped opts (c ∷ columns) (f ∷ fields) =
    (f.name ≡ c.name)
    × (map_type c.table_name c.name (column_type_name c) c.not_null (override_for opts) ≡ ok f.type)
    × AreTyped opts columns fields
AreTyped opts [] (f ∷ fields) = ⊥
AreTyped opts (c ∷ columns) [] = ⊥

-- A field that holds one value of a consumer's own type or of a converged kind.
abbrev pub IsScalar : Field → Type 0
IsScalar f = (f.name ≢ []) × IsMapped f.type × (f.type.slice ≡ false)

refuse_seen-eq-ok :
    (name : Text) (i : ℕ) (seen : List (Text × ℕ))
    → refuse_seen name i seen ≡ ok tt
    → map_get name seen ≡ none
unfolding refuse_seen
refuse_seen-eq-ok name i seen h = ground arith

-- An index that a later name is not found at.
module _ (i : ℕ) (seen : List (Text × ℕ)) (name n : Text)
    (fresh : map_get n ((name, i) ∷ seen) ≡ none) where
  older : map_get n seen ≡ none
  unfolding map_get
  older = ground arith

  differs : name ≢ n
  unfolding map_get
  differs e = ground (arith, text_eq_iff name n)

module _ (opts : Options) (names : NamesTypes (override_for opts)) where
  record IsRow (seen : List (Text × ℕ)) (columns : List Column) (fields : List Field) : Type 0 where
    named : map (λ f. f.name) fields ≡ column_names columns
    fresh : All (λ n. map_get n seen ≡ none) (column_names columns)
    distinct : AreDistinct (column_names columns)
    scalar : All IsScalar fields
    typed : AreTyped opts columns fields

  columns_from-IsRow :
      (i : ℕ) (seen : List (Text × ℕ)) (columns : List Column) (fields : List Field)
      → columns_from opts i seen columns ≡ ok fields
      → IsRow seen columns fields
  unfolding columns_from
  columns_from-IsRow i seen [] [] h = record {
    named = refl;
    fresh = tt;
    distinct = tt;
    scalar = tt;
    typed = tt;
  }
  columns_from-IsRow i seen [] (f ∷ fields) h = cc
  columns_from-IsRow i seen (c ∷ columns) fields h =
      let (_, named, h1) = bind-eq-ok (refuse (text_eq c.name []) (unnamed_column (i + 1))) _ h in
      let (_, new, h2) = bind-eq-ok (refuse_seen c.name i seen) _ h1 in
      let (t, typed, h3) =
        bind-eq-ok
          (map_type c.table_name c.name (column_type_name c) c.not_null (override_for opts)) _ h2 in
      let (rest, later, h4) =
        bind-eq-ok (columns_from opts (i + 1) ((c.name, i) ∷ seen) columns) _ h3 in
      let v = columns_from-IsRow (i + 1) ((c.name, i) ∷ seen) columns rest later in
      let (mapped, single, _) = map_type-IsMapped _ _ _ _ _ t names typed in
      let e : record { name = c.name; type = t } ∷ rest ≡ fields = ground arith in
      subst (IsRow seen (c ∷ columns)) e (record {
        named = ap (◌∷◌ c.name) v.named;
        fresh = (
          refuse_seen-eq-ok c.name i seen new,
          All-map (λ n fresh. older i seen c.name n fresh) _ v.fresh,
        );
        distinct = (All-map (λ n fresh. differs i seen c.name n fresh) _ v.fresh, v.distinct);
        scalar = (((λ e. ground (arith, text_eq_iff c.name [])), mapped, single), v.scalar);
        typed = (refl, typed, v.typed);
      })

-- Where the overrides name types, as complete ones do: the fields of a row are the columns of the
-- projection in their order, each with the column's name, which is its own and not empty, and with the
-- type that the column is mapped to, as a single value; a command that returns no rows has none; and
-- every type is rendered by the emitter, but for a consumer's own that is refused for naming a package
-- without its import path or an import path without a type.
pub converge_columns-rows :
    (opts : Options) (columns : List Column) (command : Command) (fields : List Field)
    → NamesTypes (override_for opts)
    → converge_columns opts columns command ≡ ok fields
    → (map (λ f. f.name) fields ≡ (if returns_rows command then column_names columns else []))
      × AreTyped opts (if returns_rows command then columns else []) fields
      × AreDistinct (map (λ f. f.name) fields)
      × All IsScalar fields
      × All (λ f. Renders f.type) fields
unfolding converge_columns
converge_columns-rows opts columns command fields names h =
    elim (Bool-cases (returns_rows command)) [
      | inl e ↦
          let v = columns_from-IsRow opts names 0 [] columns fields (ground arith) in
          rw e (
            v.named,
            v.typed,
            rw v.named v.distinct,
            v.scalar,
            All-map (λ f m. IsMapped-Renders f.type m.1) fields v.scalar,
          )
      | inr e ↦
          let empty : [] ≡ fields = ground arith in
          rw e (
            subst
              (λ fs.
                (map (λ f. f.name) fs ≡ [])
                × AreTyped opts [] fs
                × AreDistinct (map (λ f. f.name) fs)
                × All IsScalar fs
                × All (λ f. Renders f.type) fs)
              empty (refl, tt, tt, tt, tt))
    ]

-- What a run has seen stands in the projection, before the column at hand.
abbrev Stands : List Text → ℕ → List (Text × ℕ) → Type 0
Stands names i seen =
    (n : Text) (k : ℕ) → map_get n seen ≡ some k → (get_elem? names k ≡ some n) × (k < i)

get_elem?-length :
    (xs : List Text) (y : Text) (ys : List Text) → get_elem? (xs ++ y ∷ ys) (length xs) ≡ some y
get_elem?-length [] y ys = refl
get_elem?-length (x ∷ xs) y ys = get_elem?-length xs y ys

map_type-ne-repeated :
    (table column type : Text) (not_null : Bool) (override : Text → Text → Option Text)
    (name : Text) (a b : ℕ)
    → map_type table column type not_null override ≢ err (repeated_column name a b)
unfolding map_type unmapped_type_error
map_type-ne-repeated table column type not_null override name a b h = ground arith

module _ (opts : Options) (names : List Text) (name : Text) (a b : ℕ) where
  abbrev Repeats : Type 0
  Repeats = (get_elem? names a ≡ some name) × (get_elem? names b ≡ some name) × (a < b)

  columns_from-repeated :
      (before : List Text) (i : ℕ) (seen : List (Text × ℕ)) (columns : List Column)
      → names ≡ before ++ column_names columns
      → i ≡ length before
      → Stands names i seen
      → columns_from opts i seen columns ≡ err (repeated_column name (a + 1) (b + 1))
      → Repeats
  unfolding columns_from refuse_seen map_get
  columns_from-repeated before i seen [] whole at st h = cc
  columns_from-repeated before i seen (c ∷ columns) whole at st h =
      let here : get_elem? names i ≡ some c.name =
        ap₂ get_elem? whole at ∙ get_elem?-length before c.name (column_names columns) in
      elim (Bool-cases (text_eq c.name [])) [
        | inl e ↦ cc (rw e at h)
        | inr e ↦ elim (Option-cases (map_get c.name seen)) [
          | inr (k, known) ↦
              let (there, earlier) = st c.name k known in (ground arith, ground arith, ground arith)
          | inl new ↦
              elim (Result-cases (
                map_type c.table_name c.name (column_type_name c) c.not_null (override_for opts))) [
                  | inr (f, bad) ↦ absurd (
                      map_type-ne-repeated c.table_name c.name (column_type_name c) c.not_null
                        (override_for opts) name (a + 1) (b + 1) (ground arith))
                  | inl (t, good) ↦
                      columns_from-repeated (before ++ c.name ∷ []) (i + 1) ((c.name, i) ∷ seen)
                        columns
                        (whole ∙ sym (append_assoc before (c.name ∷ []) (column_names columns)))
                        (omega (arith, length-append before (c.name ∷ [])))
                        (λ n k known. elim (Bool-cases (text_eq c.name n)) [
                          | inl same ↦ (ground (arith, text_eq_iff c.name n), ground arith)
                          | inr other ↦
                              let (there, earlier) = st n k (ground arith) in (there, omega arith)
                        ])
                        (ground arith)
                ]
        ]
      ]

-- A projection that is refused for a repeated name does hold that name at both positions that the
-- message gives, counted from one, and the first lies before the second.
pub converge_columns-repeated :
    (opts : Options) (columns : List Column) (command : Command) (name : Text) (a b : ℕ)
    → converge_columns opts columns command ≡ err (repeated_column name (a + 1) (b + 1))
    → (get_elem? (column_names columns) a ≡ some name)
      × (get_elem? (column_names columns) b ≡ some name)
      × (a < b)
unfolding converge_columns map_get
converge_columns-repeated opts columns command name a b h =
    columns_from-repeated opts (column_names columns) name a b [] 0 [] columns refl (omega arith)
      (λ n k known. cc) (ground arith)
