-- ===== src/Gogen/Queries/Assertions.antt =====
-- internal/emit/gogen: a shape assertion and the shared struct that it pins are written from the same
-- declarations, whatever imports each file has so far.
use sqlc_gen_unison.Base.{
  ℕ, zero, suc, ◌≡◌, refl, ap, inl, inr, Bool, true, false, not, List, [], ◌∷◌, ◌++◌, map, Text,
  codes, text_eq, if◌then◌else◌, arith, length, ok, err, ◌>>=◌, bind-eq-ok, Result-cases,
  Option-cases,
}
use sqlc_gen_unison.Ir.{
  Kind, kind_invalid, kind_string, kind_int64, kind_float64, kind_bool, kind_time, kind_bytes,
  FieldType, Field,
}
use sqlc_gen_unison.Options.{null_sql}
use sqlc_gen_unison.Strings.{trim_space, cut_prefix, contains}
use sqlc_gen_unison.Gogen.Names.{exported_name}
use sqlc_gen_unison.Gogen.Imports.{ImportSet}
use sqlc_gen_unison.Gogen.Types.{
  EmitError, Rendered, cut_last, plain_type, sql_null_type, render_qualified, render_plain,
  render_starred, render_override, is_bytes, element_type, go_type,
}
use sqlc_gen_unison.Gogen.Interface.{write_fields}
use sqlc_gen_unison.Gogen.Queries.{assertion_fields}

-- Where the one gives a text, so does the other, the same one.
abbrev Agree : Rendered → Rendered → Type 0
Agree m n = (r : Text) (i : ImportSet) → m ≡ ok (r, i) → (j : ImportSet) × (n ≡ ok (r, j))

Agree-ok : (r : Text) (i j : ImportSet) → Agree (ok (r, i)) (ok (r, j))
Agree-ok r i j s k h = (j, ground arith)

Agree-err : (e : EmitError) (n : Rendered) → Agree (err e) n
Agree-err e n r i h = cc

Agree-if :
    (b : Bool) (m m' n n' : Rendered)
    → Agree m n
    → Agree m' n'
    → Agree (if b then m else m') (if b then n else n')
Agree-if true m m' n n' h k = h
Agree-if false m m' n n' h k = k

Agree-bind :
    (m n : Rendered) (g : Text → Text)
    → Agree m n
    → Agree (m >>= λ (r, i). ok (g r, i)) (n >>= λ (r, i). ok (g r, i))
Agree-bind (ok (r, i)) n g h s k e = let (j, same) = h r i refl in (j, ground arith)
Agree-bind (err x) n g h s k e = cc

plain_type-Agree : (k : Kind) (i j : ImportSet) → Agree (plain_type k i) (plain_type k j)
unfolding plain_type
plain_type-Agree kind_string i j = Agree-ok _ _ _
plain_type-Agree kind_int64 i j = Agree-ok _ _ _
plain_type-Agree kind_float64 i j = Agree-ok _ _ _
plain_type-Agree kind_bool i j = Agree-ok _ _ _
plain_type-Agree kind_time i j = Agree-ok _ _ _
plain_type-Agree kind_bytes i j = Agree-ok _ _ _
plain_type-Agree kind_invalid i j = Agree-err _ _

render_qualified-Agree :
    (override : Text) (i j : ImportSet)
    → Agree (render_qualified override i) (render_qualified override j)
unfolding render_qualified
render_qualified-Agree override i j = elim (Option-cases (cut_last b'.' override)) [
  | inl e ↦ rw (e, render_qualified) (Agree-err _ _)
  | inr ((import_path, type_name), e) ↦
      rw (e, render_qualified)
        (Agree-if (contains type_name (codes "/")) _ _ _ _ (Agree-err _ _) (Agree-ok _ _ _))
]

render_plain-Agree :
    (override : Text) (i j : ImportSet) → Agree (render_plain override i) (render_plain override j)
unfolding render_plain
render_plain-Agree override i j =
    Agree-if (not (contains override (codes "/"))) _ _ _ _
      (Agree-if (contains override (codes ".")) _ _ _ _ (Agree-err _ _) (Agree-ok _ _ _))
      (render_qualified-Agree override i j)

render_starred-Agree :
    (fuel : ℕ) (override : Text) (i j : ImportSet)
    → Agree (render_starred fuel override i) (render_starred fuel override j)
unfolding render_starred
render_starred-Agree zero override i j = Agree-err _ _
render_starred-Agree (suc fuel) override i j =
    elim (Option-cases (cut_prefix (trim_space override) (codes "*"))) [
      | inl e ↦ rw (e, render_starred) (render_plain-Agree (trim_space override) i j)
      | inr (pointee, e) ↦
          rw (e, render_starred)
            (Agree-bind _ _ (λ r. codes "*" ++ r) (render_starred-Agree fuel pointee i j))
    ]

sql_null_type-Agree :
    (k : Kind) (i j : ImportSet)
    → Agree (sql_null_type k >>= λ r. ok (r, i)) (sql_null_type k >>= λ r. ok (r, j))
sql_null_type-Agree k i j = elim (Result-cases (sql_null_type k)) [
  | inl (r, e) ↦ rw e (Agree-ok _ _ _)
  | inr (x, e) ↦ rw e (Agree-err _ _)
]

element_type-Agree :
    (t : FieldType) (null_as : Text) (i j : ImportSet)
    → Agree (element_type t null_as i) (element_type t null_as j)
unfolding element_type render_override
element_type-Agree t null_as i j =
    Agree-if (not (text_eq t.override [])) _ _ _ _
      (render_starred-Agree (suc (length t.override)) t.override i j)
      (Agree-if (is_bytes t.kind) _ _ _ _ (Agree-ok (codes "[]byte") i j) (
        Agree-if (not t.nullable) _ _ _ _ (plain_type-Agree t.kind i j) (
          Agree-if (text_eq null_as null_sql) _ _ _ _ (sql_null_type-Agree t.kind _ _)
            (Agree-bind _ _ (λ r. codes "*" ++ r) (plain_type-Agree t.kind i j)))))

go_type-Agree :
    (t : FieldType) (null_as : Text) (i j : ImportSet)
    → Agree (go_type t null_as i) (go_type t null_as j)
unfolding go_type
go_type-Agree t null_as i j =
    Agree-if t.slice _ _ _ _
      (Agree-bind _ _ (λ r. codes "[]" ++ r)
        (element_type-Agree (record t { slice = false }) null_as i j))
      (element_type-Agree t null_as i j)

-- Declarations of fields, a name and a type each, one to a line.
abbrev pub declarations : Text → List (Text × Text) → Text
declarations indent [] = []
declarations indent ((name, type) ∷ rest) =
    indent ++ name ++ codes " " ++ type ++ codes "\n" ++ declarations indent rest

abbrev pub field_idents : List Field → List Text
field_idents = map (λ f. exported_name f.name)

-- Where the fields of a shared struct are written, they are one declaration for each field, in their
-- order and under their exported names; and the shape assertion is written too, whatever imports its
-- own file has so far, and consists of the same declarations.
pub write_fields-assertion_fields :
    (null_as : Text) (fields : List Field) (i j i' : ImportSet) (body : Text)
    → write_fields null_as fields i ≡ ok (body, i')
    → (decls : List (Text × Text)) × (j' : ImportSet) × (map (λ d. d.0) decls ≡ field_idents fields)
      × (body ≡ declarations (codes "\t") decls)
      × (assertion_fields null_as fields j ≡ ok (declarations (codes "\t\t") decls, j'))
unfolding write_fields assertion_fields
write_fields-assertion_fields null_as [] i j i' body h = ([], j, refl, ground arith, refl)
write_fields-assertion_fields null_as (f ∷ fields) i j i' body h =
    let ((type, i1), first, h1) = bind-eq-ok (go_type f.type null_as i) _ h in
    let ((rest, i2), later, h2) = bind-eq-ok (write_fields null_as fields i1) _ h1 in
    let (j1, first') = go_type-Agree f.type null_as i j type i1 first in
    let (decls, j2, names, same, later') =
      write_fields-assertion_fields null_as fields i1 j1 i2 rest later in
    (
      (exported_name f.name, type) ∷ decls,
      j2,
      ap (λ ns. exported_name f.name ∷ ns) names,
      ground (arith, same),
      rw (first', later') refl,
    )
