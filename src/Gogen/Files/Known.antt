-- ===== src/Gogen/Files/Known.antt =====
-- internal/emit/gogen: the parts of the shared files fail only for a consumer's own type.
use sqlc_gen_unison.Base.{
  ◌≡◌, ◌≢◌, refl, inl, inr, Bool, true, false, List, [], ◌∷◌, Text, if◌then◌else◌, ◌==◌, length,
  arith, All, Result, ok, err, ◌>>=◌, map_err, Bool-cases,
}
use sqlc_gen_unison.Ir.{Field, command_invalid, returns_rows, Query}
use sqlc_gen_unison.Converge.Types.Mapped.{IsMapped}
use sqlc_gen_unison.Gogen.Imports.{ImportSet}
use sqlc_gen_unison.Gogen.Types.{
  EmitError, in_part, unparsable, no_import_path, no_type_name, go_type,
}
use sqlc_gen_unison.Gogen.Types.Total.{is_override_error, go_type-err}
use sqlc_gen_unison.Gogen.Interface.{
  write_fields, params_struct, row_struct, types_from, method_results, method_signature,
  querier_from,
}
use sqlc_gen_unison.Gogen.Queries.{
  assertion_fields, write_shape_assertion, query_assertions, assertions_from,
}

-- A consumer's own type that is refused, or source that the formatter refuses.
abbrev pub is_known : EmitError → Bool
is_known (in_part _ e) = is_known e
is_known (unparsable _) = true
is_known (no_import_path _) = true
is_known (no_type_name _) = true
is_known _ = false

-- A run that fails only in a known way.
abbrev pub Known {ℓ} : {A : Type ℓ} → Result EmitError A → Type ℓ
Known m = (e : EmitError) → m ≡ err e → is_known e ≡ true

pub Known-ok {ℓ} : {A : Type ℓ} (a : A) → Known (ok a)
Known-ok a e h = cc

pub Known-bind {ℓ κ} :
    {A : Type ℓ} {B : Type κ} (m : Result EmitError A) (f : A → Result EmitError B)
    → Known m
    → ((a : A) → Known (f a))
    → Known (m >>= f)
Known-bind (ok a) f h k = k a
Known-bind (err e) f h k = λ e' g. h e' (ground arith)

pub Known-map_err {ℓ} :
    {A : Type ℓ} (part : Text) (m : Result EmitError A) → Known m → Known (map_err (in_part part) m)
Known-map_err part (ok a) h = λ e g. cc
Known-map_err part (err e) h = λ e' g. ground (arith, h e refl)

known : (e : EmitError) → is_override_error e ≡ true → is_known e ≡ true
known (no_import_path _) h = refl
known (no_type_name _) h = refl
known _ h = cc

go_type-Known :
    (f : Field) (null_as : Text) (imports : ImportSet)
    → IsMapped f.type
    → Known (go_type f.type null_as imports)
go_type-Known f null_as imports m e h =
    let (_, k) = go_type-err f.type null_as imports e m h in known e k

write_fields-Known :
    (null_as : Text) (fields : List Field) (imports : ImportSet)
    → All (λ f. IsMapped f.type) fields
    → Known (write_fields null_as fields imports)
unfolding write_fields
write_fields-Known null_as [] imports h = Known-ok _
write_fields-Known null_as (f ∷ fields) imports (h, hs) =
    Known-bind _ _ (go_type-Known f null_as imports h) (λ (rendered, imports').
      Known-bind _ _ (write_fields-Known null_as fields imports' hs)
        (λ (rest, imports''). Known-ok _))

abbrev pub AreMapped : List Field → Type 0
AreMapped = All (λ f. IsMapped f.type)

pub params_struct-Known :
    (null_as : Text) (q : Query) (imports : ImportSet)
    → AreMapped q.params
    → Known (params_struct null_as q imports)
unfolding params_struct
params_struct-Known null_as q imports h = elim (Bool-cases (length q.params == 0)) [
  | inl e ↦ rw e (Known-ok _)
  | inr e ↦ rw e (
      Known-bind _ _ (Known-map_err _ _ (write_fields-Known null_as q.params imports h))
        (λ (fields, imports'). Known-ok _))
]

pub row_struct-Known :
    (null_as : Text) (q : Query) (imports : ImportSet)
    → AreMapped q.columns
    → Known (row_struct null_as q imports)
unfolding row_struct
row_struct-Known null_as q imports h = elim (Bool-cases (returns_rows q.command)) [
  | inr e ↦ rw e (Known-ok _)
  | inl e ↦ rw e (
      Known-bind _ _ (Known-map_err _ _ (write_fields-Known null_as q.columns imports h))
        (λ (fields, imports'). Known-ok _))
]

pub types_from-Known :
    (null_as : Text) (qs : List Query) (imports : ImportSet)
    → All (λ q. AreMapped q.params) qs
    → All (λ q. AreMapped q.columns) qs
    → Known (types_from null_as qs imports)
unfolding types_from
types_from-Known null_as [] imports h k = Known-ok _
types_from-Known null_as (q ∷ qs) imports (h, hs) (k, ks) =
    Known-bind _ _ (params_struct-Known null_as q imports h) (λ (params, imports1).
      Known-bind _ _ (row_struct-Known null_as q imports1 k) (λ (row, imports2).
        Known-bind _ _ (types_from-Known null_as qs imports2 hs ks)
          (λ (rest, imports3). Known-ok _)))

pub method_results-Known :
    (q : Query) (imports : ImportSet)
    → q.command ≢ command_invalid
    → Known (method_results q imports)
unfolding method_results
method_results-Known q imports h e g = ground arith

pub method_signature-Known :
    (q : Query) (imports : ImportSet)
    → q.command ≢ command_invalid
    → Known (method_signature q imports)
unfolding method_signature
method_signature-Known q imports h =
    Known-bind _ _ (method_results-Known q imports h) (λ (results, imports'). Known-ok _)

pub querier_from-Known :
    (qs : List Query) (imports : ImportSet)
    → All (λ q. q.command ≢ command_invalid) qs
    → Known (querier_from qs imports)
unfolding querier_from
querier_from-Known [] imports h = Known-ok _
querier_from-Known (q ∷ qs) imports (h, hs) =
    Known-bind _ _ (method_signature-Known q imports h) (λ (signature, imports1).
      Known-bind _ _ (querier_from-Known qs imports1 hs) (λ (rest, imports2). Known-ok _))

assertion_fields-Known :
    (null_as : Text) (fields : List Field) (imports : ImportSet)
    → AreMapped fields
    → Known (assertion_fields null_as fields imports)
unfolding assertion_fields
assertion_fields-Known null_as [] imports h = Known-ok _
assertion_fields-Known null_as (f ∷ fields) imports (h, hs) =
    Known-bind _ _ (go_type-Known f null_as imports h) (λ (rendered, imports').
      Known-bind _ _ (assertion_fields-Known null_as fields imports' hs)
        (λ (rest, imports''). Known-ok _))

write_shape_assertion-Known :
    (null_as type_name : Text) (fields : List Field) (imports : ImportSet)
    → AreMapped fields
    → Known (write_shape_assertion null_as type_name fields imports)
unfolding write_shape_assertion
write_shape_assertion-Known null_as type_name fields imports h =
    Known-bind _ _ (Known-map_err _ _ (assertion_fields-Known null_as fields imports h))
      (λ (body, imports'). Known-ok _)

Known-if {ℓ} :
    {A : Type ℓ} (b : Bool) (m n : Result EmitError A)
    → Known m
    → Known n
    → Known (if b then m else n)
Known-if true m n h k = h
Known-if false m n h k = k

pub assertions_from-Known :
    (null_as : Text) (qs : List Query) (imports : ImportSet)
    → All (λ q. AreMapped q.params) qs
    → All (λ q. AreMapped q.columns) qs
    → Known (assertions_from null_as qs imports)
unfolding assertions_from query_assertions
assertions_from-Known null_as [] imports h k = Known-ok _
assertions_from-Known null_as (q ∷ qs) imports (h, hs) (k, ks) =
    Known-bind _ _
      (Known-bind _ _
        (Known-if (length q.params == 0) _ _ (Known-ok _)
          (write_shape_assertion-Known null_as _ q.params imports h))
        (λ (params, imports1).
          Known-bind _ _
            (Known-if (returns_rows q.command) _ _
              (write_shape_assertion-Known null_as _ q.columns imports1 k) (Known-ok _))
            (λ (row, imports2). Known-ok _)))
      (λ (here, imports1).
        Known-bind _ _ (assertions_from-Known null_as qs imports1 hs ks)
          (λ (rest, imports2). Known-ok _))
