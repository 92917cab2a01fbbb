-- ===== src/Converge/Params/Bindings.antt =====
-- internal/converge/converge.go, `convergeParams`: fields with a type, and placeholders that
-- bind them.
use sqlc_gen_unison.Base.{
  ℕ, ◌+◌, ◌≡◌, ◌≢◌, refl, true, false, ◌&&◌, Option, none, some, List, [], ◌∷◌, ◌++◌, Text, text_eq,
  text_eq_iff, if◌then◌else◌, arith, All,
}
use sqlc_gen_unison.Ir.{FieldType, Field, Arg}
use sqlc_gen_unison.Converge.Types.Mapped.{IsMapped}
use sqlc_gen_unison.Converge.Slices.{ListKind, not_a_list, bound_list, expanded_list}
use sqlc_gen_unison.Converge.Params.{is_list, bind_arg}

-- The type of the first field of a name.
unfoldable pub type_of : Text → List Field → Option FieldType
type_of name [] = none
type_of name (f ∷ fields) =
    let later = type_of name fields in if text_eq f.name name then some f.type else later

-- How many placeholders bind a name.
unfoldable pub uses : Text → List Arg → ℕ
uses name [] = 0
uses name (a ∷ args) = (if text_eq a.name name then 1 else 0) + uses name args

abbrev pub IsRenderable : Field → Type 0
IsRenderable f = IsMapped f.type × ((f.type.slice && f.type.nullable) ≡ false)

-- A placeholder binds a field, and expands only for a list.
abbrev pub Binds : List Field → Arg → Type 0
Binds fields a =
    (t : FieldType) × (type_of a.name fields ≡ some t) × (a.expand ≢ [] → t.slice ≡ true)

abbrev pub IsBoundOnce : List Arg → Field → Type 0
IsBoundOnce args f = f.type.slice ≡ true → uses f.name args ≡ 1

pub type_of-append :
    (name : Text) (fields : List Field) (f : Field)
    → type_of name (fields ++ f ∷ []) ≡ elim (type_of name fields) [
      | some t ↦ some t
      | none ↦ if text_eq f.name name then some f.type else none
    ]
unfolding type_of
type_of-append name [] f = refl
type_of-append name (g ∷ fields) f = ground (arith, type_of-append name fields f)

pub uses-append :
    (name : Text) (args : List Arg) (a : Arg)
    → uses name (args ++ a ∷ []) ≡ uses name args + (if text_eq a.name name then 1 else 0)
unfolding uses
uses-append name [] a = omega arith
uses-append name (b ∷ args) a = omega (arith, uses-append name args a)

-- No placeholder binds a name that no field has.
pub uses_of_Binds :
    (name : Text) (fields : List Field) (args : List Arg)
    → All (Binds fields) args
    → type_of name fields ≡ none
    → uses name args ≡ 0
unfolding uses
uses_of_Binds name fields [] _ h = refl
uses_of_Binds name fields (a ∷ args) ((t, known, _), hs) h =
    ground (arith, uses_of_Binds name fields args hs h, text_eq_iff a.name name)

pub Binds-append :
    (fields : List Field) (f : Field) (a : Arg) → Binds fields a → Binds (fields ++ f ∷ []) a
Binds-append fields f a (t, known, list) = (t, ground (arith, type_of-append a.name fields f), list)

pub bind_arg-name :
    (name reported : Text) (list : ListKind) → (bind_arg name reported list).name ≡ name
unfolding bind_arg
bind_arg-name name reported expanded_list = refl
bind_arg-name name reported _ = refl

pub bind_arg_list :
    (name reported : Text) (list : ListKind)
    → (bind_arg name reported list).expand ≢ []
    → is_list list ≡ true
unfolding bind_arg
bind_arg_list name reported expanded_list h = refl
bind_arg_list name reported bound_list h = refl
bind_arg_list name reported not_a_list h = absurd (h refl)
