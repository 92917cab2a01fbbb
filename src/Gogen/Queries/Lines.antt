-- ===== src/Gogen/Queries/Lines.antt =====
-- internal/emit/gogen/queries.go: the emitted text as lines, and the parts of it that stand on one line.
use sqlc_gen_unison.Base.{
  ℕ, ◌≡◌, ◌≢◌, refl, sym, ap, subst, ◌∙◌, inl, inr, true, false, List, [], ◌∷◌, ◌++◌, append_assoc,
  Text, codes, text_eq, text_eq_iff, text_eq_refl, ◌==◌, if◌then◌else◌, length, length-append, any,
  arith, All, All-append, All-map, Bool-cases, &&-eq-true,
}
use sqlc_gen_unison.Options.{map_get}
use sqlc_gen_unison.Strings.{trim_suffix}
use sqlc_gen_unison.Gogen.Names.{exported_name}
use sqlc_gen_unison.Gogen.Names.Identifiers.{IsSqlName, IsSpelled, names-IsSpelled}
use sqlc_gen_unison.Gogen.Imports.{quote_byte, quote_bytes, quoted}
use sqlc_gen_unison.Gogen.Times.{
  time_text_func, time_text_ptr_func, time_text_null_func, TimeBinder, TimeBinders, binder_for,
  bind_value, bind_element,
}
use sqlc_gen_unison.Gogen.Times.Binders.{is_binder, AreBinders}
use sqlc_gen_unison.Gogen.Queries.Methods.{arg_field}

abbrev pub start_line : ℕ → List Text → List Text
start_line c [] = (c ∷ []) ∷ []
start_line c (l ∷ ls) = (c ∷ l) ∷ ls

-- The lines of a text.
unfoldable pub lines : Text → List Text
lines [] = [] ∷ []
lines (c ∷ s) = let rest = lines s in if c == 10 then [] ∷ rest else start_line c rest

abbrev pub OnLine : Text → Type 0
OnLine s = All (λ c. c ≢ 10) s

pub OnLine-append : (s t : Text) → OnLine s → OnLine t → OnLine (s ++ t)
OnLine-append s t h k = All-append (λ c. c ≢ 10) s t h k

pub lines-append : (s rest : Text) → OnLine s → lines (s ++ 10 ∷ rest) ≡ s ∷ lines rest
unfolding lines
lines-append [] rest h = refl
lines-append (c ∷ s) rest (h, hs) = ground (arith, lines-append s rest)

pub OnLine-of_any : (s : Text) → any (λ c. c == 10) s ≡ false → OnLine s
unfolding any
OnLine-of_any [] h = tt
OnLine-of_any (c ∷ s) h = ((λ e. ground arith), OnLine-of_any s (ground arith))

pub quote_byte-OnLine : (c : ℕ) → OnLine (quote_byte c)
unfolding any quote_byte
quote_byte-OnLine c = OnLine-of_any (quote_byte c) (ground arith)

pub quote_bytes-OnLine : (s : Text) → OnLine (quote_bytes s)
unfolding quote_bytes
quote_bytes-OnLine [] = tt
quote_bytes-OnLine (c ∷ s) =
    All-append (λ d. d ≢ 10) (quote_byte c) (quote_bytes s) (quote_byte-OnLine c)
      (quote_bytes-OnLine s)

pub quoted-OnLine : (s : Text) → OnLine (quoted s)
unfolding quoted any
quoted-OnLine s = (
  (λ e. ground arith),
  All-append (λ d. d ≢ 10) (quote_bytes s) (codes "\"") (quote_bytes-OnLine s)
      (OnLine-of_any (codes "\"") refl),
)

pub IsSpelled-OnLine : (s : Text) → IsSpelled s → OnLine s
IsSpelled-OnLine [] h = absurd h
IsSpelled-OnLine (c ∷ s) (h, hs) = ((λ e. ground arith), All-map (λ d k e. ground arith) s hs)

pub arg_field-OnLine : (name : Text) → IsSqlName name → OnLine (arg_field name)
unfolding any
arg_field-OnLine name h =
    let (exported, _) = names-IsSpelled name h in
    All-append (λ d. d ≢ 10) (codes "arg.") (exported_name name) (OnLine-of_any (codes "arg.") refl)
      (IsSpelled-OnLine (exported_name name) exported)

-- A binder of the time arguments, whose functions are named on one line.
abbrev pub IsBinder : TimeBinder → Type 0
IsBinder b = OnLine b.value × OnLine b.element

pub OnLine-of_eq : (s t : Text) → OnLine t → text_eq s t ≡ true → OnLine s
OnLine-of_eq s t h e = subst OnLine (sym ((text_eq_iff s t).0 e)) h

pub is_binder-IsBinder : (b : TimeBinder) → is_binder b ≡ true → IsBinder b
unfolding is_binder any
is_binder-IsBinder b h =
    let plain = OnLine-of_any time_text_func refl in
    let ptr = OnLine-of_any time_text_ptr_func refl in
    let null = OnLine-of_any time_text_null_func refl in
    elim (Bool-cases (text_eq b.element [])) [
      | inr e ↦
          let (element, value) =
            &&-eq-true (text_eq b.element time_text_func) (text_eq b.value []) (ground arith) in
          (OnLine-of_eq b.value [] tt value, OnLine-of_eq b.element time_text_func plain element)
      | inl e ↦ (
        (elim (Bool-cases (text_eq b.value [])) [
          | inl f ↦ OnLine-of_eq b.value [] tt f
          | inr f ↦ elim (Bool-cases (text_eq b.value time_text_func)) [
            | inl g ↦ OnLine-of_eq b.value time_text_func plain g
            | inr g ↦ elim (Bool-cases (text_eq b.value time_text_ptr_func)) [
              | inl k ↦ OnLine-of_eq b.value time_text_ptr_func ptr k
              | inr k ↦ OnLine-of_eq b.value time_text_null_func null (ground arith)
            ]
          ]
        ]),
        OnLine-of_eq b.element [] tt e,
      )
    ]

pub binder_for-IsBinder :
    (name : Text) (bs : TimeBinders) → AreBinders bs → IsBinder (binder_for bs name)
unfolding binder_for map_get
binder_for-IsBinder name [] h = (tt, tt)
binder_for-IsBinder name ((k, b) ∷ bs) (h, hs) = elim (Bool-cases (text_eq k name)) [
  | inl e ↦ rw (binder_for, map_get, e) (is_binder-IsBinder b h)
  | inr e ↦ rw (binder_for, map_get, e) (binder_for-IsBinder name bs hs)
]

pub call-OnLine : (f x : Text) → OnLine f → OnLine x → OnLine (f ++ codes "(" ++ x ++ codes ")")
unfolding any
call-OnLine f x h k =
    All-append _ (f ++ codes "(" ++ x) (codes ")")
      (All-append _ (f ++ codes "(") x
        (All-append _ f (codes "(") h (OnLine-of_any (codes "(") refl)) k)
      (OnLine-of_any (codes ")") refl)

pub bind_value-OnLine :
    (field : Text) (b : TimeBinder) → OnLine field → IsBinder b → OnLine (bind_value field b)
unfolding bind_value
bind_value-OnLine field b h (v, _) = elim (Bool-cases (text_eq b.value [])) [
  | inl e ↦ rw (bind_value, e) h
  | inr e ↦ rw (bind_value, e) (call-OnLine b.value field v h)
]

pub bind_element-OnLine :
    (x : Text) (b : TimeBinder) → OnLine x → IsBinder b → OnLine (bind_element x b)
unfolding bind_element
bind_element-OnLine x b h (_, v) = elim (Bool-cases (text_eq b.element [])) [
  | inl e ↦ rw (bind_element, e) h
  | inr e ↦ rw (bind_element, e) (call-OnLine b.element x v h)
]

pub lines-part :
    (s t rest : Text) → OnLine s → OnLine t → lines (s ++ (t ++ 10 ∷ rest)) ≡ (s ++ t) ∷ lines rest
lines-part s t rest h k =
    ap lines (sym (append_assoc s t (10 ∷ rest)))
    ∙ lines-append (s ++ t) rest (All-append _ s t h k)

pub lines-parts :
    (s e t rest : Text)
    → OnLine s
    → OnLine e
    → OnLine t
    → lines (s ++ (e ++ (t ++ 10 ∷ rest))) ≡ (s ++ e ++ t) ∷ lines rest
lines-parts s e t rest h k l =
    ap lines (sym (append_assoc s e (t ++ 10 ∷ rest)))
    ∙ lines-part (s ++ e) t rest (All-append _ s e h k) l

pub length-behind : (c : ℕ) (s p : Text) → (c ∷ s) ++ p ≢ p
length-behind c s p e =
    let same : length ((c ∷ s) ++ p) ≡ length p = ap length e in
    omega (arith, same, length-append (c ∷ s) p)

pub trim_suffix-append : (s : Text) (b : ℕ) (p : Text) → trim_suffix (s ++ b ∷ p) (b ∷ p) ≡ s
unfolding trim_suffix
trim_suffix-append [] b p = rw (text_eq_refl (b ∷ p)) refl
trim_suffix-append (c ∷ s) b p = elim (Bool-cases (text_eq ((c ∷ s) ++ b ∷ p) (b ∷ p))) [
  | inl e ↦ absurd (length-behind c s (b ∷ p) ((text_eq_iff _ _).0 e))
  | inr e ↦ rw (trim_suffix, e) (ap (λ t. c ∷ t) (trim_suffix-append s b p))
]
