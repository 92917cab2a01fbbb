-- ===== src/Options/Normalize.antt =====
-- internal/options/options.go, `normalize`: what it accepts, and what the accepted options are.
use sqlc_gen_unison.Base.{
  ◌≤◌, ◌≡◌, ◌≢◌, refl, ◌⊎◌, ◌↔◌, inl, inr, true, false, List, [], ◌∷◌, Text, text_eq, text_eq_iff,
  text_eq_refl, ==_iff, ◌==◌, length, arith, All, ok, Bool-cases, Perm,
}
use sqlc_gen_unison.Base.Order.{
  text_le, text_le_antisymm, text_order, IsOrder, IsSorted, sort_by, sort_by-IsSorted, sort_by-perm,
  length-sort_by, sort_by_of_IsSorted, sort_by-eq_of_perm,
}
use sqlc_gen_unison.Strings.{trim_space}
use sqlc_gen_unison.Options.{
  Options, TypeOverride, null_pointer, null_sql, compact, null_style, override_le, is_incomplete,
  check_overrides, normalize,
}

-- No element equals the one behind it.
abbrev pub HasNoRepeat : List Text → Type 0
HasNoRepeat [] = Unit
HasNoRepeat (x ∷ []) = Unit
HasNoRepeat (x ∷ y ∷ ys) = (x ≢ y) × HasNoRepeat (y ∷ ys)

length-compact : (xs : List Text) → length (compact xs) ≤ length xs
unfolding compact
length-compact [] = omega arith
length-compact (x ∷ []) = omega arith
length-compact (x ∷ y ∷ ys) = ground (arith, length-compact (y ∷ ys))

compact-HasNoRepeat : (xs : List Text) → length (compact xs) ≡ length xs → HasNoRepeat xs
unfolding compact
compact-HasNoRepeat [] h = tt
compact-HasNoRepeat (x ∷ []) h = tt
compact-HasNoRepeat (x ∷ y ∷ ys) h = (
  ground (arith, length-compact (y ∷ ys), text_eq_iff x y),
  compact-HasNoRepeat (y ∷ ys) (ground (arith, length-compact (y ∷ ys))),
)

HasNoRepeat-compact : (xs : List Text) → HasNoRepeat xs → compact xs ≡ xs
unfolding compact
HasNoRepeat-compact [] h = refl
HasNoRepeat-compact (x ∷ []) h = refl
HasNoRepeat-compact (x ∷ y ∷ ys) (h, hs) =
    ground (arith, HasNoRepeat-compact (y ∷ ys) hs, text_eq_iff x y)

check_overrides_iff :
    (os : List TypeOverride) → (check_overrides os ≡ ok tt) ↔ All (λ o. is_incomplete o ≡ false) os
unfolding check_overrides
check_overrides_iff [] = (λ _. tt, λ _. refl)
check_overrides_iff (o ∷ os) = elim (Bool-cases (is_incomplete o)) [
  | inl e ↦ (λ h. cc (rw (e, check_overrides) at h), λ (f, _). cc)
  | inr e ↦
      rw (e, check_overrides)
        (λ h. (refl, (check_overrides_iff os).0 h), λ (_, hs). (check_overrides_iff os).1 hs)
]

-- Options as the rest of the program may take them.
pub record IsNormal (o : Options) : Type 0 where
  pub named : trim_space o.package_name ≢ []
  pub inhabited : o.roster ≢ []
  pub sorted : IsSorted text_le o.roster
  pub distinct : HasNoRepeat o.roster
  pub styled : (o.null_as ≡ null_pointer) ⊎ (o.null_as ≡ null_sql)
  pub ordered : IsSorted override_le o.type_overrides
  pub complete : All (λ t. is_incomplete t ≡ false) o.type_overrides

override_order : IsOrder override_le
override_order = record {
  total = λ a b. text_order.total a.column b.column;
  trans = λ a b c. text_order.trans a.column b.column c.column;
}

null_style-eq-ok :
    (style : Text) {t : Text} → null_style style ≡ ok t → (t ≡ null_pointer) ⊎ (t ≡ null_sql)
unfolding null_style
null_style-eq-ok style h =
    ground (arith, text_eq_iff style null_pointer, text_eq_iff style null_sql)

-- What a run that succeeds has passed, and what it returns.
record IsAccepted (o n : Options) : Type 0 where
  named : text_eq (trim_space o.package_name) [] ≡ false
  inhabited : (length o.roster == 0) ≡ false
  distinct :
      (length (compact (sort_by text_le o.roster)) == length (sort_by text_le o.roster)) ≡ true
  styled : null_style o.null_as ≡ ok n.null_as
  complete : check_overrides (sort_by override_le o.type_overrides) ≡ ok tt
  roster : n.roster ≡ sort_by text_le o.roster
  overrides : n.type_overrides ≡ sort_by override_le o.type_overrides
  package_name : n.package_name ≡ o.package_name
  rename_params : n.rename_params ≡ o.rename_params
  table_prefix_var : n.table_prefix_var ≡ o.table_prefix_var

normalize-IsAccepted : (o n : Options) → normalize o ≡ ok n → IsAccepted o n
unfolding normalize
normalize-IsAccepted o n h = record {
  named = ground arith;
  inhabited = ground arith;
  distinct = ground arith;
  styled = ground arith;
  complete = ground arith;
  roster = ground arith;
  overrides = ground arith;
  package_name = ground arith;
  rename_params = ground arith;
  table_prefix_var = ground arith;
}

-- Options that `normalize` returns are normal; they hold the dialects and the overrides that were
-- given, each as often, and leave the package, the renames and the prefix switch alone.
pub normalize-IsNormal :
    (o n : Options)
    → normalize o ≡ ok n
    → IsNormal n
      × Perm n.roster o.roster
      × Perm n.type_overrides o.type_overrides
      × (n.package_name ≡ o.package_name)
      × (n.rename_params ≡ o.rename_params)
      × (n.table_prefix_var ≡ o.table_prefix_var)
normalize-IsNormal o n h =
    let a = normalize-IsAccepted o n h in
    (
      record {
        named = ground (arith, a.named, a.package_name, text_eq_refl []);
        inhabited = λ e. ground (arith, a.inhabited, a.roster, length-sort_by text_le o.roster);
        sorted = rw a.roster (sort_by-IsSorted text_le text_order o.roster);
        distinct = rw a.roster (compact-HasNoRepeat _ ((==_iff _ _).0 a.distinct));
        styled = null_style-eq-ok o.null_as a.styled;
        ordered = rw a.overrides (sort_by-IsSorted override_le override_order o.type_overrides);
        complete = rw a.overrides ((check_overrides_iff _).0 a.complete);
      },
      rw a.roster (sort_by-perm text_le o.roster),
      rw a.overrides (sort_by-perm override_le o.type_overrides),
      a.package_name,
      a.rename_params,
      a.table_prefix_var,
    )

-- Normal options are accepted and returned as they are, so normalizing twice changes nothing.
pub normalize_of_IsNormal : (o : Options) → IsNormal o → normalize o ≡ ok o
unfolding normalize null_style
normalize_of_IsNormal o v = ground (
  arith,
  sort_by_of_IsSorted text_le o.roster v.sorted,
  sort_by_of_IsSorted override_le o.type_overrides v.ordered,
  HasNoRepeat-compact o.roster v.distinct,
  (check_overrides_iff o.type_overrides).1 v.complete,
  text_eq_iff (trim_space o.package_name) [],
  text_eq_iff o.null_as [],
  text_eq_iff o.null_as null_pointer,
  text_eq_iff o.null_as null_sql,
)

-- The order in which the roster is given does not matter.
pub normalize-eq_of_perm :
    (o : Options) (roster : List Text)
    → Perm roster o.roster
    → normalize (record o { roster = roster }) ≡ normalize o
unfolding normalize
normalize-eq_of_perm o roster p = ground (
  arith,
  sort_by-eq_of_perm text_le text_order text_le_antisymm (hlevel) p,
  length-sort_by text_le roster,
  length-sort_by text_le o.roster,
)
