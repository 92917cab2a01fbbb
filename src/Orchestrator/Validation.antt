-- ===== src/Orchestrator/Validation.antt =====
-- internal/orchestrator/config.go, `validate`: what an accepted configuration guarantees.
use sqlc_gen_unison.Base.{
  ◌≡◌, refl, sym, ◌∙◌, subst, inl, inr, Bool, true, false, not, some, List, [], ◌∷◌, Text, text_eq,
  text_eq_iff, text_mem, text_mem-cons, ◌==◌, length, any, arith, Bool-cases, Option-cases, ok,
  refuse, map_err, bind-eq-ok, Perm,
}
use sqlc_gen_unison.Base.Order.{
  text_le, text_order, text_le_antisymm, sort_by, any-sort_by, sort_by_of_IsSorted,
  sort_by-IsSorted, sort_by-eq_of_perm,
}
use sqlc_gen_unison.Strings.{trim_space}
use sqlc_gen_unison.Options.{Options, normalize, map_get}
use sqlc_gen_unison.Options.Normalize.{IsNormal, normalize-IsNormal}
use sqlc_gen_unison.Orchestrator.{
  Config, engines, unknown_engine, package_missing, out_missing, schemas_missing, bad_options, keys,
  roster_of, check_schemas, check_queries, validate,
}

-- An accepted configuration `v` of the one that was given, `c`.
pub record IsAccepted (c v : Config) : Type 0 where
  pub engine : (d : Text) → text_mem d (keys c.schemas) ≡ true → text_mem d engines ≡ true
  pub same_dialects : (d : Text) → text_mem d (keys c.schemas) ≡ text_mem d (keys c.queries)
  pub options : IsNormal v.options
  pub roster : v.options.roster ≡ roster_of c
  pub package_name : v.options.package_name ≡ c.package_name
  pub schemas : v.schemas ≡ c.schemas
  pub queries : v.queries ≡ c.queries
  pub out : v.out ≡ c.out
  pub dir : v.dir ≡ c.dir

map_get-keys :
    (d v : Text) (m : List (Text × Text)) → map_get d m ≡ some v → text_mem d (keys m) ≡ true
unfolding map_get
map_get-keys d v [] h = cc
map_get-keys d v ((k, w) ∷ m) h =
    ground (arith, map_get-keys d v m, text_mem-cons d k (keys m), text_eq_iff k d, text_eq_iff d k)

check_schemas-eq-ok :
    (c : Config) (ds : List Text)
    → check_schemas c ds ≡ ok tt
    → (d : Text) → text_mem d ds ≡ true
    → (text_mem d engines ≡ true) × (text_mem d (keys c.queries) ≡ true)
unfolding check_schemas
check_schemas-eq-ok c [] h d k = unfold text_mem any in ground arith
check_schemas-eq-ok c (x ∷ ds) h d k =
    let (_, known, h1) = bind-eq-ok (refuse (not (text_mem x engines)) (unknown_engine x)) _ h in
    elim (Option-cases (map_get x c.queries)) [
      | inl e ↦ ground arith
      | inr (v, e) ↦
          let later : check_schemas c ds ≡ ok tt = ground arith in
          elim (Bool-cases (text_eq d x)) [
            | inl q ↦
                subst (λ y. (text_mem y engines ≡ true) × (text_mem y (keys c.queries) ≡ true))
                  (sym ((text_eq_iff d x).0 q)) (ground arith, map_get-keys x v c.queries e)
            | inr q ↦ check_schemas-eq-ok c ds later d (ground (arith, text_mem-cons d x ds))
          ]
    ]

check_queries-eq-ok :
    (c : Config) (ds : List Text)
    → check_queries c ds ≡ ok tt
    → (d : Text) → text_mem d ds ≡ true
    → text_mem d (keys c.schemas) ≡ true
unfolding check_queries
check_queries-eq-ok c [] h d k = unfold text_mem any in ground arith
check_queries-eq-ok c (x ∷ ds) h d k = elim (Option-cases (map_get x c.schemas)) [
  | inl e ↦ ground arith
  | inr (v, e) ↦
      let later : check_queries c ds ≡ ok tt = ground arith in
      elim (Bool-cases (text_eq d x)) [
        | inl q ↦
            subst (λ y. text_mem y (keys c.schemas) ≡ true) (sym ((text_eq_iff d x).0 q))
              (map_get-keys x v c.schemas e)
        | inr q ↦ check_queries-eq-ok c ds later d (ground (arith, text_mem-cons d x ds))
      ]
]

pub text_mem-roster_of :
    (d : Text) (c : Config) → text_mem d (roster_of c) ≡ text_mem d (keys c.schemas)
unfolding roster_of text_mem
text_mem-roster_of d c = any-sort_by text_le (text_eq d) (keys c.schemas)

sorted_perm-eq :
    (xs ys : List Text)
    → Perm xs (sort_by text_le ys)
    → sort_by text_le xs ≡ xs
    → xs ≡ sort_by text_le ys
sorted_perm-eq xs ys p h =
    sym h
    ∙ sort_by-eq_of_perm text_le text_order text_le_antisymm (hlevel) p
    ∙ sort_by_of_IsSorted text_le _ (sort_by-IsSorted text_le text_order ys)

roster_eq :
    (c : Config) (opts : Options)
    → Perm opts.roster (roster_of c)
    → IsNormal opts
    → opts.roster ≡ roster_of c
unfolding roster_of
roster_eq c opts p v =
    sorted_perm-eq opts.roster (keys c.schemas) p (sort_by_of_IsSorted text_le opts.roster v.sorted)

Bool-eq : (a b : Bool) → (a ≡ true → b ≡ true) → (b ≡ true → a ≡ true) → a ≡ b
Bool-eq true b f g = sym (f refl)
Bool-eq false true f g = g refl
Bool-eq false false f g = refl

-- An accepted configuration names the same dialects in its schemas and its queries, each an engine of
-- sqlc; its plugin options are normal, with the sorted dialects of the schemas as their roster and the
-- configuration's package, and the paths are as they were given.
pub validate-IsAccepted : (c v : Config) → validate c ≡ ok v → IsAccepted c v
unfolding validate
validate-IsAccepted c v h =
    let given : Options = record (c.options) {
      package_name = c.package_name;
      roster = roster_of c;
    } in
    let (_, _, h1) =
      bind-eq-ok (refuse (text_eq (trim_space c.package_name) []) package_missing) _ h in
    let (_, _, h2) = bind-eq-ok (refuse (text_eq (trim_space c.out) []) out_missing) _ h1 in
    let (_, _, h3) = bind-eq-ok (refuse (length c.schemas == 0) schemas_missing) _ h2 in
    let (_, a, h4) = bind-eq-ok (check_schemas c (roster_of c)) _ h3 in
    let (_, b, h5) = bind-eq-ok (check_queries c (keys c.queries)) _ h4 in
    let (opts, n, h6) = bind-eq-ok (map_err bad_options (normalize given)) _ h5 in
    let normal : normalize given ≡ ok opts = ground arith in
    let (is_normal, perm, _, name, _, _) = normalize-IsNormal given opts normal in
    let known = λ (d : Text) (k : text_mem d (keys c.schemas) ≡ true).
      check_schemas-eq-ok c (roster_of c) a d (text_mem-roster_of d c ∙ k) in
    let e : let x : Config = record c { options = opts } in x ≡ v = ground arith in
    subst (IsAccepted c) e (record {
      engine = λ d k. let (engine, _) = known d k in engine;
      same_dialects = λ d.
          Bool-eq _ _ (λ k. let (_, queried) = known d k in queried)
            (check_queries-eq-ok c (keys c.queries) b d);
      options = is_normal;
      roster = roster_eq c opts perm is_normal;
      package_name = name;
      schemas = refl;
      queries = refl;
      out = refl;
      dir = refl;
    })
