-- ===== src/Orchestrator/Loading.antt =====
-- internal/orchestrator/config.go, `Load`: what a loaded configuration guarantees.
use sqlc_gen_unison.Base.{
  ◌≡◌, sym, subst, true, [], ◌∷◌, Text, arith, Result, ok, map_err, map_err-eq-ok, bind-eq-ok,
}
use sqlc_gen_unison.Paths.{is_rooted, through_slash, dir_name}
use sqlc_gen_unison.Paths.Clean.{IsAbsolute, clean-IsAbsolute}
use sqlc_gen_unison.Orchestrator.{Config, reading, decoding, resolving, invalid, validate, load}
use sqlc_gen_unison.Orchestrator.Validation.{IsAccepted, validate-IsAccepted}

is_rooted-through_slash : (s : Text) → is_rooted s ≡ true → is_rooted (through_slash s) ≡ true
is_rooted-through_slash [] h = cc
is_rooted-through_slash (c ∷ s) h = ground arith

dir_name-IsAbsolute : (s : Text) → is_rooted s ≡ true → IsAbsolute (dir_name s)
unfolding dir_name
dir_name-IsAbsolute s h = clean-IsAbsolute (through_slash s) (is_rooted-through_slash s h)

-- What was read, and what is accepted of it.
pub record IsLoaded (read_file : Text → Result Text Text) (decode : Text → Result Text Config)
    (abs : Text → Result Text Text) (path : Text) (v : Config) : Type 0 where
  pub contents : Text
  pub decoded : Config
  pub absolute : Text
  pub read : read_file path ≡ ok contents
  pub parsed : decode contents ≡ ok decoded
  pub resolved : abs path ≡ ok absolute
  pub accepted : IsAccepted (record decoded { dir = dir_name absolute }) v
  pub dir : v.dir ≡ dir_name absolute

-- A configuration that is loaded is the accepted one of the file's contents, and belongs to the file's
-- own directory: a clean path from the root, where the file's absolute path is from the root.
pub load-IsLoaded :
    (read_file : Text → Result Text Text) (decode : Text → Result Text Config)
    (abs : Text → Result Text Text) (path : Text) (v : Config)
    → load read_file decode abs path ≡ ok v
    → ((s : Text) → abs path ≡ ok s → is_rooted s ≡ true)
    → IsLoaded read_file decode abs path v × IsAbsolute v.dir
unfolding load
load-IsLoaded read_file decode abs path v h rooted =
    let (contents, a, h1) = bind-eq-ok (map_err (reading path) (read_file path)) _ h in
    let (cfg, b, h2) = bind-eq-ok (map_err (decoding path) (decode contents)) _ h1 in
    let (absolute, d, h3) = bind-eq-ok (map_err (resolving path) (abs path)) _ h2 in
    let found = map_err-eq-ok _ (abs path) d in
    let given : Config = record cfg { dir = dir_name absolute } in
    let valid = map_err-eq-ok (invalid path) (validate given) h3 in
    let accepted = validate-IsAccepted given v valid in
    (
      record {
        contents = contents;
        decoded = cfg;
        absolute = absolute;
        read = map_err-eq-ok _ (read_file path) a;
        parsed = map_err-eq-ok _ (decode contents) b;
        resolved = found;
        accepted = accepted;
        dir = accepted.dir;
      },
      subst IsAbsolute (sym accepted.dir) (dir_name-IsAbsolute absolute (rooted absolute found)),
    )
