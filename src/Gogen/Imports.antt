-- ===== src/Gogen/Imports.antt =====
-- internal/emit/gogen/types.go, `importSet`: the import paths of a file. The set is a list of its
-- members, the last one added first; `%q` writes a text of ASCII as Go quotes it.
pub mod Rendering
use sqlc_gen_unison.Base.{
  ℕ, ◌+◌, ◌-◌, ◌/◌, ◌%◌, Bool, true, false, ◌&&◌, ◌||◌, not, Option, none, some, List, [], ◌∷◌,
  ◌++◌, Text, codes, text_mem, leb, ltb, ◌==◌, if◌then◌else◌, length,
}
use sqlc_gen_unison.Base.Order.{text_le, sort_by}
use sqlc_gen_unison.Strings.{contains, cut_at}

abbrev hex_digit : ℕ → ℕ
hex_digit d = if ltb d 10 then b'0' + d else b'a' + (d - 10)

unfoldable pub quote_byte : ℕ → Text
quote_byte c =
    if c == b'"'
    then codes "\\\""
    else if c == b'\\'
    then codes "\\\\"
    else if c == 7
    then codes "\\a"
    else if c == 8
    then codes "\\b"
    else if c == 9
    then codes "\\t"
    else if c == 10
    then codes "\\n"
    else if c == 11
    then codes "\\v"
    else if c == 12
    then codes "\\f"
    else if c == 13
    then codes "\\r"
    else if ltb c 32 || (c == 127)
    then codes "\\x" ++ hex_digit (c / 16) ∷ hex_digit (c % 16) ∷ []
    else c ∷ []

unfoldable pub quote_bytes : Text → Text
unfolding quote_byte
quote_bytes [] = []
quote_bytes (c ∷ s) = quote_byte c ++ quote_bytes s

-- `%q`
unfoldable pub quoted : Text → Text
unfolding quote_bytes
quoted s = codes "\"" ++ quote_bytes s ++ codes "\""

abbrev pub ImportSet : Type 0
ImportSet = List Text

abbrev pub no_imports : ImportSet
no_imports = []

unfoldable pub add : Text → ImportSet → ImportSet
add path imports = if text_mem path imports then imports else path ∷ imports

-- `strings.Cut(path, "/")`
unfoldable pub is_stdlib : Text → Bool
unfolding cut_at contains
is_stdlib path = elim (cut_at b'/' path) [
  | none ↦ not (contains path (codes "."))
  | some first ↦ not (contains first (codes "."))
]

unfoldable pub keep : (Text → Bool) → List Text → List Text
keep p [] = []
keep p (x ∷ xs) = if p x then x ∷ keep p xs else keep p xs

unfoldable pub import_lines : List Text → Text
import_lines [] = []
import_lines (path ∷ paths) = codes "\t" ++ quoted path ++ codes "\n" ++ import_lines paths

-- `std` and `other` of the source, sorted.
unfoldable pub std_paths : ImportSet → List Text
std_paths imports = sort_by text_le (keep is_stdlib imports)

unfoldable pub other_paths : ImportSet → List Text
other_paths imports = sort_by text_le (keep (λ p. not (is_stdlib p)) imports)

unfoldable pub render : ImportSet → Text
unfolding std_paths other_paths
render imports =
    if length imports == 0
    then []
    else codes "import (\n"
      ++ import_lines (std_paths imports)
      ++ (if ltb 0 (length (std_paths imports)) && ltb 0 (length (other_paths imports))
          then codes "\n"
          else [])
      ++ import_lines (other_paths imports)
      ++ codes ")\n\n"
