-- ===== src/Gogen/Names.antt =====
-- internal/emit/gogen/names.go: SQL names as Go identifiers. Names are ASCII here, so that a rune is
-- a byte.
pub mod Identifiers
pub mod Keywords
use sqlc_gen_unison.Base.{
  ℕ, Bool, true, false, ◌&&◌, ◌||◌, not, Option, none, some, List, [], ◌∷◌, ◌++◌, Text, codes, leb,
  ◌==◌, if◌then◌else◌,
}
use sqlc_gen_unison.Options.{map_get}
use sqlc_gen_unison.Strings.{lower, upper, to_lower}

unfoldable pub initialisms : List (Text × Text)
initialisms =
    (codes "acl", codes "ACL")
    ∷ (codes "api", codes "API")
    ∷ (codes "ascii", codes "ASCII")
    ∷ (codes "cpu", codes "CPU")
    ∷ (codes "css", codes "CSS")
    ∷ (codes "dns", codes "DNS")
    ∷ (codes "eof", codes "EOF")
    ∷ (codes "guid", codes "GUID")
    ∷ (codes "html", codes "HTML")
    ∷ (codes "http", codes "HTTP")
    ∷ (codes "https", codes "HTTPS")
    ∷ (codes "id", codes "ID")
    ∷ (codes "ids", codes "IDs")
    ∷ (codes "ip", codes "IP")
    ∷ (codes "json", codes "JSON")
    ∷ (codes "lhs", codes "LHS")
    ∷ (codes "qps", codes "QPS")
    ∷ (codes "ram", codes "RAM")
    ∷ (codes "rhs", codes "RHS")
    ∷ (codes "rpc", codes "RPC")
    ∷ (codes "sla", codes "SLA")
    ∷ (codes "smtp", codes "SMTP")
    ∷ (codes "sql", codes "SQL")
    ∷ (codes "ssh", codes "SSH")
    ∷ (codes "tcp", codes "TCP")
    ∷ (codes "tls", codes "TLS")
    ∷ (codes "ttl", codes "TTL")
    ∷ (codes "udp", codes "UDP")
    ∷ (codes "ui", codes "UI")
    ∷ (codes "uid", codes "UID")
    ∷ (codes "uuid", codes "UUID")
    ∷ (codes "uri", codes "URI")
    ∷ (codes "url", codes "URL")
    ∷ (codes "utf8", codes "UTF8")
    ∷ (codes "vm", codes "VM")
    ∷ (codes "xml", codes "XML")
    ∷ (codes "xmpp", codes "XMPP")
    ∷ (codes "xsrf", codes "XSRF")
    ∷ (codes "xss", codes "XSS")
    ∷ []

unfoldable pub is_separator : ℕ → Bool
is_separator c = (c == b'_') || (c == b' ') || (c == b'-') || (c == b'.')

abbrev pub is_upper : ℕ → Bool
is_upper c = leb b'A' c && leb c b'Z'

abbrev pub is_letter : ℕ → Bool
is_letter c = is_upper c || (leb b'a' c && leb c b'z')

-- `flush`: the word read so far, if there is one, before the words that follow.
abbrev pub flush : Text → List Text → List Text
flush [] words = words
flush (c ∷ word) words = (c ∷ word) ∷ words

-- A byte that begins a word: upper case, behind a byte that is not.
unfoldable pub starts_word : Option ℕ → ℕ → Bool
starts_word none c = false
starts_word (some before) c = is_upper c && not (is_upper before)

-- The loop, with the byte before and the word read so far.
unfoldable pub split_from : Option ℕ → Text → Text → List Text
split_from before word [] = flush word []
split_from before word (c ∷ s) =
    let word' =
      if is_separator c then [] else if starts_word before c then c ∷ [] else word ++ c ∷ [] in
    let words = split_from (some c) word' s in
    if is_separator c || starts_word before c then flush word words else words

unfoldable pub split_words : Text → List Text
unfolding split_from is_separator starts_word
split_words name = split_from none [] name

-- `strings.ToUpper(lower[:1]) + lower[1:]`; a word is never empty.
unfoldable pub capitalize : Text → Text
unfolding upper
capitalize [] = []
capitalize (c ∷ s) = upper c ∷ s

-- What the loop writes for a word that is not the first of an unexported name.
unfoldable pub spell_word : Text → Text
spell_word word = elim (map_get (to_lower word) initialisms) [
  | some replacement ↦ replacement
  | none ↦ capitalize (to_lower word)
]

unfoldable pub spell_words : List Text → Text
spell_words [] = []
spell_words (word ∷ words) = spell_word word ++ spell_words words

-- A name that would be empty, or would not begin with a letter, gets an underscore.
unfoldable pub make_legal : Text → Text
make_legal [] = codes "_"
make_legal (c ∷ out) = if not (is_letter c) && not (c == b'_') then b'_' ∷ c ∷ out else c ∷ out

unfoldable pub join_words : List Text → Bool → Text
join_words [] exported = make_legal []
join_words (word ∷ words) true = make_legal (spell_words (word ∷ words))
join_words (word ∷ words) false = make_legal (to_lower word ++ spell_words words)

unfoldable pub exported_name : Text → Text
exported_name name = join_words (split_words name) true

unfoldable pub unexported_name : Text → Text
unexported_name name = join_words (split_words name) false

abbrev pub dialect_names : List (Text × Text)
dialect_names =
    (codes "postgresql", codes "PostgreSQL")
    ∷ (codes "mysql", codes "MySQL")
    ∷ (codes "sqlite", codes "SQLite")
    ∷ []

unfoldable pub dialect_name : Text → Text
dialect_name dialect = elim (map_get dialect dialect_names) [
  | some name ↦ name
  | none ↦ exported_name dialect
]

unfoldable pub dialect_receiver : Text → Text
dialect_receiver dialect = unexported_name dialect ++ codes "Queries"

unfoldable pub dialect_constructor : Text → Text
dialect_constructor dialect = codes "new" ++ dialect_name dialect
