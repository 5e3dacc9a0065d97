-- ===== src/Hashing.antt =====
-- src/pipeline/hashing.py: the canonical JSON text of a document, and its digest.
pub mod Order
pub mod Canonical
pub mod Unique
use Prim.Native.Char.{Char, code}
use Prim.Native.String.{String, ◌++◌ as ◌⧺◌}
use sb_poc.Prelude.{
  sort_by, ℕ, suc, ℤ, pos, negsuc, Bool, true, false, List, [], ◌∷◌, ◌-◌, ◌==◌, ℕ_eq, ltb,
  if◌then◌else◌,
}
use sb_poc.Json.{Value, null, bool, int, float, str, arr, obj, Items, nil, cons, Fields, end, field}
use sb_poc.Text.{codes, show}

-- `hashlib.sha256(text.encode("utf-8")).hexdigest()`
pub record Digest : Type 0 where
  pub sha256_hex : String → String

-- The order of texts by their code points.
unfoldable pub lex_le : List ℕ → List ℕ → Bool
lex_le [] ds = true
lex_le (c ∷ cs) [] = false
lex_le (c ∷ cs) (d ∷ ds) = if ltb c d then true else if ltb d c then false else lex_le cs ds

abbrev pub key_le : String → String → Bool
key_le a b = lex_le (codes a) (codes b)

abbrev pub Entry : Type 0
Entry = String × String

-- `sort_keys=True`
abbrev pub by_key : Entry → Entry → Bool
by_key a b = key_le a.0 b.0

hex_digit : ℕ → String
hex_digit n =
    if ltb n 10
    then show n
    else if n == 10
    then "a"
    else if n == 11
    then "b"
    else if n == 12
    then "c"
    else if n == 13
    then "d"
    else if n == 14
    then "e"
    else "f"

-- `\u00xx` for the other control characters
control : Char → String
unfolding hex_digit show
control c =
    if ltb (code c) 16
    then "\\u000" ⧺ hex_digit (code c)
    else if ltb (code c) 32
    then "\\u001" ⧺ hex_digit (code c - 16)
    else String.◌∷◌ c ""

-- A character of a JSON text, with `ensure_ascii=False`.
unfoldable pub escape : Char → String
unfolding control
escape c =
    if code c == 0x22
    then "\\\""
    else if code c == 0x5c
    then "\\\\"
    else if code c == 10
    then "\\n"
    else if code c == 13
    then "\\r"
    else if code c == 9
    then "\\t"
    else if code c == 12
    then "\\f"
    else if code c == 8
    then "\\b"
    else control c

escape_all : String → String
unfolding escape
escape_all String.[] = ""
escape_all (String.◌∷◌ c s) = escape c ⧺ escape_all s

unfoldable pub quote : String → String
unfolding escape_all
quote s = "\"" ⧺ escape_all s ⧺ "\""

abbrev pub show_int : ℤ → String
show_int (pos n) = show n
show_int (negsuc n) = "-" ⧺ show (suc n)

-- `separators=(",", ":")`
unfoldable pub join : List String → String
join [] = ""
join (x ∷ []) = x
join (x ∷ y ∷ ys) = x ⧺ "," ⧺ join (y ∷ ys)

-- The members of an object, with their keys in quotes.
unfoldable pub members : List Entry → List String
unfolding quote
members [] = []
members (x ∷ xs) = (quote x.0 ⧺ ":" ⧺ x.1) ∷ members xs

unfoldable pub join_object : List Entry → String
unfolding sort_by lex_le members join
join_object es = "{" ⧺ join (members (sort_by by_key es)) ⧺ "}"

unfoldable mutual
  unfolding show quote join join_object

  -- `json.dumps(raw, sort_keys=True, ensure_ascii=False, separators=(",", ":"))`
  pub dumps : Value → String
  dumps null = "null"
  dumps (bool true) = "true"
  dumps (bool false) = "false"
  dumps (int n) = show_int n
  dumps (float x) = x
  dumps (str s) = quote s
  dumps (arr xs) = "[" ⧺ join (dump_items xs) ⧺ "]"
  dumps (obj fs) = join_object (dump_fields fs)

  pub dump_items : Items → List String
  dump_items nil = []
  dump_items (cons v vs) = dumps v ∷ dump_items vs

  pub dump_fields : Fields → List Entry
  dump_fields end = []
  dump_fields (field k v fs) = (k, dumps v) ∷ dump_fields fs

module _ (d : Digest) where
  unfoldable pub content_hash : Value → String
  unfolding dumps
  content_hash raw = "sha256:" ⧺ d.sha256_hex (dumps raw)
