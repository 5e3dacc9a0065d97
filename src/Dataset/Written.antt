-- ===== src/Dataset/Written.antt =====
-- data/make_dataset.py: the loop that writes the documents, and the duplicate.
pub mod Lookups
pub mod Again
pub mod Shipped
use Prim.Native.String.{◌++◌ as ◌⧺◌}
use sb_poc.Prelude.{
  ℕ, zero, suc, String, String_eq, Bool, true, false, Option, none, some, List, [], ◌∷◌, ◌==◌,
  if◌then◌else◌, Table, put, Result, ok, raise, type_error, key_error, stop_iteration, ◌>>=◌,
}
use sb_poc.Json.{
  Value, null, bool, int, float, str, arr, obj, Items, nil, cons, Fields, end, field, find,
}
use sb_poc.Hashing.{quote, show_int}

-- A new line of `json.dumps(d, indent=2)` at this depth.
unfoldable pub line_start : ℕ → String
line_start zero = "\n"
line_start (suc n) = line_start n ⧺ "  "

unfoldable mutual
  unfolding line_start quote

  -- `json.dumps(d, indent=2, ensure_ascii=False)`, at a depth
  pub pretty : ℕ → Value → String
  pretty n null = "null"
  pretty n (bool true) = "true"
  pretty n (bool false) = "false"
  pretty n (int z) = show_int z
  pretty n (float x) = x
  pretty n (str s) = quote s
  pretty n (arr nil) = "[]"
  pretty n (arr (cons v vs)) =
      "[" ⧺ line_start (suc n) ⧺ pretty (suc n) v ⧺ pretty_items (suc n) vs ⧺ line_start n ⧺ "]"
  pretty n (obj end) = "{}"
  pretty n (obj (field k v fs)) =
      "{"
      ⧺ line_start (suc n)
      ⧺ quote k
      ⧺ ": "
      ⧺ pretty (suc n) v
      ⧺ pretty_fields (suc n) fs
      ⧺ line_start n
      ⧺ "}"

  pub pretty_items : ℕ → Items → String
  pretty_items n nil = ""
  pretty_items n (cons v vs) = "," ⧺ line_start n ⧺ pretty n v ⧺ pretty_items n vs

  pub pretty_fields : ℕ → Fields → String
  pretty_fields n end = ""
  pretty_fields n (field k v fs) =
      "," ⧺ line_start n ⧺ quote k ⧺ ": " ⧺ pretty n v ⧺ pretty_fields n fs

-- `json.dumps(d, indent=2, ensure_ascii=False) + "\n"`
unfoldable pub file_text : Value → String
unfolding pretty
file_text d = pretty 0 d ⧺ "\n"

abbrev pub or_missing : Option Value → Result Value
or_missing none = raise key_error
or_missing (some v) = ok v

-- `d[key]` with a text as the key
abbrev pub subscript : Value → String → Result Value
subscript (obj fs) key = or_missing (find key fs)
subscript _ key = raise type_error

-- The texts by the names of the files of the directory `OUT`.
abbrev pub Files : Type 0
Files = Table String String

abbrev pub is_text : Value → String → Bool
is_text (str s) t = s == t
is_text _ t = false

-- `next(d for d in docs if d["conversation_id"] == cid)`
unfoldable pub next_with : String → List Value → Result Value
next_with cid [] = raise stop_iteration
next_with cid (d ∷ docs) =
    let rest = next_with cid docs in
    do v ← subscript d "conversation_id"; if is_text v cid then ok d else rest

abbrev pub duplicated : String
duplicated = "c-000002"

abbrev pub duplicate_name : String
duplicate_name = "acme__c-000002.duplicate.json"

-- `repr` is what Python shows of a list or a dict.
module _ (repr : Value → String) where
  -- `f"{v}"`
  abbrev pub format : Value → String
  format null = "None"
  format (bool true) = "True"
  format (bool false) = "False"
  format (int z) = show_int z
  format (float x) = x
  format (str s) = s
  format v = repr v

  unfoldable pub file_name : Value → Result String
  file_name d = do
    tenant ← subscript d "tenant_id"
    cid ← subscript d "conversation_id"
    ok (format tenant ⧺ "__" ⧺ format cid ⧺ ".json")

  unfoldable pub write_docs : List Value → Files → Result Files
  unfolding file_name file_text put
  write_docs [] files = ok files
  write_docs (d ∷ docs) files = do
    name ← file_name d
    write_docs docs (put name (file_text d) files)

  unfoldable pub write_dataset : List Value → Files → Result Files
  unfolding write_docs next_with file_text put
  write_dataset docs files = do
    written ← write_docs docs files
    dup ← next_with duplicated docs
    ok (put duplicate_name (file_text dup) written)
