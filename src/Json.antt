-- ===== src/Json.antt =====
-- JSON documents as the values that `json.loads` returns, and what the pipeline asks of them.
use sb_poc.Prelude.{
  String, ℤ, Bool, Option, none, some, List, [], ◌∷◌, ◌==◌, String_eq, if◌then◌else◌,
}

-- A float is kept as its text: the pipeline never computes with a number of a document. A dict is a
-- chain of fields in the order of the document.
mutual
  pub data Value : Type 0 where
    null : Value
    bool : Bool → Value
    int : ℤ → Value
    float : String → Value
    str : String → Value
    arr : Items → Value
    obj : Fields → Value

  pub data Fields : Type 0 where
    end : Fields
    field : String → Value → Fields → Fields

  pub data Items : Type 0 where
    nil : Items
    cons : Value → Items → Items

-- The elements of an array, as a list.
abbrev pub items : Items → List Value
items nil = []
items (cons v vs) = v ∷ items vs

-- `raw.get(key)` where a missing key has to be told from an explicit null.
abbrev pub find : String → Fields → Option Value
find k end = none
find k (field j v fs) = if j == k then some v else find k fs

abbrev or_null : Option Value → Value
or_null none = null
or_null (some v) = v

-- `raw.get(key)`: null if the key is missing.
abbrev pub get : String → Fields → Value
get k fs = or_null (find k fs)

-- `value if isinstance(value, str) else None`
abbrev pub as_str : Value → Option String
as_str (str s) = some s
as_str _ = none

-- `type(value).__name__`
abbrev pub type_name : Value → String
type_name null = "NoneType"
type_name (bool b) = "bool"
type_name (int n) = "int"
type_name (float x) = "float"
type_name (str s) = "str"
type_name (arr xs) = "list"
type_name (obj fs) = "dict"
