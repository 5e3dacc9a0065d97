-- ===== src/Hashing/Unique/Texts.antt =====
-- hashing.py, json.dumps: the text of a value with a rest behind it, and the kind of value that the text
-- starts with.
use Prim.Native.String.{◌++◌ as ◌⧺◌}
use mathlib.Core.List.{append_assoc}
use sb_poc.Prelude.{ℕ, String, ◌≡◌, refl, ap, ◌∙◌, true, List, [], ◌∷◌, ◌++◌, ℕ_eq, none}
use sb_poc.Json.{
  Value, null, bool, int, float, str, arr, obj, Items, nil, cons, Fields, end, field, find,
}
use sb_poc.Text.{codes}
use sb_poc.Text.Printed.{codes-append}
use sb_poc.Hashing.{quote, join, members, join_object, dumps, dump_items, dump_fields}
use sb_poc.Hashing.Unique.Codes.{body, codes-quote}
use sb_poc.Hashing.Unique.Sorted.{sort_fields, dump_fields-sort_fields}
use sb_poc.Hashing.Unique.Numbers.{is_float}

-- What `json.loads` returns: the keys of a dict are different, and a float prints as one.
unfoldable mutual
  pub IsJson : Value → Type 0
  IsJson null = Unit
  IsJson (bool b) = Unit
  IsJson (int n) = Unit
  IsJson (float x) = is_float (codes x) ≡ true
  IsJson (str s) = Unit
  IsJson (arr xs) = AllJson xs
  IsJson (obj fs) = FieldsJson fs

  pub AllJson : Items → Type 0
  AllJson nil = Unit
  AllJson (cons v vs) = IsJson v × AllJson vs

  pub FieldsJson : Fields → Type 0
  FieldsJson end = Unit
  FieldsJson (field k v fs) = (find k fs ≡ none) × IsJson v × FieldsJson fs

abbrev pub printed : Value → List ℕ → List ℕ
printed v r = codes (dumps v) ++ r

-- Elements behind the first one, up to the bracket that closes them.
unfoldable pub more : ℕ → List String → List ℕ → List ℕ
more close [] r = close ∷ r
more close (x ∷ xs) r = b',' ∷ codes x ++ more close xs r

unfoldable pub elements : ℕ → List String → List ℕ → List ℕ
unfolding more
elements close [] r = close ∷ r
elements close (x ∷ xs) r = codes x ++ more close xs r

pub codes-join :
    (close : ℕ) (xs : List String) (r : List ℕ)
    → codes (join xs) ++ (close ∷ r) ≡ elements close xs r
unfolding join elements
codes-join close [] r = refl
codes-join close (x ∷ []) r = refl
codes-join close (x ∷ y ∷ ys) r =
    rw (codes-append, codes-append)
      (rw append_assoc (ap (λ t. codes x ++ (b',' ∷ t)) (codes-join close (y ∷ ys) r)))

-- Elements of an array behind the first one, and all of them.
unfoldable pub items_more : Items → List ℕ → List ℕ
items_more nil r = b']' ∷ r
items_more (cons v xs) r = b',' ∷ printed v (items_more xs r)

unfoldable pub items_all : Items → List ℕ → List ℕ
items_all nil r = b']' ∷ r
items_all (cons v xs) r = printed v (items_more xs r)

-- The members of an object in the order given, behind the first one, and all of them.
unfoldable pub fields_more : Fields → List ℕ → List ℕ
fields_more end r = b'}' ∷ r
fields_more (field k v fs) r = b',' ∷ 0x22 ∷ body (codes k) (b':' ∷ printed v (fields_more fs r))

unfoldable pub fields_all : Fields → List ℕ → List ℕ
fields_all end r = b'}' ∷ r
fields_all (field k v fs) r = 0x22 ∷ body (codes k) (b':' ∷ printed v (fields_more fs r))

more_items : (xs : Items) (r : List ℕ) → more b']' (dump_items xs) r ≡ items_more xs r
unfolding more items_more dump_items
more_items nil r = refl
more_items (cons v xs) r = ap (λ t. b',' ∷ printed v t) (more_items xs r)

elements_items : (xs : Items) (r : List ℕ) → elements b']' (dump_items xs) r ≡ items_all xs r
unfolding elements items_all dump_items
elements_items nil r = refl
elements_items (cons v xs) r = ap (printed v) (more_items xs r)

-- The text of a member of an object.
printed_member :
    (k x : String) (r : List ℕ)
    → codes (quote k ⧺ ":" ⧺ x) ++ r ≡ 0x22 ∷ body (codes k) (b':' ∷ codes x ++ r)
printed_member k x r =
    rw (codes-append, codes-append) (rw append_assoc (codes-quote k (b':' ∷ codes x ++ r)))

more_fields : (fs : Fields) (r : List ℕ) → more b'}' (members (dump_fields fs)) r ≡ fields_more fs r
unfolding more members fields_more dump_fields
more_fields end r = refl
more_fields (field k v fs) r = ap (◌∷◌ b',') (
    printed_member k (dumps v) (more b'}' (members (dump_fields fs)) r)
    ∙ ap (λ t. 0x22 ∷ body (codes k) (b':' ∷ printed v t)) (more_fields fs r))

elements_fields :
    (fs : Fields) (r : List ℕ) → elements b'}' (members (dump_fields fs)) r ≡ fields_all fs r
unfolding elements members fields_all dump_fields
elements_fields end r = refl
elements_fields (field k v fs) r =
    printed_member k (dumps v) (more b'}' (members (dump_fields fs)) r)
    ∙ ap (λ t. 0x22 ∷ body (codes k) (b':' ∷ printed v t)) (more_fields fs r)

pub printed_arr : (xs : Items) (r : List ℕ) → printed (arr xs) r ≡ b'[' ∷ items_all xs r
unfolding dumps
printed_arr xs r =
    rw (codes-append, codes-append)
      (rw append_assoc (ap (◌∷◌ b'[') (codes-join b']' (dump_items xs) r ∙ elements_items xs r)))

pub printed_obj :
    (fs : Fields) (r : List ℕ) → printed (obj fs) r ≡ b'{' ∷ fields_all (sort_fields fs) r
unfolding dumps join_object
printed_obj fs r =
    rw (codes-append, codes-append)
      (rw (append_assoc, ← dump_fields-sort_fields fs)
        (ap (◌∷◌ b'{') (
          codes-join b'}' (members (dump_fields (sort_fields fs))) r
          ∙ elements_fields (sort_fields fs) r)))

pub printed_str : (s : String) (r : List ℕ) → printed (str s) r ≡ 0x22 ∷ body (codes s) r
unfolding dumps
printed_str s r = codes-quote s r
