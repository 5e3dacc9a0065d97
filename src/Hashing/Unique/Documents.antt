-- ===== src/Hashing/Unique/Documents.antt =====
-- hashing.py, content_hash: documents with the same canonical text are the same but for the order of keys.
use package.text.Mathlib.TextLemmas.{append_cancel_left}
use sb_poc.Prelude.{
  ℕ, String, ℤ, ◌≡◌, ◌≢◌, ◌↔◌, refl, sym, ap, subst, ◌∙◌, Bool, true, false, List, [], ◌∷◌, ◌++◌,
  arith,
}
use sb_poc.Json.{Value, null, bool, int, float, str, arr, obj, Items, nil, cons, Fields, end, field}
use sb_poc.Text.{codes}
use sb_poc.Hashing.{Digest, dumps, content_hash, show_int}
use sb_poc.Hashing.Order.{codes-injective}
use sb_poc.Hashing.Canonical.{
  SameValue, same, same_array, same_object, SameItems, no_items, item, content_hash-same,
}
use sb_poc.Hashing.Unique.Codes.{same_rest, apart, body, body-injective}
use sb_poc.Hashing.Unique.Numbers.{
  at_end, is_float, is_integer, no_end_unique, show_int-injective, is_integer-show_int,
  no_end-is_integer,
}
use sb_poc.Hashing.Unique.Sorted.{AllFields}
use sb_poc.Hashing.Unique.Texts.{
  IsJson, AllJson, FieldsJson, printed, items_more, items_all, printed_arr, printed_str,
}
use sb_poc.Hashing.Unique.Kinds.{kind, kind_unique, printed_ne_close}
use sb_poc.Hashing.Unique.Fields.{Readable, object_unique}

-- Values of different kinds have different texts.
kinds_differ :
    {A : Type 0} (v w : Value) (r q : List ℕ)
    → IsJson v
    → IsJson w
    → printed v r ≡ printed w q
    → kind v ≢ kind w
    → A
kinds_differ v w r q a b h d = absurd (d (kind_unique v w r q a b h))

float_not_int :
    (x : String) (n : ℤ) (r q : List ℕ)
    → is_float (codes x) ≡ true
    → at_end r ≡ true
    → at_end q ≡ true
    → printed (float x) r ≢ printed (int n) q
unfolding is_float dumps
float_not_int x n r q f a b h =
    let (e, _) =
      no_end_unique (codes x) (codes (show_int n)) r q (ground arith)
        (no_end-is_integer (codes (show_int n)) (is_integer-show_int n)) a b h in
    let whole : is_integer (codes x) ≡ true = ap is_integer e ∙ is_integer-show_int n in
    ground arith

bool_unique :
    (b c : Bool) (r q : List ℕ)
    → printed (bool b) r ≡ printed (bool c) q
    → SameValue (bool b) (bool c) × (r ≡ q)
unfolding dumps
bool_unique true true r q h = (same (bool true), cc)
bool_unique false false r q h = (same (bool false), cc)
bool_unique true false r q h = apart b't' b'f' _ _ refl h
bool_unique false true r q h = apart b'f' b't' _ _ refl h

null_unique : (r q : List ℕ) → printed null r ≡ printed null q → SameValue null null × (r ≡ q)
unfolding dumps
null_unique r q h = (same null, cc)

int_unique :
    (m n : ℤ) (r q : List ℕ)
    → at_end r ≡ true
    → at_end q ≡ true
    → printed (int m) r ≡ printed (int n) q
    → SameValue (int m) (int n) × (r ≡ q)
unfolding dumps
int_unique m n r q a b h =
    let (e, rest) =
      no_end_unique (codes (show_int m)) (codes (show_int n)) r q
        (no_end-is_integer (codes (show_int m)) (is_integer-show_int m))
        (no_end-is_integer (codes (show_int n)) (is_integer-show_int n)) a b h in
    (subst (λ k. SameValue (int m) (int k)) (show_int-injective m n e) (same (int m)), rest)

float_unique :
    (x y : String) (r q : List ℕ)
    → is_float (codes x) ≡ true
    → is_float (codes y) ≡ true
    → at_end r ≡ true
    → at_end q ≡ true
    → printed (float x) r ≡ printed (float y) q
    → SameValue (float x) (float y) × (r ≡ q)
unfolding dumps is_float
float_unique x y r q f g a b h =
    let (e, rest) = no_end_unique (codes x) (codes y) r q (ground arith) (ground arith) a b h in
    (subst (λ z. SameValue (float x) (float z)) (codes-injective x y e) (same (float x)), rest)

str_unique :
    (s t : String) (r q : List ℕ)
    → printed (str s) r ≡ printed (str t) q
    → SameValue (str s) (str t) × (r ≡ q)
str_unique s t r q h =
    let texts : (0x22 ∷ body (codes s) r) ≡ (0x22 ∷ body (codes t) q) =
      sym (printed_str s r) ∙ h ∙ printed_str t q in
    let (e, rest) = body-injective (codes s) (codes t) r q (same_rest 0x22 0x22 _ _ texts) in
    (subst (λ z. SameValue (str s) (str z)) (codes-injective s t e) (same (str s)), rest)

at_end-items_more : (xs : Items) (r : List ℕ) → at_end (items_more xs r) ≡ true
unfolding items_more at_end
at_end-items_more nil r = refl
at_end-items_more (cons v xs) r = refl

mutual
  unfolding IsJson items_more items_all kind

  readable : (v : Value) → IsJson v → Readable v
  readable null a null r q b c d h = null_unique r q h
  readable (bool x) a (bool y) r q b c d h = bool_unique x y r q h
  readable (int m) a (int n) r q b c d h = int_unique m n r q c d h
  readable (int m) a (float y) r q b c d h = absurd (float_not_int y m q r b d c (sym h))
  readable (float x) a (int n) r q b c d h = absurd (float_not_int x n r q a c d h)
  readable (float x) a (float y) r q b c d h = float_unique x y r q a b c d h
  readable (str s) a (str t) r q b c d h = str_unique s t r q h
  readable (arr xs) a (arr ys) r q b c d h =
      let texts : (b'[' ∷ items_all xs r) ≡ (b'[' ∷ items_all ys q) =
        sym (printed_arr xs r) ∙ h ∙ printed_arr ys q in
      let (s, e) = items_unique xs a ys r q b (same_rest b'[' b'[' _ _ texts) in (same_array s, e)
  readable (obj fs) a (obj gs) r q b c d h =
      let (s, e) = object_unique fs gs r q (Readable-fields fs a) a b h in (same_object s, e)
  readable v a w r q b c d h = kinds_differ v w r q a b h (λ e. cc)

  items_unique :
      (xs : Items)
      → AllJson xs
      → (ys : Items) (r q : List ℕ) → AllJson ys
      → items_all xs r ≡ items_all ys q
      → SameItems xs ys × (r ≡ q)
  items_unique nil a nil r q b h = (no_items, same_rest _ _ r q h)
  items_unique nil a (cons w ys) r q b h =
      absurd (printed_ne_close w (items_more ys q) r b.0 (sym h))
  items_unique (cons v xs) a nil r q b h = absurd (printed_ne_close v (items_more xs r) q a.0 h)
  items_unique (cons v xs) a (cons w ys) r q b h =
      let (s, e) =
        readable v a.0 w (items_more xs r) (items_more ys q) b.0 (at_end-items_more xs r)
          (at_end-items_more ys q) h in
      let (t, f) = rest_unique xs a.1 ys r q b.1 e in (item s t, f)

  rest_unique :
      (xs : Items)
      → AllJson xs
      → (ys : Items) (r q : List ℕ) → AllJson ys
      → items_more xs r ≡ items_more ys q
      → SameItems xs ys × (r ≡ q)
  rest_unique nil a nil r q b h = (no_items, same_rest _ _ r q h)
  rest_unique nil a (cons w ys) r q b h = apart b']' b',' _ _ refl h
  rest_unique (cons v xs) a nil r q b h = apart b',' b']' _ _ refl h
  rest_unique (cons v xs) a (cons w ys) r q b h =
      let (s, e) =
        readable v a.0 w (items_more xs r) (items_more ys q) b.0 (at_end-items_more xs r)
          (at_end-items_more ys q) (same_rest b',' b',' _ _ h) in
      let (t, f) = rest_unique xs a.1 ys r q b.1 e in (item s t, f)

  Readable-fields : (fs : Fields) → FieldsJson fs → AllFields Readable fs
  Readable-fields end a = tt
  Readable-fields (field k v fs) a = (readable v a.1, Readable-fields fs a.2)

dumps_unique : (v w : Value) → IsJson v → IsJson w → dumps v ≡ dumps w → SameValue v w
unfolding at_end
dumps_unique v w a b h = (readable v a w [] [] b refl refl (ap (λ s. codes s ++ []) h)).0

module _ (d : Digest) where
  -- Two documents, with different keys in each dict and floats that print as floats, have the same content
  -- hash exactly if they differ only in the order of keys, at any depth, provided that the digest does
  -- not take their canonical texts to the same value without the texts being equal.
  pub content_hash-SameValue :
      (v w : Value)
      → IsJson v
      → IsJson w
      → (d.sha256_hex (dumps v) ≡ d.sha256_hex (dumps w) → dumps v ≡ dumps w)
      → (content_hash d v ≡ content_hash d w) ↔ SameValue v w
  unfolding content_hash
  content_hash-SameValue v w a b resists = (
    λ h. dumps_unique v w a b (
        resists (append_cancel_left "sha256:" (d.sha256_hex (dumps v)) (d.sha256_hex (dumps w)) h)),
    content_hash-same d v w,
  )
