-- ===== src/Hashing/Canonical.antt =====
-- hashing.py, content_hash: documents that differ in the order of the keys of their objects.
use Prim.Native.String.{◌++◌ as ◌⧺◌}
use sb_poc.Prelude.{sort_by, String, ◌≡◌, ◌≢◌, refl, ap, ap₂, ◌∙◌, ◌∷◌}
use sb_poc.Json.{Value, arr, obj, Items, nil, cons, Fields, end, field}
use sb_poc.Hashing.{
  Digest, by_key, join, members, join_object, dumps, dump_items, dump_fields, content_hash,
}
use sb_poc.Hashing.Order.{insert_by_comm}

-- The same document, but for the order of the keys of its objects, at any depth.
mutual
  pub data SameValue : Value → Value → Type 0 where
    same : (v : Value) → SameValue v v
    same_array : {xs ys : Items} → SameItems xs ys → SameValue (arr xs) (arr ys)
    same_object : {fs gs : Fields} → SameFields fs gs → SameValue (obj fs) (obj gs)

  pub data SameItems : Items → Items → Type 0 where
    no_items : SameItems nil nil
    item :
        {v w : Value} {xs ys : Items}
        → SameValue v w
        → SameItems xs ys
        → SameItems (cons v xs) (cons w ys)

  pub data SameFields : Fields → Fields → Type 0 where
    no_fields : SameFields end end
    member :
        {v w : Value} {fs gs : Fields} (k : String)
        → SameValue v w
        → SameFields fs gs
        → SameFields (field k v fs) (field k w gs)
    exchange :
        (j k : String) (v w : Value) (fs : Fields)
        → j ≢ k
        → SameFields (field j v (field k w fs)) (field k w (field j v fs))
    follow : {fs gs hs : Fields} → SameFields fs gs → SameFields gs hs → SameFields fs hs

mutual
  unfolding dumps join_object sort_by

  dumps-same : {v w : Value} → SameValue v w → dumps v ≡ dumps w
  dumps-same (same v) = refl
  dumps-same (same_array h) = ap (λ xs. "[" ⧺ join xs ⧺ "]") (dump_items-same h)
  dumps-same (same_object h) = ap (λ es. "{" ⧺ join (members es) ⧺ "}") (sort_by-same h)

  dump_items-same : {xs ys : Items} → SameItems xs ys → dump_items xs ≡ dump_items ys
  dump_items-same no_items = refl
  dump_items-same (item h hs) = ap₂ ◌∷◌ (dumps-same h) (dump_items-same hs)

  sort_by-same :
      {fs gs : Fields}
      → SameFields fs gs
      → sort_by by_key (dump_fields fs) ≡ sort_by by_key (dump_fields gs)
  sort_by-same no_fields = refl
  sort_by-same (member k h hs) = cc (dumps-same h, sort_by-same hs)
  sort_by-same (exchange j k v w fs h) =
      insert_by_comm (j, dumps v) (k, dumps w) (sort_by by_key (dump_fields fs)) h
  sort_by-same (follow h k) = sort_by-same h ∙ sort_by-same k

module _ (d : Digest) where
  -- Two documents that differ only in the order of the keys of their objects, at any depth, have the
  -- same content hash.
  pub content_hash-same : (v w : Value) → SameValue v w → content_hash d v ≡ content_hash d w
  unfolding content_hash
  content_hash-same v w h = ap (λ text. "sha256:" ⧺ d.sha256_hex text) (dumps-same h)
