-- ===== src/Store/Documents.antt =====
-- blobstore.py: the ids and the hash of the documents that are stored.
use sb_poc.Prelude.{
  ℕ, String, String_eq, Option, none, some, lookup, lookup-put, ◌≡◌, ◌⊎◌, refl, sym, ap, subst,
  Bool-cases, inl, inr,
}
use sb_poc.Json.{Value, null, bool, int, float, str, arr, obj}
use sb_poc.Hashing.{Digest, content_hash}
use sb_poc.Row.{id_of, hash_of}
use sb_poc.Queue.{Key, Key_eq, key_beq, key_beq_iff}
use sb_poc.Store.{Database, DatabaseLaws, Blob, Store, has_blob_hash, upsert_blob, get_blob}

-- The value is an object that carries the ids of the key.
abbrev pub Carries : Digest → Key → Value → Type 0
Carries d k raw =
    (id_of "tenant_id" raw ≡ str k.tenant_id)
    × (id_of "conversation_id" raw ≡ str k.conversation_id)
    × (h : String) × (hash_of d raw ≡ some h)

abbrev raw_or_null : Option Blob → Value
raw_or_null none = null
raw_or_null (some b) = b.raw

-- Every stored document is an object that carries the ids of its key.
unfoldable pub IsKeyed : {F : Type 0} → Digest → Store F → Type 0
IsKeyed d s = (k : Key) (b : Blob) → get_blob k s ≡ some b → Carries d k b.raw

module _ {F : Type 0} (d : Digest) (db : Database F) (laws : DatabaseLaws db) where
  -- A document that is written with the ids of its key still has them when it is read back.
  jsonb-Carries : (k : Key) (raw : Value) → Carries d k raw → Carries d k (db.jsonb raw)
  jsonb-Carries k (obj fs) (t, c, h, _) =
      let (gs, e, g) = laws.jsonb_obj fs in
      rw e (
        rw (g "tenant_id", t) (laws.jsonb_str k.tenant_id),
        rw (g "conversation_id", c) (laws.jsonb_str k.conversation_id),
        content_hash d (obj gs),
        refl,
      )
  jsonb-Carries k null (t, c, h, e) = absurd (cc)
  jsonb-Carries k (bool b) (t, c, h, e) = absurd (cc)
  jsonb-Carries k (int n) (t, c, h, e) = absurd (cc)
  jsonb-Carries k (float x) (t, c, h, e) = absurd (cc)
  jsonb-Carries k (str s) (t, c, h, e) = absurd (cc)
  jsonb-Carries k (arr xs) (t, c, h, e) = absurd (cc)

  get-upsert_blob :
      (now : ℕ) (k j : Key) (h : String) (raw : Value) (s : Store F) (b : Blob)
      → get_blob j (upsert_blob db now k h raw s) ≡ some b
      → (get_blob j s ≡ some b) ⊎ ((k ≡ j) × (b.raw ≡ db.jsonb raw))
  unfolding get_blob upsert_blob
  get-upsert_blob now k j h raw s b e = elim (Bool-cases (has_blob_hash h (lookup k s.blobs))) [
    | inl same ↦ inl (rw same at e)
    | inr changed ↦
        let e' =
          rw
            (
              changed,
              lookup-put k j (record { content_hash = h; raw = db.jsonb raw; ingested_at = now })
                  s.blobs,
            )
            at e in
        elim (Bool-cases (key_beq k j)) [
          | inl here ↦ inr ((key_beq_iff k j).0 here, sym (ap raw_or_null (rw here at e')))
          | inr there ↦ inl (rw there at e')
        ]
  ]

  -- Storing a document under its own ids keeps every stored document under its own ids.
  pub upsert_blob-IsKeyed :
      (now : ℕ) (k : Key) (h : String) (raw : Value) (s : Store F)
      → Carries d k raw
      → IsKeyed d s
      → IsKeyed d (upsert_blob db now k h raw s)
  unfolding IsKeyed
  upsert_blob-IsKeyed now k h raw s c keyed = λ j b e. elim (get-upsert_blob now k j h raw s b e) [
    | inl old ↦ keyed j b old
    | inr (same, raw_eq) ↦
        rw raw_eq (subst (λ i. Carries d i (db.jsonb raw)) same (jsonb-Carries k raw c))
  ]
