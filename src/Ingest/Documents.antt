-- ===== src/Ingest/Documents.antt =====
-- ingest.py and cli.py: the ids of the documents that a run stores.
use sb_poc.Prelude.{
  ℕ, String, String_eq, Option, none, some, List, [], ◌∷◌, ◌≡◌, refl, ap, ◌∙◌, arith,
}
use sb_poc.Json.{Value, null, bool, int, float, str, arr, obj}
use sb_poc.Schema.{non_empty_str}
use sb_poc.Hashing.{Digest, content_hash}
use sb_poc.Row.{id_of, hash_of}
use sb_poc.Queue.{Key}
use sb_poc.Store.{Database, DatabaseLaws, Store, upsert_blob, get_blob}
use sb_poc.Store.Documents.{Carries, IsKeyed, upsert_blob-IsKeyed}
use sb_poc.Worker.{store_queue}
use sb_poc.Ingest.{
  IngestStats, no_files, Load, loaded, unreadable, File, with_id, document_key, see,
  ingest_document, ingest_checked, ingest_load, ingest_files, ingest_directory, insert_dead_letter,
}

non_empty_str-str : (v : Value) (s : String) → non_empty_str v ≡ some s → v ≡ str s
unfolding non_empty_str
non_empty_str-str (str t) s h = ground arith
non_empty_str-str null s h = absurd (cc)
non_empty_str-str (bool b) s h = absurd (cc)
non_empty_str-str (int n) s h = absurd (cc)
non_empty_str-str (float x) s h = absurd (cc)
non_empty_str-str (arr xs) s h = absurd (cc)
non_empty_str-str (obj fs) s h = absurd (cc)

with_id-eq :
    (t : String) (o : Option String) (k : Key)
    → with_id t o ≡ some k
    → (t ≡ k.tenant_id) × (o ≡ some k.conversation_id)
with_id-eq t none k h = absurd (cc)
with_id-eq t (some c) k h =
    let e : record { tenant_id = t; conversation_id = c } ≡ k = cc in
    (ap (λ x. x.tenant_id) e, ap (λ x. some x.conversation_id) e)

hash_of-object :
    (d : Digest) (raw : Value) (s : String)
    → id_of "tenant_id" raw ≡ str s
    → (h : String) × (hash_of d raw ≡ some h)
hash_of-object d (obj fs) s e = (content_hash d (obj fs), refl)
hash_of-object d null s e = absurd (cc)
hash_of-object d (bool b) s e = absurd (cc)
hash_of-object d (int n) s e = absurd (cc)
hash_of-object d (float x) s e = absurd (cc)
hash_of-object d (str t) s e = absurd (cc)
hash_of-object d (arr xs) s e = absurd (cc)

ids-Carries :
    (d : Digest) (raw : Value) (o : Option String) (k : Key)
    → non_empty_str (id_of "tenant_id" raw) ≡ o
    → (elim o [ none ↦ none | some t ↦ with_id t (non_empty_str (id_of "conversation_id" raw)) ])
      ≡ some k
    → Carries d k raw
ids-Carries d raw none k e h = absurd (cc)
ids-Carries d raw (some t) k e h =
    let (et, ec) = with_id-eq t _ k h in
    let tenant = non_empty_str-str _ _ (e ∙ ap some et) in
    let (g, eg) = hash_of-object d raw k.tenant_id tenant in
    (tenant, non_empty_str-str _ _ ec, g, eg)

pub document_key-Carries :
    (d : Digest) (raw : Value) (k : Key) → document_key raw ≡ some k → Carries d k raw
unfolding document_key
document_key-Carries d raw k h = ids-Carries d raw _ k refl h

module _ (F : Type 0) (d : Digest) (db : Database F) (laws : DatabaseLaws db) where
  abbrev files_on_store : (ℕ → ℕ) → List File → IngestStats → Store F → IngestStats × Store F
  files_on_store = ingest_files d store_queue (upsert_blob db) (some insert_dead_letter)

  checked-IsKeyed :
      (now : ℕ) (name : String) (raw : Value) (o : Option Key) (st : IngestStats) (s : Store F)
      → document_key raw ≡ o
      → IsKeyed d s
      → IsKeyed d
          (ingest_checked d store_queue
            (upsert_blob db)
            (some insert_dead_letter)
            now
            name
            raw
            o
            st
            s).1
  unfolding ingest_checked ingest_document IsKeyed get_blob
  checked-IsKeyed now name raw none st s e keyed = λ k b h. keyed k b h
  checked-IsKeyed now name raw (some key) st s e keyed = λ k b h.
      upsert_blob-IsKeyed d db laws now key (content_hash d raw) raw s
        (document_key-Carries d raw key e) keyed k b h

  load-IsKeyed :
      (now : ℕ) (name : String) (load : Load) (st : IngestStats) (s : Store F)
      → IsKeyed d s
      → IsKeyed d
          (ingest_load d store_queue
            (upsert_blob db)
            (some insert_dead_letter)
            now
            name
            load
            st
            s).1
  unfolding ingest_load IsKeyed get_blob
  load-IsKeyed now name (unreadable error) st s keyed = λ k b h. keyed k b h
  load-IsKeyed now name (loaded raw) st s keyed =
      λ k b h. checked-IsKeyed now name raw (document_key raw) st s refl keyed k b h

  files-IsKeyed :
      (clock : ℕ → ℕ) (files : List File) (st : IngestStats) (s : Store F)
      → IsKeyed d s
      → IsKeyed d (files_on_store clock files st s).1
  unfolding ingest_files
  files-IsKeyed clock [] st s keyed = keyed
  files-IsKeyed clock (x ∷ files) st s keyed =
      files-IsKeyed clock files _ _
        (load-IsKeyed (clock st.files_seen) x.name x.load (see st) s keyed)

  -- `pipeline ingest` keeps every stored document under its own ids, whatever the files hold, as long
  -- as a JSONB column keeps strings and the values of an object.
  pub ingest_directory-IsKeyed :
      (clock : ℕ → ℕ) (files : List File) (s : Store F)
      → IsKeyed d s
      → IsKeyed d
          (ingest_directory d store_queue
            (upsert_blob db)
            (some insert_dead_letter)
            clock
            files
            s).1
  unfolding ingest_directory
  ingest_directory-IsKeyed clock files s keyed = files-IsKeyed clock files no_files s keyed
