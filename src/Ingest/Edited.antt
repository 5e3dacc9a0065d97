-- ===== src/Ingest/Edited.antt =====
-- ingest.py, ingest_directory: a document whose job is tracked already comes again, edited or not.
use sb_poc.Prelude.{
  ℕ, String, String_eq, true, false, Option, none, some, ◌≡◌, ◌↔◌, ◌⊎◌, inl, inr, ap, ◌∙◌, eq_iff,
  arith, Bool-cases,
}
use sb_poc.Json.{Value}
use sb_poc.Hashing.{Digest, dumps, content_hash}
use sb_poc.Hashing.Canonical.{SameValue}
use sb_poc.Hashing.Unique.Texts.{IsJson}
use sb_poc.Hashing.Unique.Documents.{content_hash-SameValue}
use sb_poc.Queue.{Key, JobView, Queue, QueueLaws, has_hash, fresh}
use sb_poc.Store.{blob_key}
use sb_poc.Ingest.{IngestStats, count_newly, ingest_document}
use sb_poc.Ingest.Tracking.{SinkLaws}

-- An entry with one of two content hashes is tracked under the other exactly if they are equal.
has_hash-other :
    (g h : String) (o : Option JobView) → has_hash g o ≡ true → (has_hash h o ≡ true) ↔ (g ≡ h)
has_hash-other g h none e = absurd cc
has_hash-other g h (some v) e = (
  λ t. ground (arith, eq_iff v.content_hash g, eq_iff v.content_hash h),
  λ t. ground (arith, eq_iff v.content_hash g, eq_iff v.content_hash h),
)

module _ {S : Type 0} (d : Digest) (q : Queue S) (store_blob : ℕ → Key → String → Value → S → S)
    (record_dead_letter : Option (String → String → S → S)) (view : Key → S → Option JobView)
    (laws : QueueLaws q view) (sinks : SinkLaws view store_blob record_dead_letter) where
  -- The job of the ids has the content hash of `old`, and `raw` comes with these ids, both with different
  -- keys in each dict and floats that print as floats. Unless the digest takes the two canonical texts,
  -- which differ, to one value: either `raw` is `old` but for the order of keys, it is counted as
  -- tracked and no job changes, or it is not, it is counted as enqueued, and its job is a fresh one with
  -- the content hash of `raw`.
  pub ingest_document_edited :
      (now : ℕ) (old raw : Value) (k : Key) (st : IngestStats) (s : S)
      → IsJson old
      → IsJson raw
      → (d.sha256_hex (dumps old) ≡ d.sha256_hex (dumps raw) → dumps old ≡ dumps raw)
      → has_hash (content_hash d old) (view k s) ≡ true
      → let after = ingest_document d q store_blob record_dead_letter now raw k st s in
        (SameValue old raw
          × (after.0 ≡ count_newly false st)
          × ((j : Key) → view j after.1 ≡ view j s))
        ⊎ ((¬ SameValue old raw)
            × (after.0 ≡ count_newly true st)
            × (view k after.1 ≡ some (fresh (blob_key k) (content_hash d raw))))
  unfolding ingest_document
  ingest_document_edited now old raw k st s a b resists t =
      let h = content_hash d raw in
      let stored = store_blob now k h raw s in
      let kept : has_hash (content_hash d old) (view k stored) ≡ true =
        ap (has_hash (content_hash d old)) (sinks.view-store_blob now k k h raw s) ∙ t in
      let tracked = has_hash-other (content_hash d old) h (view k stored) kept in
      let same = content_hash-SameValue d old raw a b resists in
      elim (Bool-cases (has_hash h (view k stored))) [
        | inl e ↦ inl (
          same.0 (tracked.0 e),
          ap (λ r. count_newly r.0 st) (laws.enqueue_tracked now k (blob_key k) h stored e),
          λ j.
              ap (λ r. view j r.1) (laws.enqueue_tracked now k (blob_key k) h stored e)
              ∙ sinks.view-store_blob now k j h raw s,
        )
        | inr e ↦ inr (
          λ eq. absurd (cc (tracked.1 (same.1 eq))),
          ap (λ r. count_newly r st) (laws.enqueue_new now k (blob_key k) h stored e).0,
          (laws.enqueue_new now k (blob_key k) h stored e).1,
        )
      ]
