-- ===== src/Ingest/Again.antt =====
-- ingest.py, ingest_directory: a second run over the same files.
use sb_poc.Prelude.{
  ℕ, String, String_eq, true, Option, none, some, List, [], ◌∷◌, ◌≡◌, refl, ap, ◌∙◌, All,
}
use sb_poc.Json.{Value}
use sb_poc.Hashing.{Digest, content_hash}
use sb_poc.Queue.{Key, JobView, Queue, QueueLaws, has_hash}
use sb_poc.Store.{blob_key}
use sb_poc.Ingest.{
  IngestStats, no_files, Load, loaded, unreadable, File, document_key, see, ingest_document,
  ingest_checked, ingest_load, ingest_files, ingest_directory,
}
use sb_poc.Ingest.Tracking.{Agrees, SinkLaws, LoadTracked, LoadTracked-step, files-Tracked}

module _ {S : Type 0} (d : Digest) (q : Queue S) (store_blob : ℕ → Key → String → Value → S → S)
    (record_dead_letter : Option (String → String → S → S)) (view : Key → S → Option JobView)
    (laws : QueueLaws q view) (sinks : SinkLaws view store_blob record_dead_letter)
    (want : Key → String) where
  -- A step that enqueued nothing and left every job alone.
  abbrev Idle : IngestStats → S → IngestStats × S → Type 0
  Idle st s r = (r.0.enqueued ≡ st.enqueued) × ((j : Key) → view j r.1 ≡ view j s)

  abbrev IsTracked : S → Key → Type 0
  IsTracked s k = has_hash (want k) (view k s) ≡ true

  document-Idle :
      (now : ℕ) (raw : Value) (k : Key) (st : IngestStats) (s : S)
      → content_hash d raw ≡ want k
      → IsTracked s k
      → Idle st s (ingest_document d q store_blob record_dead_letter now raw k st s)
  unfolding ingest_document
  document-Idle now raw k st s e t =
      let h = content_hash d raw in
      let stored : has_hash h (view k (store_blob now k h raw s)) ≡ true =
        rw (sinks.view-store_blob now k k h raw s, e) t in
      rw (laws.enqueue_tracked now k (blob_key k) h (store_blob now k h raw s) stored)
        (refl, λ j. sinks.view-store_blob now k j h raw s)

  checked-Idle :
      (now : ℕ) (name : String) (raw : Value) (o : Option Key) (st : IngestStats) (s : S)
      → ((k : Key) → o ≡ some k → content_hash d raw ≡ want k)
      → ((k : Key) → o ≡ some k → IsTracked s k)
      → Idle st s (ingest_checked d q store_blob record_dead_letter now name raw o st s)
  unfolding ingest_checked
  checked-Idle now name raw none st s a t = (refl, λ j. sinks.view-dead_letter j name _ s)
  checked-Idle now name raw (some k) st s a t = document-Idle now raw k st s (a k refl) (t k refl)

  load-Idle :
      (now : ℕ) (name : String) (load : Load) (st : IngestStats) (s : S)
      → Agrees d want load
      → LoadTracked d q store_blob record_dead_letter view laws sinks want s load
      → Idle st s (ingest_load d q store_blob record_dead_letter now name load st s)
  unfolding ingest_load
  load-Idle now name (unreadable error) st s a t =
      (refl, λ j. sinks.view-dead_letter j name error s)
  load-Idle now name (loaded raw) st s a t = checked-Idle now name raw (document_key raw) st s a t

  still-tracked :
      (files : List File) (s s' : S)
      → ((j : Key) → view j s' ≡ view j s)
      → All (λ x. LoadTracked d q store_blob record_dead_letter view laws sinks want s x.load) files
      → All
          (λ x. LoadTracked d q store_blob record_dead_letter view laws sinks want s' x.load)
          files
  still-tracked [] s s' same t = tt
  still-tracked (x ∷ files) s s' same t = (
    LoadTracked-step d q store_blob record_dead_letter view laws sinks want x.load s s'
        (λ k h. ap (has_hash (want k)) (same k) ∙ h) t.0,
    still-tracked files s s' same t.1,
  )

  files-Idle :
      (clock : ℕ → ℕ) (files : List File) (st : IngestStats) (s : S)
      → All (λ x. Agrees d want x.load) files
      → All (λ x. LoadTracked d q store_blob record_dead_letter view laws sinks want s x.load) files
      → Idle st s (ingest_files d q store_blob record_dead_letter clock files st s)
  unfolding ingest_files
  files-Idle clock [] st s a t = (refl, λ j. refl)
  files-Idle clock (x ∷ files) st s a t =
      let r =
        ingest_load d q store_blob record_dead_letter (clock st.files_seen) x.name x.load (see st)
          s in
      let one = load-Idle (clock st.files_seen) x.name x.load (see st) s a.0 t.0 in
      let rest = files-Idle clock files r.0 r.1 a.1 (still-tracked files s r.1 one.1 t.1) in
      (rest.0 ∙ one.0, λ j. rest.1 j ∙ one.1 j)

  -- Over a queue that keeps the promises of the protocol, a second run over the same files enqueues
  -- nothing and leaves every job as the first run left it, whenever it takes place, as long as no two
  -- documents with the same ids have different content hashes, and storing a document and recording a
  -- dead letter leave the jobs alone.
  pub ingest_directory_again :
      (clock clock' : ℕ → ℕ) (files : List File) (s : S)
      → All (λ x. Agrees d want x.load) files
      → let first = ingest_directory d q store_blob record_dead_letter clock files s in
        let second = ingest_directory d q store_blob record_dead_letter clock' files first.1 in
        (second.0.enqueued ≡ 0) × ((j : Key) → view j second.1 ≡ view j first.1)
  unfolding ingest_directory
  ingest_directory_again clock clock' files s a = files-Idle clock' files no_files _ a (
      files-Tracked d q store_blob record_dead_letter view laws sinks want clock files no_files s a)
