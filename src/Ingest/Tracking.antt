-- ===== src/Ingest/Tracking.antt =====
-- ingest.py, ingest_directory: which documents have a job after a run.
use sb_poc.Prelude.{
  ℕ, String, String_eq, true, Option, none, some, List, [], ◌∷◌, ◌≡◌, ◌≢◌, refl, sym, subst, All,
  eq_iff, arith, Bool-cases, inl, inr,
}
use sb_poc.Json.{Value}
use sb_poc.Hashing.{Digest, content_hash}
use sb_poc.Queue.{Key, key_beq, key_beq_iff, JobView, Queue, QueueLaws, has_hash}
use sb_poc.Store.{blob_key}
use sb_poc.Ingest.{
  IngestStats, Load, loaded, unreadable, File, document_key, see, dead_letter, ingest_document,
  ingest_checked, ingest_load, ingest_files,
}

-- The document of a load, if it has its ids, has the content hash that is wanted for them.
abbrev pub Agrees : Digest → (Key → String) → Load → Type 0
Agrees d want (unreadable error) = Unit
Agrees d want (loaded raw) = (k : Key) → document_key raw ≡ some k → content_hash d raw ≡ want k

-- Storing a document and recording a dead letter leave every job alone.
pub record SinkLaws {S : Type 0} (view : Key → S → Option JobView)
    (store_blob : ℕ → Key → String → Value → S → S)
    (record_dead_letter : Option (String → String → S → S)) : Type 0 where
  pub view-store_blob :
      (now : ℕ) (k j : Key) (h : String) (raw : Value) (s : S)
      → view j (store_blob now k h raw s) ≡ view j s
  pub view-dead_letter :
      (j : Key) (name error : String) (s : S)
      → view j (dead_letter record_dead_letter name error s) ≡ view j s

module _ {S : Type 0} (d : Digest) (q : Queue S) (store_blob : ℕ → Key → String → Value → S → S)
    (record_dead_letter : Option (String → String → S → S)) (view : Key → S → Option JobView)
    (laws : QueueLaws q view) (sinks : SinkLaws view store_blob record_dead_letter)
    (want : Key → String) where
  abbrev pub Tracked : S → Key → Type 0
  Tracked s k = has_hash (want k) (view k s) ≡ true

  -- The document of a load is tracked.
  abbrev pub LoadTracked : S → Load → Type 0
  LoadTracked s (unreadable error) = Unit
  LoadTracked s (loaded raw) = (k : Key) → document_key raw ≡ some k → Tracked s k

  enqueue_tracks :
      (now : ℕ) (k : Key) (b h : String) (s : S)
      → has_hash h (view k (q.enqueue now k b h s).1) ≡ true
  enqueue_tracks now k b h s = elim (Bool-cases (has_hash h (view k s))) [
    | inl e ↦ rw (laws.enqueue_tracked now k b h s e) e
    | inr e ↦ rw (laws.enqueue_new now k b h s e).1 (ground (arith, eq_iff h h))
  ]

  document-Tracked :
      (now : ℕ) (raw : Value) (k : Key) (st : IngestStats) (s : S)
      → content_hash d raw ≡ want k
      → Tracked (ingest_document d q store_blob record_dead_letter now raw k st s).1 k
  unfolding ingest_document
  document-Tracked now raw k st s e =
      rw (sym e) (enqueue_tracks now k (blob_key k) (content_hash d raw) _)

  document-Tracked_other :
      (now : ℕ) (raw : Value) (k j : Key) (st : IngestStats) (s : S)
      → content_hash d raw ≡ want k
      → Tracked s j
      → Tracked (ingest_document d q store_blob record_dead_letter now raw k st s).1 j
  unfolding ingest_document
  document-Tracked_other now raw k j st s e t = elim (Bool-cases (key_beq k j)) [
    | inl same ↦
        let eq : k ≡ j = (key_beq_iff k j).0 same in
        subst (λ i. Tracked (ingest_document d q store_blob record_dead_letter now raw k st s).1 i)
          eq (document-Tracked now raw k st s e)
    | inr apart ↦
        let n : k ≢ j = λ eq. absurd (ground (arith, (key_beq_iff k j).1 eq)) in
        rw
          (
            laws.enqueue_other now k j (blob_key k) (content_hash d raw)
                (store_blob now k (content_hash d raw) raw s) n,
            sinks.view-store_blob now k j (content_hash d raw) raw s,
          )
          t
  ]

  checked-Tracked_other :
      (now : ℕ) (name : String) (raw : Value) (o : Option Key) (j : Key) (st : IngestStats) (s : S)
      → ((k : Key) → o ≡ some k → content_hash d raw ≡ want k)
      → Tracked s j
      → Tracked (ingest_checked d q store_blob record_dead_letter now name raw o st s).1 j
  unfolding ingest_checked
  checked-Tracked_other now name raw none j st s a t = rw (sinks.view-dead_letter j name _ s) t
  checked-Tracked_other now name raw (some k) j st s a t =
      document-Tracked_other now raw k j st s (a k refl) t

  checked-Tracked :
      (now : ℕ) (name : String) (raw : Value) (o : Option Key) (k : Key) (st : IngestStats) (s : S)
      → ((k : Key) → o ≡ some k → content_hash d raw ≡ want k)
      → o ≡ some k
      → Tracked (ingest_checked d q store_blob record_dead_letter now name raw o st s).1 k
  unfolding ingest_checked
  checked-Tracked now name raw o k st s a e = rw e (document-Tracked now raw k st s (a k e))

  load-Tracked_other :
      (now : ℕ) (name : String) (load : Load) (j : Key) (st : IngestStats) (s : S)
      → Agrees d want load
      → Tracked s j
      → Tracked (ingest_load d q store_blob record_dead_letter now name load st s).1 j
  unfolding ingest_load
  load-Tracked_other now name (unreadable error) j st s a t =
      rw (sinks.view-dead_letter j name error s) t
  load-Tracked_other now name (loaded raw) j st s a t =
      checked-Tracked_other now name raw (document_key raw) j st s a t

  load-Tracked :
      (now : ℕ) (name : String) (load : Load) (st : IngestStats) (s : S)
      → Agrees d want load
      → LoadTracked (ingest_load d q store_blob record_dead_letter now name load st s).1 load
  unfolding ingest_load
  load-Tracked now name (unreadable error) st s a = tt
  load-Tracked now name (loaded raw) st s a =
      λ k e. checked-Tracked now name raw (document_key raw) k st s a e

  pub LoadTracked-step :
      (load : Load) (s s' : S)
      → ((k : Key) → Tracked s k → Tracked s' k)
      → LoadTracked s load
      → LoadTracked s' load
  LoadTracked-step (unreadable error) s s' f t = tt
  LoadTracked-step (loaded raw) s s' f t = λ k e. f k (t k e)

  files-Tracked_other :
      (clock : ℕ → ℕ) (files : List File) (j : Key) (st : IngestStats) (s : S)
      → All (λ x. Agrees d want x.load) files
      → Tracked s j
      → Tracked (ingest_files d q store_blob record_dead_letter clock files st s).1 j
  unfolding ingest_files
  files-Tracked_other clock [] j st s a t = t
  files-Tracked_other clock (x ∷ files) j st s a t =
      files-Tracked_other clock files j _ _ a.1
        (load-Tracked_other (clock st.files_seen) x.name x.load j (see st) s a.0 t)

  pub files-Tracked :
      (clock : ℕ → ℕ) (files : List File) (st : IngestStats) (s : S)
      → All (λ x. Agrees d want x.load) files
      → All
          (λ x.
            LoadTracked (ingest_files d q store_blob record_dead_letter clock files st s).1 x.load)
          files
  unfolding ingest_files
  files-Tracked clock [] st s a = tt
  files-Tracked clock (x ∷ files) st s a =
      let r =
        ingest_load d q store_blob record_dead_letter (clock st.files_seen) x.name x.load (see st)
          s in
      (
        LoadTracked-step x.load r.1 _ (λ k t. files-Tracked_other clock files k r.0 r.1 a.1 t)
            (load-Tracked (clock st.files_seen) x.name x.load (see st) s a.0),
        files-Tracked clock files r.0 r.1 a.1,
      )
