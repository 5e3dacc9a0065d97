-- ===== src/Pipeline/Ingested.antt =====
-- cli.py, ingest: what a run over a directory leaves in the tables.
use sb_poc.Prelude.{
  ℕ, String, String_eq, Bool, true, false, Option, none, some, List, [], ◌∷◌, ◌≡◌, refl, subst,
  arith, Bool-cases, inl, inr, All,
}
use sb_poc.Json.{Value}
use sb_poc.Hashing.{Digest, content_hash}
use sb_poc.Queue.{Key, own_or_other, JobView, JobStatus, claimed, has_hash}
use sb_poc.Queue.Postgres.{view, enqueue, pg_queue-QueueLaws}
use sb_poc.Store.{Database, DatabaseLaws, Store, blob_key, upsert_blob}
use sb_poc.Worker.{store_queue}
use sb_poc.Ingest.{
  IngestStats, Load, loaded, unreadable, File, document_key, see, no_files, insert_dead_letter,
  ingest_document, ingest_checked, ingest_load, ingest_files, ingest_directory,
}
use sb_poc.Ingest.Documents.{document_key-Carries}
use sb_poc.System.Sound.{has_job, IsSound, Keeps, Keeps-refl, Keeps-trans}
use sb_poc.System.Tables.{enqueue-Keeps}
use sb_poc.System.Moves.{
  upsert_blob-jobs, upsert_blob-Keeps, upsert_blob-has_blob, dead_letter-Keeps,
}

abbrev pub is_unclaimed_status : JobStatus → Bool
is_unclaimed_status claimed = false
is_unclaimed_status _ = true

abbrev pub is_unclaimed : Option JobView → Bool
is_unclaimed none = true
is_unclaimed (some v) = is_unclaimed_status v.status

-- No worker holds a job.
abbrev pub Unclaimed : {F : Type 0} → Store F → Type 0
Unclaimed s = (k : Key) → is_unclaimed (view k s.jobs) ≡ true

module _ {F : Type 0} where
  -- The tables stay sound, nothing disappears from them, and no job is claimed.
  pub record Ingests (d : Digest) (s t : Store F) : Type 0 where
    pub keeps : Keeps d s t
    pub unclaimed : Unclaimed s → Unclaimed t

  Ingests-refl : (d : Digest) (s : Store F) → IsSound d s → Ingests d s s
  Ingests-refl d s i = record { keeps = Keeps-refl d s i; unclaimed = λ h. h }

  Ingests-trans : (d : Digest) (s t v : Store F) → Ingests d s t → Ingests d t v → Ingests d s v
  Ingests-trans d s t v p q = record {
    keeps = Keeps-trans d s t v p.keeps q.keeps;
    unclaimed = λ h. q.unclaimed (p.unclaimed h);
  }

  enqueue-view :
      (now : ℕ) (k : Key) (b h : String) (s : Store F)
      → (has_job (store_queue.enqueue now k b h s).1 k ≡ true)
        × (Unclaimed s → Unclaimed (store_queue.enqueue now k b h s).1)
  enqueue-view now k b h s = elim (Bool-cases (has_hash h (view k s.jobs))) [
    | inl same ↦
        let kept = pg_queue-QueueLaws.enqueue_tracked now k b h s.jobs same in
        rw kept (ground (arith, same), λ u. u)
    | inr changed ↦
        let own = (pg_queue-QueueLaws.enqueue_new now k b h s.jobs changed).1 in
        (
          rw own refl,
          λ u j.
              own_or_other (λ x. is_unclaimed (view x (enqueue now k b h s.jobs).1) ≡ true) k j
                (rw own refl)
                (λ n. rw (pg_queue-QueueLaws.enqueue_other now k j b h s.jobs n) (u j)),
        )
  ]

  module _ (d : Digest) (db : Database F) (laws : DatabaseLaws db) where
    abbrev on_store : (ℕ → ℕ) → List File → IngestStats → Store F → IngestStats × Store F
    on_store = ingest_files d store_queue (upsert_blob db) (some insert_dead_letter)

    -- The document of a load, if it has its ids, has a job.
    abbrev pub HasJob : Store F → Load → Type 0
    HasJob s (unreadable error) = Unit
    HasJob s (loaded raw) = (k : Key) → document_key raw ≡ some k → has_job s k ≡ true

    HasJob-Ingests : (s t : Store F) (load : Load) → Ingests d s t → HasJob s load → HasJob t load
    HasJob-Ingests s t (unreadable error) p h = tt
    HasJob-Ingests s t (loaded raw) p h = λ k e. p.keeps.extends.jobs k (h k e)

    document-Ingests :
        (now : ℕ) (raw : Value) (key : Key) (st : IngestStats) (s : Store F)
        → document_key raw ≡ some key
        → IsSound d s
        → let t =
            (ingest_document d store_queue
              (upsert_blob db)
              (some insert_dead_letter)
              now
              raw
              key
              st
              s).1 in
          Ingests d s t × (has_job t key ≡ true)
    unfolding ingest_document
    document-Ingests now raw key st s e i =
        let hash = content_hash d raw in
        let c = document_key-Carries d raw key e in
        let v = upsert_blob db now key hash raw s in
        let same = upsert_blob-jobs db now key hash raw s in
        let kept = upsert_blob-Keeps db now key hash raw s d laws i c in
        let (there, free) = enqueue-view now key (blob_key key) hash v in
        let stored : Ingests d s v = record { keeps = kept; unclaimed = λ u k. rw same (u k) } in
        let queued : Ingests d v (store_queue.enqueue now key (blob_key key) hash v).1 = record {
          keeps =
              enqueue-Keeps d v kept.sound now key (blob_key key) hash
                (upsert_blob-has_blob db now key hash raw s d laws i c);
          unclaimed = free;
        } in
        (Ingests-trans d s v _ stored queued, there)

    dead_letter-Ingests :
        (name error : String) (s : Store F)
        → IsSound d s
        → Ingests d s (insert_dead_letter name error s)
    dead_letter-Ingests name error s i = record {
      keeps = dead_letter-Keeps d name error s i;
      unclaimed = λ u. u;
    }

    load-Ingests :
        (now : ℕ) (name : String) (load : Load) (st : IngestStats) (s : Store F)
        → IsSound d s
        → let t =
            (ingest_load d store_queue
              (upsert_blob db)
              (some insert_dead_letter)
              now
              name
              load
              st
              s).1 in
          Ingests d s t × HasJob t load
    unfolding ingest_load ingest_checked
    load-Ingests now name (unreadable error) st s i = (dead_letter-Ingests name error s i, tt)
    load-Ingests now name (loaded raw) st s i = checked (document_key raw) refl
      where
        checked :
            (o : Option Key)
            → document_key raw ≡ o
            → let t =
                (ingest_checked d store_queue
                  (upsert_blob db)
                  (some insert_dead_letter)
                  now
                  name
                  raw
                  o
                  st
                  s).1 in
              Ingests d s t × ((k : Key) → document_key raw ≡ some k → has_job t k ≡ true)
        checked none e = (
          dead_letter-Ingests name "missing or invalid tenant_id/conversation_id" s i,
          λ k h. absurd (cc),
        )
        checked (some key) e =
            let (done, there) = document-Ingests now raw key st s e i in
            (
              done,
              λ k h.
                  subst
                    (λ x.
                      has_job
                        (ingest_document d store_queue (upsert_blob db) (some insert_dead_letter)
                          now raw key st s).1
                        x
                      ≡ true)
                    (cc) there,
            )

    files-Ingests :
        (clock : ℕ → ℕ) (files : List File) (st : IngestStats) (s : Store F)
        → IsSound d s
        → Ingests d s (on_store clock files st s).1
          × All (λ x. HasJob (on_store clock files st s).1 x.load) files
    unfolding ingest_files
    files-Ingests clock [] st s i = (Ingests-refl d s i, tt)
    files-Ingests clock (x ∷ files) st s i =
        let r =
          ingest_load d store_queue (upsert_blob db) (some insert_dead_letter) (clock st.files_seen)
            x.name x.load (see st) s in
        let (first, own) = load-Ingests (clock st.files_seen) x.name x.load (see st) s i in
        let (others, all) = files-Ingests clock files r.0 r.1 first.keeps.sound in
        (Ingests-trans d s r.1 _ first others, (HasJob-Ingests r.1 _ x.load others own, all))

    -- After a run over a directory the tables are sound, and each document with its ids has a job.
    pub ingest_directory-Ingests :
        (clock : ℕ → ℕ) (files : List File) (s : Store F)
        → IsSound d s
        → let t =
            (ingest_directory d store_queue
              (upsert_blob db)
              (some insert_dead_letter)
              clock
              files
              s).1 in
          Ingests d s t × All (λ x. HasJob t x.load) files
    unfolding ingest_directory
    ingest_directory-Ingests clock files s i = files-Ingests clock files no_files s i
