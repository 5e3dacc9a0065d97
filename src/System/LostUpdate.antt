-- ===== src/System/LostUpdate.antt =====
-- resultstore.py, close_job_with_result, and ingest.py: a document that changes while it is scored.
use sb_poc.Prelude.{
  insert_by, sort_by, ℕ, zero, suc, ℕ_eq, String, String_eq, ℤ, pos, false, some, List, [], ◌∷◌,
  ◌==◌, ◌≡◌, refl, ap, ◌∙◌, arith, Result, ok, lookup, map_option, exceeds, eq_iff,
}
use sb_poc.Json.{Value}
use sb_poc.Text.{Unicode}
use sb_poc.Float.{Float}
use sb_poc.Config.{Config}
use sb_poc.Metrics.{TurnScore}
use sb_poc.Hashing.{Digest, content_hash}
use sb_poc.Row.{Row, DateTime, score_conversation}
use sb_poc.Queue.{
  Key, Key_eq, key_beq_iff, ClaimedJob, claim_view, claimed_job, fresh, has_hash, close_as,
  is_claimable,
}
use sb_poc.Queue.Postgres.{
  Job, new_job, view, claim_job, claim_unlocked, claimable, mark_claimed, enqueue,
  pg_queue-QueueLaws,
}
use sb_poc.Store.{Database, DatabaseLaws, Blob, Store, blob_key, get_blob, get_result, upsert_blob}
use sb_poc.Store.Results.{as_read, close_job_with_result-IsClosed}
use sb_poc.Worker.{job_status_of, store_queue}
use sb_poc.Ingest.{document_key}
use sb_poc.System.{
  Pc, idle, working, checking, reading, closing, stored, claim_batch, next_round, start,
  not_duplicate, score, close_job, store_blob, enqueue_job, System, set_pc, turn_of, empty, Reach,
  begin, later,
}
use sb_poc.System.Sound.{Fits}
use sb_poc.System.Moves.{upsert_blob-jobs}
use sb_poc.System.Safety.{Reach-IsConsistent}

abbrev job_of : Key → String → Job
job_of key h = new_job 0 (blob_key key) h

abbrev taken_job : Key → String → ClaimedJob
taken_job key h = claimed_job key (claim_view 1 (fresh (blob_key key) h))

-- The only job of the table is claimed.
claims_only_job :
    (key : Key) (h : String) (n : ℕ) (lease : ℤ)
    → claim_unlocked (λ k. false) 1 "worker" (pos (suc n)) lease ((key, job_of key h) ∷ [])
      ≡ ok (taken_job key h ∷ [], (key, claim_job 1 "worker" (job_of key h)) ∷ [])
unfolding claim_unlocked claimable sort_by insert_by mark_claimed is_claimable
claims_only_job key h zero lease = ground (arith, key_beq_iff key key)
claims_only_job key h (suc n) lease = ground (arith, key_beq_iff key key)

module _ (f : Float) (u : Unicode) (d : Digest)
    (score_texts : List String → Result (List (TurnScore f.F))) (db : Database f.F)
    (cfg : Config f.F) (laws : DatabaseLaws db) where
  open f use {F}

  abbrev Systems : Type 0
  Systems = System f u d score_texts db cfg

  -- The system after one more step of the process `i`.
  abbrev moved : Systems → ℕ → Store F → Pc F → Systems
  moved y i t p = record { tables = t; pc = set_pc f u d score_texts db cfg i p y.pc }

  module _ (key : Key) (old new : Value) (now : DateTime) (row : Row F) (n : ℕ)
      (old_key : document_key old ≡ some key) (new_key : document_key new ≡ some key)
      (differs : (content_hash d old == content_hash d new) ≡ false)
      (batch : cfg.claim_batch ≡ pos (suc n)) (allowed : exceeds 1 cfg.max_delivery ≡ false)
      (scored : score_conversation f u d score_texts cfg now (db.jsonb old) ≡ ok row) where
    abbrev Reaches : Systems → Type 0
    Reaches y = Reach f u d score_texts db cfg y

    abbrev h1 : String
    h1 = content_hash d old

    abbrev h2 : String
    h2 = content_hash d new

    abbrev job : ClaimedJob
    job = taken_job key h1

    abbrev first_blob : Blob
    first_blob = record { content_hash = h1; raw = db.jsonb old; ingested_at = 0 }

    -- The tables while the worker holds the job.
    abbrev held : Store F
    held = record {
      blobs = (key, first_blob) ∷ [];
      jobs = (key, claim_job 1 "worker" (job_of key h1)) ∷ [];
      results = [];
      dead_letters = [];
    }

    abbrev ingested : Systems
    ingested =
        moved
          (moved (empty f u d score_texts db cfg) 0
            (upsert_blob db 0 key h1 old (empty f u d score_texts db cfg).tables) (stored key h1))
          0 (record held { jobs = (key, job_of key h1) ∷ [] }) idle

    ingested-Reaches : Reaches ingested
    unfolding upsert_blob enqueue
    ingested-Reaches =
        later (later begin (turn_of 0 (store_blob 0 old old_key))) (turn_of 0 (enqueue_job 0))

    abbrev claimed_by_worker : Systems
    claimed_by_worker = moved ingested 1 held (working (job ∷ []))

    claimed-Reaches : Reaches claimed_by_worker
    claimed-Reaches = later ingested-Reaches (
        turn_of 1 (
          claim_batch (λ k. false) 1 "worker"
            (ap
                (λ z.
                  claim_unlocked (λ k. false) 1 "worker" z cfg.lease_seconds
                    ((key, job_of key h1) ∷ []))
                batch
              ∙ claims_only_job key h1 n cfg.lease_seconds)))

    held_blob : get_blob key held ≡ some first_blob
    unfolding get_blob lookup
    held_blob = ground (arith, key_beq_iff key key)

    abbrev pub about_to_read : Systems
    about_to_read =
        moved (moved claimed_by_worker 1 held (checking now job [])) 1 held (reading now job [])

    pub about_to_read-Reaches : Reaches about_to_read
    unfolding get_result lookup
    about_to_read-Reaches =
        later (later claimed-Reaches (turn_of 1 (start now allowed)))
          (turn_of 1 (not_duplicate refl))

    abbrev scoring : Systems
    scoring = moved about_to_read 1 held (closing job row (job_status_of row.status) [])

    scoring-Reaches : Reaches scoring
    scoring-Reaches = later about_to_read-Reaches (turn_of 1 (score held_blob scored))

    abbrev overtaken_tables : Store F
    overtaken_tables = upsert_blob db 2 key h2 new held

    abbrev requeued_tables : Store F
    requeued_tables = (store_queue.enqueue 3 key (blob_key key) h2 overtaken_tables).1

    abbrev requeued : Systems
    requeued = moved (moved scoring 0 overtaken_tables (stored key h2)) 0 requeued_tables idle

    requeued-Reaches : Reaches requeued
    requeued-Reaches =
        later (later scoring-Reaches (turn_of 0 (store_blob 2 new new_key)))
          (turn_of 0 (enqueue_job 3))

    held_view : has_hash h2 (view key overtaken_tables.jobs) ≡ false
    unfolding lookup
    held_view =
        rw (upsert_blob-jobs db 2 key h2 new held) (ground (arith, key_beq_iff key key, differs))

    requeued_view : view key requeued_tables.jobs ≡ some (fresh (blob_key key) h2)
    requeued_view =
        (pg_queue-QueueLaws.enqueue_new 3 key (blob_key key) h2 overtaken_tables.jobs held_view).1

    -- When a document is ingested anew with other content while a worker scores the old content, there
    -- is an interleaving at whose end no process is under way, the job of the new content is closed,
    -- the only result is that of the old content, and ingesting the new content again enqueues nothing.
    pub lost_update :
        (y : Systems) × Reaches y
        × ((i : ℕ) → y.pc i ≡ idle)
        × (view key y.tables.jobs
            ≡ some (close_as (job_status_of row.status) (fresh (blob_key key) h2)))
        × (get_result key y.tables ≡ some (as_read db row))
        × ((store_queue.enqueue 4 key (blob_key key) h2 y.tables).0 ≡ false)
    lost_update =
        let fit : Fits requeued_tables (closing job row (job_status_of row.status) []) =
          (Reach-IsConsistent f u d score_texts db cfg laws requeued-Reaches).fits 1 in
        let c = fit.0 in
        let (t, e, closes) =
          close_job_with_result-IsClosed db key row (job_status_of row.status) c.hash c.at
            requeued_tables c.closes c.tenant c.conversation c.has_hash c.has_time in
        let seen : view key t.jobs
            ≡ some (close_as (job_status_of row.status) (fresh (blob_key key) h2)) =
          closes.job ∙ ap (map_option (close_as (job_status_of row.status))) requeued_view in
        (
          moved (moved requeued 1 t (working [])) 1 t idle,
          later (later requeued-Reaches (turn_of 1 (close_job e))) (turn_of 1 next_round),
          λ i. ground arith,
          seen,
          closes.result,
          ap (λ r. r.0)
              (pg_queue-QueueLaws.enqueue_tracked 4 key (blob_key key) h2 t.jobs
                (rw seen (ground (arith, eq_iff h2 h2)))),
        )
