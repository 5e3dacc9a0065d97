-- ===== src/Worker.antt =====
-- src/pipeline/worker.py: one claimed job is processed to a terminal state, and the loop over batches.
pub mod Outcomes
pub mod Open
pub mod Covered
pub mod Batch
pub mod Drain
pub mod Drained
pub mod Redelivery
use Prim.Native.String.{◌++◌ as ◌⧺◌}
use sb_poc.Prelude.{
  UniqueKeys, ℕ, zero, suc, ◌+◌, String, String_eq, Bool, true, false, Option, none, some, List, [],
  ◌∷◌, ◌==◌, ◌≡◌, refl, Result, ok, raise, ◌>>=◌, exceeds, if◌then◌else◌,
}
use sb_poc.Json.{str}
use sb_poc.Text.{Unicode, show}
use sb_poc.Float.{Float}
use sb_poc.Config.{Config}
use sb_poc.Metrics.{TurnScore}
use sb_poc.Hashing.{Digest}
use sb_poc.Row.{
  Row, DateTime, RowStatus, row_rejected, ErrorReason, max_delivery_exceeded, blob_missing,
  rejected_row, score_conversation,
}
use sb_poc.Queue.{Key, Key_eq, ClaimedJob, JobStatus, done, dead, Queue, QueueLaws}
use sb_poc.Queue.Postgres.{
  Jobs, enqueue, claim, mark_done, view, pg_queue-QueueLaws, UniqueKeys-mark_done,
}
use sb_poc.Store.{Database, Blob, Store, get_blob, get_result, close_job_with_result}

-- What `process_one` returns: "done" or "dead" for a job that it closed with a result.
pub data Outcome : Type 0 where
  closed : JobStatus → Outcome
  skipped_duplicate : Outcome

-- `existing is not None and existing["content_hash"] == job.content_hash`
abbrev pub is_duplicate : {F : Type 0} → String → Option (Row F) → Bool
is_duplicate h none = false
is_duplicate h (some row) = elim row.content_hash [ none ↦ false | some g ↦ g == h ]

-- `"dead" if row["status"] == "rejected" else "done"`
abbrev pub job_status_of : RowStatus → JobStatus
job_status_of row_rejected = dead
job_status_of _ = done

-- A queue whose state is in the same database as the results: its jobs are those of the jobs table, and
-- it writes to no other table.
pub record StoreQueueLaws {F : Type 0} (q : Queue (Store F)) : Type 0 where
  pub jobs : QueueLaws q (λ k s. view k s.jobs)
  pub mark_done-results : (k : Key) (s : Store F) → (q.mark_done k s).results ≡ s.results
  pub mark_done-blobs : (k : Key) (s : Store F) → (q.mark_done k s).blobs ≡ s.blobs
  pub mark_done-UniqueKeys :
      (k : Key) (s : Store F) → UniqueKeys s.jobs → UniqueKeys (q.mark_done k s).jobs

module _ {F : Type 0} where
  -- `_rejected_row`, whose ids are those of the job
  abbrev pub rejected_job : Config F → DateTime → ClaimedJob → ErrorReason → String → Row F
  rejected_job cfg now job reason detail =
      rejected_row cfg now (str job.key.tenant_id) (str job.key.conversation_id)
        (some job.content_hash) reason detail

  abbrev pub close : Database F → JobStatus → Row F → Store F → Result (Outcome × Store F)
  close db status row s = close_job_with_result db row status s >>= λ t. ok (closed status, t)

  abbrev pub on_jobs : {A : Type 0} → Store F → Result (A × Jobs) → Result (A × Store F)
  on_jobs s (ok (a, jobs)) = ok (a, record s { jobs = jobs })
  on_jobs s (raise e) = raise e

  -- PgJobQueue on the pool that the results are written through.
  abbrev pub store_queue : Queue (Store F)
  store_queue = record {
    enqueue = λ now k b h s. let r = enqueue now k b h s.jobs in (r.0, record s { jobs = r.1 });
    claim = λ now w batch lease s. on_jobs s (claim now w batch lease s.jobs);
    mark_done = λ k s. record s { jobs = mark_done k s.jobs };
  }

  -- PgJobQueue on that pool keeps the promises of the protocol in the jobs table, and its `mark_done`
  -- writes to no other table.
  pub store_queue-StoreQueueLaws : StoreQueueLaws store_queue
  store_queue-StoreQueueLaws = record {
    jobs = record {
      enqueue_tracked =
          λ now k b h s e. rw (pg_queue-QueueLaws.enqueue_tracked now k b h s.jobs e) refl;
      enqueue_new = λ now k b h s e. pg_queue-QueueLaws.enqueue_new now k b h s.jobs e;
      enqueue_other = λ now k j b h s n. pg_queue-QueueLaws.enqueue_other now k j b h s.jobs n;
      mark_done_self = λ k s. pg_queue-QueueLaws.mark_done_self k s.jobs;
      mark_done_other = λ k j s n. pg_queue-QueueLaws.mark_done_other k j s.jobs n;
    };
    mark_done-results = λ k s. refl;
    mark_done-blobs = λ k s. refl;
    mark_done-UniqueKeys = λ k s unique. UniqueKeys-mark_done k s.jobs unique;
  }

module _ (f : Float) (u : Unicode) (d : Digest)
    (score_texts : List String → Result (List (TurnScore f.F))) (db : Database f.F)
    (q : Queue (Store f.F)) where
  open f use {F}

  -- `process_one` from the test of the blob on
  unfoldable pub process_blob :
      Config F → DateTime → ClaimedJob → Store F → Option Blob → Result (Outcome × Store F)
  unfolding rejected_row score_conversation close_job_with_result
  process_blob cfg now job s none = close db dead (rejected_job cfg now job blob_missing "") s
  process_blob cfg now job s (some b) = do
    row ← score_conversation f u d score_texts cfg now b.raw
    close db (job_status_of row.status) row s

  unfoldable pub process_one :
      Config F → DateTime → ClaimedJob → Store F → Result (Outcome × Store F)
  unfolding process_blob get_blob get_result
  process_one cfg now job s =
      if exceeds job.delivery_count cfg.max_delivery
      then close db dead
          (rejected_job cfg now job max_delivery_exceeded
            ("delivery_count=" ⧺ show job.delivery_count))
          s
      else if is_duplicate job.content_hash (get_result job.key s)
      then ok (skipped_duplicate, q.mark_done job.key s)
      else process_blob cfg now job s (get_blob job.key s)

  -- `for job in jobs`; the clock gives the time of the n-th job that this worker processes.
  unfoldable pub process_all :
      Config F → (ℕ → DateTime) → ℕ → List ClaimedJob → Store F → Result (ℕ × Store F)
  unfolding process_one
  process_all cfg clock processed [] s = ok (processed, s)
  process_all cfg clock processed (job ∷ jobs) s = process_one cfg (clock processed) job s >>= λ r.
      process_all cfg clock (suc processed) jobs r.1

  -- The rest of a round of `run` after its claim; `rest` makes the rounds that follow.
  unfoldable pub after_claim :
      Config F
      → (ℕ → DateTime)
      → Bool
      → (ℕ → Store F → Result (Option ℕ × Store F))
      → ℕ
      → List ClaimedJob
      → Store F
      → Result (Option ℕ × Store F)
  unfolding process_all
  after_claim cfg clock once rest processed [] s =
      if once then ok (some processed, s) else rest processed s
  after_claim cfg clock once rest processed (job ∷ jobs) s =
      process_all cfg clock processed (job ∷ jobs) s >>= λ r. rest r.0 r.1

  -- The loop of `run` for at most `fuel` rounds; the round `n` claims at the time `times n`. `none` says
  -- that it has not returned yet.
  unfoldable pub run :
      Config F
      → (ℕ → DateTime)
      → (ℕ → ℕ)
      → Bool
      → String
      → ℕ
      → ℕ
      → ℕ
      → Store F
      → Result (Option ℕ × Store F)
  unfolding after_claim
  run cfg clock times once wid zero round processed s = ok (none, s)
  run cfg clock times once wid (suc fuel) round processed s =
      q.claim (times round) wid cfg.claim_batch cfg.lease_seconds s >>= λ r.
      after_claim cfg clock once (run cfg clock times once wid fuel (suc round)) processed r.0 r.1
