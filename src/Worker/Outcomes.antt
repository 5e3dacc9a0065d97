-- ===== src/Worker/Outcomes.antt =====
-- worker.py, process_one: the outcome of a job and what it does to the tables.
use sb_poc.Prelude.{
  UniqueKeys, ℕ, String, String_eq, true, Option, none, some, List, ◌≡◌, ◌≢◌, ◌⊎◌, ◌==◌, Bool,
  false, eq_iff, arith, refl, ◌∙◌, Result, ok, exceeds, map_option, Bool-cases, inl, inr,
}
use sb_poc.Json.{str}
use sb_poc.Text.{Unicode}
use sb_poc.Float.{Float}
use sb_poc.Config.{Config}
use sb_poc.Metrics.{TurnScore}
use sb_poc.Hashing.{Digest}
use sb_poc.Row.{
  Row, DateTime, RowStatus, row_scored, row_partial, row_rejected, ErrorReason,
  max_delivery_exceeded, blob_missing, rejected_row, score_conversation, iso_z,
}
use sb_poc.Row.Status.{score_conversation-IsConsistent}
use sb_poc.Row.Clock.{score_conversation-scored_at}
use sb_poc.Queue.{Key, Key_eq, ClaimedJob, JobStatus, done, dead, close_as, Queue}
use sb_poc.Queue.Postgres.{view}
use sb_poc.Store.{Database, Blob, Store, is_closing, get_blob, get_result}
use sb_poc.Store.Documents.{IsKeyed}
use sb_poc.Store.Results.{as_read, IsClosed, close_job_with_result-IsClosed}
use sb_poc.Worker.{
  Outcome, closed, skipped_duplicate, is_duplicate, job_status_of, StoreQueueLaws, rejected_job,
  close, process_blob, process_one,
}

abbrev pub job_outcome : Outcome → JobStatus
job_outcome (closed status) = status
job_outcome skipped_duplicate = done

-- A job is dead with a rejected row, and done with a scored or a partial one.
abbrev pub Suits : JobStatus → RowStatus → Type 0
Suits dead st = st ≡ row_rejected
Suits done st = (st ≡ row_scored) ⊎ (st ≡ row_partial)
Suits _ st = ⊥

job_status_of-Suits : (st : RowStatus) → Suits (job_status_of st) st
job_status_of-Suits row_scored = inl refl
job_status_of-Suits row_partial = inr refl
job_status_of-Suits row_rejected = refl

-- The result that belongs to an outcome: a job closes as dead with a rejected row and as done with one
-- that is not; a skipped job keeps a result with its own content hash.
abbrev pub Explains : {F : Type 0} → ClaimedJob → Outcome → Option (Row F) → Option (Row F) → Type 0
Explains {F} job (closed status) before after =
    (row : Row F) × (after ≡ some row) × Suits status row.status
Explains {F} job skipped_duplicate before after =
    (after ≡ before)
    × ((row : Row F) × (after ≡ some row) × (row.content_hash ≡ some job.content_hash))

pub record IsProcessed {F : Type 0} (job : ClaimedJob) (o : Outcome) (s s' : Store F) : Type 0 where
  pub terminal : view job.key s'.jobs ≡ map_option (close_as (job_outcome o)) (view job.key s.jobs)
  pub explained : Explains job o (get_result job.key s) (get_result job.key s')
  pub other_results : (k : Key) → job.key ≢ k → get_result k s' ≡ get_result k s
  pub other_jobs : (k : Key) → job.key ≢ k → view k s'.jobs ≡ view k s.jobs
  pub blobs : s'.blobs ≡ s.blobs
  pub keys : UniqueKeys s.jobs → UniqueKeys s'.jobs

-- An earlier result that makes a job a duplicate has the job's content hash.
pub duplicate_row :
    {F : Type 0} (h : String) (o : Option (Row F))
    → is_duplicate h o ≡ true
    → (row : Row F) × (o ≡ some row) × (row.content_hash ≡ some h)
duplicate_row h none e = absurd (cc)
duplicate_row h (some row) e = (row, refl, same row.content_hash e)
  where
    same :
        (g : Option String)
        → (elim g as (λ x. Bool) [ none ↦ false | some x ↦ x == h ]) ≡ true
        → g ≡ some h
    same none e = absurd (cc)
    same (some g) e = ground (arith, e, eq_iff g h)

-- A transaction that closes the job with a row for its status.
IsClosed-IsProcessed :
    {F : Type 0} (job : ClaimedJob) (row : Row F) (s s' : Store F)
    → IsClosed job.key row (job_status_of row.status) s s'
    → IsProcessed job (closed (job_status_of row.status)) s s'
IsClosed-IsProcessed job row s s' c = record {
  terminal = c.job;
  explained = (row, c.result, job_status_of-Suits row.status);
  other_results = c.other_results;
  other_jobs = c.other_jobs;
  blobs = c.blobs;
  keys = c.keys;
}

pub is_closing-job_status_of : (st : RowStatus) → is_closing (job_status_of st) ≡ true
is_closing-job_status_of row_scored = refl
is_closing-job_status_of row_partial = refl
is_closing-job_status_of row_rejected = refl

-- The job is processed, and its outcome is `o`.
abbrev Finishes : {F : Type 0} → ClaimedJob → Store F → Result (Outcome × Store F) → Type 0
Finishes {F} job s r = (o : Outcome) × (s' : Store F) × (r ≡ ok (o, s')) × IsProcessed job o s s'

module _ {F : Type 0} (db : Database F) (job : ClaimedJob) where
  close-Finishes :
      (row : Row F) (hash : String) (at : ℕ) (s : Store F)
      → row.tenant_id ≡ str job.key.tenant_id
      → row.conversation_id ≡ str job.key.conversation_id
      → row.content_hash ≡ some hash
      → row.provenance.scored_at ≡ some at
      → Finishes job s (close db (job_status_of row.status) row s)
  close-Finishes row hash at s t v h p =
      let status = job_status_of row.status in
      let (s', e, c) =
        close_job_with_result-IsClosed db job.key row status hash at s
          (is_closing-job_status_of row.status) t v h p in
      (closed status, s', rw e refl, IsClosed-IsProcessed job (as_read db row) s s' c)

  rejected-Finishes :
      (cfg : Config F) (now : DateTime) (reason : ErrorReason) (detail : String) (s : Store F)
      → Finishes job s (close db dead (rejected_job cfg now job reason detail) s)
  unfolding rejected_row
  rejected-Finishes cfg now reason detail s =
      close-Finishes (rejected_job cfg now job reason detail) job.content_hash (iso_z now) s refl
        refl refl refl

module _ (f : Float) (u : Unicode) (d : Digest)
    (score_texts : List String → Result (List (TurnScore f.F))) (db : Database f.F)
    (q : Queue (Store f.F)) (laws : StoreQueueLaws q) where
  open f use {F}

  duplicate-Finishes :
      (job : ClaimedJob) (s : Store F)
      → is_duplicate job.content_hash (get_result job.key s) ≡ true
      → Finishes job s (ok (skipped_duplicate, q.mark_done job.key s))
  unfolding get_result
  duplicate-Finishes job s e =
      let kept = laws.mark_done-results job.key s in
      (
        skipped_duplicate,
        q.mark_done job.key s,
        refl,
        record {
          terminal = laws.jobs.mark_done_self job.key s;
          explained = rw kept (refl, duplicate_row job.content_hash (get_result job.key s) e);
          other_results = λ k n. rw kept refl;
          other_jobs = λ k n. laws.jobs.mark_done_other job.key k s n;
          blobs = laws.mark_done-blobs job.key s;
          keys = laws.mark_done-UniqueKeys job.key s;
        },
      )

  scored-Finishes :
      (cfg : Config F) (now : DateTime) (job : ClaimedJob) (s : Store F) (b : Blob)
      → IsKeyed d s
      → get_blob job.key s ≡ some b
      → (row : Row F) × (score_conversation f u d score_texts cfg now b.raw ≡ ok row)
      → Finishes job s (process_blob f u d score_texts db q cfg now job s (some b))
  unfolding process_blob IsKeyed
  scored-Finishes cfg now job s b keyed e (row, scored) =
      let (t, v, h, eh) = keyed job.key b e in
      let c = score_conversation-IsConsistent f u d score_texts cfg now b.raw row scored in
      let at = score_conversation-scored_at f u d score_texts cfg now b.raw row scored in
      rw scored (
        close-Finishes db job row h (iso_z now) s (c.tenant ∙ t) (c.conversation ∙ v) (c.hash ∙ eh)
          at)

  blob-Finishes :
      (cfg : Config F) (now : DateTime) (job : ClaimedJob) (s : Store F) (o : Option Blob)
      → IsKeyed d s
      → get_blob job.key s ≡ o
      → ((b : Blob)
          → o ≡ some b
          → (row : Row F) × (score_conversation f u d score_texts cfg now b.raw ≡ ok row))
      → Finishes job s (process_blob f u d score_texts db q cfg now job s o)
  unfolding process_blob
  blob-Finishes cfg now job s none keyed e score =
      rejected-Finishes db job cfg now blob_missing "" s
  blob-Finishes cfg now job s (some b) keyed e score =
      scored-Finishes cfg now job s b keyed e (score b refl)

  -- Whatever its delivery count, its earlier result and its document are, a claimed job is processed
  -- to a terminal state, as long as the stored documents carry the ids of their keys and scoring the
  -- job's document raises no exception. The job gets the status of the outcome. A job that closes has
  -- a new result: it is rejected if the job is dead and not rejected if the job is done. A skipped job
  -- keeps a result that has its content hash. No other job, no other result and no document changes.
  pub process_one-IsProcessed :
      (cfg : Config F) (now : DateTime) (job : ClaimedJob) (s : Store F)
      → IsKeyed d s
      → ((b : Blob)
          → get_blob job.key s ≡ some b
          → (row : Row F) × (score_conversation f u d score_texts cfg now b.raw ≡ ok row))
      → (o : Outcome) × (s' : Store F) × (process_one f u d score_texts db q cfg now job s
          ≡ ok (o, s'))
        × IsProcessed job o s s'
  unfolding process_one
  process_one-IsProcessed cfg now job s keyed score =
      elim (Bool-cases (exceeds job.delivery_count cfg.max_delivery)) [
        | inl e ↦ rw e (rejected-Finishes db job cfg now max_delivery_exceeded _ s)
        | inr e ↦ rw e (elim (Bool-cases (is_duplicate job.content_hash (get_result job.key s))) [
          | inl k ↦ rw k (duplicate-Finishes job s k)
          | inr k ↦ rw k (blob-Finishes cfg now job s (get_blob job.key s) keyed refl score)
        ])
      ]
