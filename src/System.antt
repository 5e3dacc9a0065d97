-- ===== src/System.antt =====
-- src/pipeline/worker.py, ingest.py and cli.py side by side: workers and ingest runs that share one
-- database, one statement or transaction at a time, in any order.
pub mod Sound
pub mod Tables
pub mod Moves
pub mod Safety
pub mod Alone
pub mod LostUpdate
pub mod Timed
pub mod Rounds
pub mod Leases
pub mod Single
pub mod Recovery
pub mod Unstuck
use sb_poc.Prelude.{
  ℕ, String, String_eq, ℤ, Bool, true, false, Option, none, some, List, [], ◌∷◌, ◌==◌, ◌≡◌, ℕ_eq,
  Result, ok, exceeds, if◌then◌else◌,
}
use Prim.Native.String.{◌++◌ as ◌⧺◌}
use sb_poc.Json.{Value}
use sb_poc.Text.{Unicode, show}
use sb_poc.Float.{Float}
use sb_poc.Config.{Config}
use sb_poc.Metrics.{TurnScore}
use sb_poc.Hashing.{Digest, content_hash}
use sb_poc.Row.{Row, DateTime, max_delivery_exceeded, blob_missing, score_conversation}
use sb_poc.Queue.{Key, ClaimedJob, JobStatus, dead}
use sb_poc.Queue.Postgres.{Jobs, claim_unlocked, UniqueKeys-mark_done}
use sb_poc.Store.{
  Database, Blob, Store, blob_key, upsert_blob, get_blob, get_result, close_job_with_result,
}
use sb_poc.Worker.{is_duplicate, job_status_of, rejected_job, store_queue}
use sb_poc.Ingest.{document_key, insert_dead_letter}

-- Where a process stands, with its local variables that are live there.
pub data Pc (F : Type 0) : Type 0 where
  -- between the rounds of `run`, or between the files of `ingest_directory`
  idle : Pc F
  -- at the head of `for job in jobs`
  working : List ClaimedJob → Pc F
  -- in `process_one` before `get_result`
  checking : DateTime → ClaimedJob → List ClaimedJob → Pc F
  -- before `queue.mark_done`
  marking : ClaimedJob → List ClaimedJob → Pc F
  -- before `get_blob`
  reading : DateTime → ClaimedJob → List ClaimedJob → Pc F
  -- before `close_job_with_result`
  closing : ClaimedJob → Row F → JobStatus → List ClaimedJob → Pc F
  -- in `ingest_directory` between `store_blob` and `queue.enqueue`
  stored : Key → String → Pc F

module _ (f : Float) (u : Unicode) (d : Digest)
    (score_texts : List String → Result (List (TurnScore f.F))) (db : Database f.F)
    (cfg : Config f.F) where
  open f use {F}

  -- One step of one process: the tables and its position before and after.
  pub data Move (s : Store F) : Pc F → Store F → Pc F → Type 0 where
    claim_batch :
        (locked : Key → Bool) (now : ℕ) (worker_id : String) {jobs : List ClaimedJob} {rows : Jobs}
        → claim_unlocked locked now worker_id cfg.claim_batch cfg.lease_seconds s.jobs
          ≡ ok (jobs, rows)
        → Move s idle (record s { jobs = rows }) (working jobs)
    next_round : Move s (working []) s idle
    poison :
        (now : DateTime) {job : ClaimedJob} {jobs : List ClaimedJob}
        → exceeds job.delivery_count cfg.max_delivery ≡ true
        → Move s (working (job ∷ jobs)) s (
            closing job
              (rejected_job cfg now job max_delivery_exceeded
                ("delivery_count=" ⧺ show job.delivery_count))
              dead
              jobs)
    start :
        (now : DateTime) {job : ClaimedJob} {jobs : List ClaimedJob}
        → exceeds job.delivery_count cfg.max_delivery ≡ false
        → Move s (working (job ∷ jobs)) s (checking now job jobs)
    duplicate :
        {now : DateTime} {job : ClaimedJob} {jobs : List ClaimedJob}
        → is_duplicate job.content_hash (get_result job.key s) ≡ true
        → Move s (checking now job jobs) s (marking job jobs)
    mark :
        {job : ClaimedJob} {jobs : List ClaimedJob}
        → Move s (marking job jobs) (store_queue.mark_done job.key s) (working jobs)
    not_duplicate :
        {now : DateTime} {job : ClaimedJob} {jobs : List ClaimedJob}
        → is_duplicate job.content_hash (get_result job.key s) ≡ false
        → Move s (checking now job jobs) s (reading now job jobs)
    missing :
        {now : DateTime} {job : ClaimedJob} {jobs : List ClaimedJob}
        → get_blob job.key s ≡ none
        → Move s
            (reading now job jobs)
            s
            (closing job (rejected_job cfg now job blob_missing "") dead jobs)
    score :
        {now : DateTime} {job : ClaimedJob} {jobs : List ClaimedJob} {b : Blob} {row : Row F}
        → get_blob job.key s ≡ some b
        → score_conversation f u d score_texts cfg now b.raw ≡ ok row
        → Move s (reading now job jobs) s (closing job row (job_status_of row.status) jobs)
    close_job :
        {job : ClaimedJob} {row : Row F} {status : JobStatus} {jobs : List ClaimedJob}
        {s' : Store F}
        → close_job_with_result db row status s ≡ ok s'
        → Move s (closing job row status jobs) s' (working jobs)
    -- an exception, or the end of the process: its claims stay as they are
    crash : {p : Pc F} → Move s p s idle
    store_blob :
        (now : ℕ) (raw : Value) {key : Key}
        → document_key raw ≡ some key
        → Move s idle
            (upsert_blob db now key (content_hash d raw) raw s)
            (stored key (content_hash d raw))
    refuse_file : (name error : String) → Move s idle (insert_dead_letter name error s) idle
    enqueue_job :
        (now : ℕ) {key : Key} {hash : String}
        → Move s (stored key hash) (store_queue.enqueue now key (blob_key key) hash s).1 idle

  -- The processes, by number.
  pub record System : Type 0 where
    pub tables : Store F
    pub pc : ℕ → Pc F

  abbrev pub set_pc : ℕ → Pc F → (ℕ → Pc F) → ℕ → Pc F
  set_pc i p pcs j = if i == j then p else pcs j

  pub data Step (y : System) : System → Type 0 where
    turn_of :
        (i : ℕ) {t : Store F} {p : Pc F}
        → Move y.tables (y.pc i) t p
        → Step y (record { tables = t; pc = set_pc i p y.pc })

  abbrev pub empty : System
  empty = record {
    tables = record { blobs = []; jobs = []; results = []; dead_letters = [] };
    pc = λ i. idle;
  }

  pub data Reach : System → Type 0 where
    begin : Reach empty
    later : {y z : System} → Reach y → Step y z → Reach z
