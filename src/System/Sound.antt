-- ===== src/System/Sound.antt =====
-- worker.py, ingest.py and queue.py side by side: what the shared tables and the position of each process
-- have in common.
use sb_poc.Prelude.{
  is_some, ℕ, String, String_eq, Bool, true, some, List, [], ◌∷◌, ◌≡◌, All, UniqueKeys,
}
use sb_poc.Json.{str}
use sb_poc.Hashing.{Digest}
use sb_poc.Row.{Row}
use sb_poc.Queue.{Key, Key_eq, ClaimedJob, JobStatus}
use sb_poc.Queue.Postgres.{view}
use sb_poc.Store.{Store, get_blob, get_result, is_closing}
use sb_poc.Store.Documents.{IsKeyed}
use sb_poc.Worker.Open.{is_closed}
use sb_poc.System.{Pc, idle, working, checking, marking, reading, closing, stored}

module _ {F : Type 0} where
  abbrev pub has_job : Store F → Key → Bool
  has_job s k = is_some (view k s.jobs)

  abbrev pub has_blob : Store F → Key → Bool
  has_blob s k = is_some (get_blob k s)

  abbrev pub has_result : Store F → Key → Bool
  has_result s k = is_some (get_result k s)

  -- Closed jobs have results, and jobs have documents, which are stored under their own ids.
  pub record IsSound (d : Digest) (s : Store F) : Type 0 where
    pub keyed : IsKeyed d s
    pub closed_results : (k : Key) → is_closed (view k s.jobs) ≡ true → has_result s k ≡ true
    pub job_blobs : (k : Key) → has_job s k ≡ true → has_blob s k ≡ true
    pub unique : UniqueKeys s.jobs

  -- Nothing disappears from the tables.
  pub record Extends (s t : Store F) : Type 0 where
    pub jobs : (k : Key) → has_job s k ≡ true → has_job t k ≡ true
    pub blobs : (k : Key) → has_blob s k ≡ true → has_blob t k ≡ true
    pub results : (k : Key) → has_result s k ≡ true → has_result t k ≡ true

  abbrev pub Tracked : Store F → List ClaimedJob → Type 0
  Tracked s jobs = All (λ j. has_job s j.key ≡ true) jobs

  -- The row is one that `close_job_with_result` can store for the job.
  pub record CanClose (job : ClaimedJob) (row : Row F) (status : JobStatus) : Type 0 where
    pub hash : String
    pub at : ℕ
    pub closes : is_closing status ≡ true
    pub tenant : row.tenant_id ≡ str job.key.tenant_id
    pub conversation : row.conversation_id ≡ str job.key.conversation_id
    pub has_hash : row.content_hash ≡ some hash
    pub has_time : row.provenance.scored_at ≡ some at

  -- What a process relies on where it stands.
  abbrev pub Fits : Store F → Pc F → Type 0
  Fits s idle = Unit
  Fits s (working jobs) = Tracked s jobs
  Fits s (checking now job jobs) = (has_job s job.key ≡ true) × Tracked s jobs
  Fits s (marking job jobs) = (has_result s job.key ≡ true) × Tracked s jobs
  Fits s (reading now job jobs) = (has_job s job.key ≡ true) × Tracked s jobs
  Fits s (closing job row status jobs) = CanClose job row status × Tracked s jobs
  Fits s (stored key hash) = has_blob s key ≡ true

  pub Tracked-Extends :
      (s t : Store F) (jobs : List ClaimedJob) → Extends s t → Tracked s jobs → Tracked t jobs
  Tracked-Extends s t [] e h = tt
  Tracked-Extends s t (j ∷ jobs) e h = (e.jobs j.key h.0, Tracked-Extends s t jobs e h.1)

  -- What a process relies on stays so while others move.
  pub Fits-Extends : (s t : Store F) (p : Pc F) → Extends s t → Fits s p → Fits t p
  Fits-Extends s t idle e h = tt
  Fits-Extends s t (working jobs) e h = Tracked-Extends s t jobs e h
  Fits-Extends s t (checking now job jobs) e h =
      (e.jobs job.key h.0, Tracked-Extends s t jobs e h.1)
  Fits-Extends s t (marking job jobs) e h = (e.results job.key h.0, Tracked-Extends s t jobs e h.1)
  Fits-Extends s t (reading now job jobs) e h = (e.jobs job.key h.0, Tracked-Extends s t jobs e h.1)
  Fits-Extends s t (closing job row status jobs) e h = (h.0, Tracked-Extends s t jobs e h.1)
  Fits-Extends s t (stored key hash) e h = e.blobs key h

  pub Extends-refl : (s : Store F) → Extends s s
  Extends-refl s = record { jobs = λ k h. h; blobs = λ k h. h; results = λ k h. h }

  -- A change of the tables that keeps them sound and loses nothing.
  pub record Keeps (d : Digest) (s t : Store F) : Type 0 where
    pub sound : IsSound d t
    pub extends : Extends s t

  pub Keeps-refl : (d : Digest) (s : Store F) → IsSound d s → Keeps d s s
  Keeps-refl d s i = record { sound = i; extends = Extends-refl s }

  pub Keeps-trans : (d : Digest) (s t v : Store F) → Keeps d s t → Keeps d t v → Keeps d s v
  Keeps-trans d s t v p q = record {
    sound = q.sound;
    extends = record {
      jobs = λ k h. q.extends.jobs k (p.extends.jobs k h);
      blobs = λ k h. q.extends.blobs k (p.extends.blobs k h);
      results = λ k h. q.extends.results k (p.extends.results k h);
    };
  }

  -- A change of the jobs alone: no job is lost, and a job that is closed afterwards has a result, and
  -- one that exists afterwards has a document.
  pub jobs-Keeps :
      (d : Digest) (s t : Store F)
      → IsSound d s
      → t.blobs ≡ s.blobs
      → t.results ≡ s.results
      → UniqueKeys t.jobs
      → ((k : Key) → has_job s k ≡ true → has_job t k ≡ true)
      → ((k : Key) → is_closed (view k t.jobs) ≡ true → has_result s k ≡ true)
      → ((k : Key) → has_job t k ≡ true → has_blob s k ≡ true)
      → Keeps d s t
  unfolding IsKeyed get_blob get_result
  jobs-Keeps d s t i b r unique jobs closed owned = record {
    sound = record {
      keyed = λ k x h. i.keyed k x (rw b at h);
      closed_results = λ k h. rw r (closed k h);
      job_blobs = λ k h. rw b (owned k h);
      unique = unique;
    };
    extends = record { jobs = jobs; blobs = λ k h. rw b h; results = λ k h. rw r h };
  }
