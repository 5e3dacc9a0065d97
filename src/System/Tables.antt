-- ===== src/System/Tables.antt =====
-- queue.py, blobstore.py and resultstore.py: what each statement does to the shared tables.
use sb_poc.Prelude.{
  ℕ, String, String_eq, ℤ, pos, negsuc, Bool, true, false, some, List, [], ◌∷◌, ◌≡◌, ◌≢◌, refl,
  subst, sym, ◌∙◌, All, UniqueKeys, arith, Bool-cases, inl, inr, ok, ok-injective,
}
use sb_poc.Hashing.{Digest}
use sb_poc.Row.{Row}
use sb_poc.Queue.{
  Key, Key_eq, own_or_other, ClaimedJob, JobView, JobStatus, claimed_job, IsClaim, has_hash,
}
use sb_poc.Queue.Postgres.{
  Jobs, view, claim_unlocked, pg_queue-QueueLaws, UniqueKeys-mark_done, UniqueKeys-enqueue,
}
use sb_poc.Queue.Postgres.Claims.{claim_unlocked-IsClaim}
use sb_poc.Store.{Database, Store, get_blob, get_result, close_job_with_result}
use sb_poc.Store.Documents.{IsKeyed}
use sb_poc.Store.Results.{as_read, IsClosed, close_job_with_result-IsClosed}
use sb_poc.Worker.{store_queue}
use sb_poc.Worker.Open.{is_closed}
use sb_poc.System.Sound.{
  has_job, has_blob, has_result, IsSound, Tracked, CanClose, Keeps, Keeps-refl, jobs-Keeps,
}

module _ {F : Type 0} (d : Digest) (s : Store F) (i : IsSound d s) where
  -- The rows that a claim leaves.
  IsClaim-Keeps :
      (now : ℕ) (lease : ℤ) (jobs : List ClaimedJob) (rows : Jobs)
      → IsClaim view now lease s.jobs rows jobs
      → UniqueKeys rows
      → Keeps d s (record s { jobs = rows })
  unfolding get_blob get_result
  IsClaim-Keeps now lease jobs rows c unique =
      jobs-Keeps d s (record s { jobs = rows }) i refl refl unique
        (λ k h. ground (arith, c.effect k, h))
        (λ k h. i.closed_results k (ground (arith, c.effect k, h)))
        (λ k h. i.job_blobs k (ground (arith, c.effect k, h)))

  handed_out-Tracked :
      (rows : Jobs) (jobs : List ClaimedJob)
      → All (λ j. (v : JobView) × (view j.key rows ≡ some v) × (j ≡ claimed_job j.key v)) jobs
      → Tracked (record s { jobs = rows }) jobs
  handed_out-Tracked rows [] h = tt
  handed_out-Tracked rows (j ∷ jobs) h =
      let (v, e, _) = h.0 in (rw e refl, handed_out-Tracked rows jobs h.1)

  -- A claim that returned did what a claim promises.
  pub claim-IsClaim :
      (locked : Key → Bool) (now : ℕ) (w : String) (batch lease : ℤ) (jobs : List ClaimedJob)
      (rows : Jobs)
      → claim_unlocked locked now w batch lease s.jobs ≡ ok (jobs, rows)
      → IsClaim view now lease s.jobs rows jobs × UniqueKeys rows
  unfolding claim_unlocked
  claim-IsClaim locked now w (negsuc n) lease jobs rows e = absurd (cc)
  claim-IsClaim locked now w (pos n) lease jobs rows e =
      let (js, t, e', c, _, _, unique) =
        claim_unlocked-IsClaim locked now n lease w s.jobs i.unique in
      let same : (js, t) ≡ (jobs, rows) = ok-injective (sym e' ∙ e) in
      (
        subst (λ p. IsClaim view now lease s.jobs p.1 p.0) same c,
        subst (λ p. UniqueKeys p.1) same unique,
      )

  pub claim-Keeps :
      (locked : Key → Bool) (now : ℕ) (w : String) (batch lease : ℤ) (jobs : List ClaimedJob)
      (rows : Jobs)
      → claim_unlocked locked now w batch lease s.jobs ≡ ok (jobs, rows)
      → Keeps d s (record s { jobs = rows }) × Tracked (record s { jobs = rows }) jobs
  claim-Keeps locked now w batch lease jobs rows e =
      let (c, unique) = claim-IsClaim locked now w batch lease jobs rows e in
      (IsClaim-Keeps now lease jobs rows c unique, handed_out-Tracked rows jobs c.handed_out)

  -- Closing a job that has a result.
  pub mark_done-Keeps : (k : Key) → has_result s k ≡ true → Keeps d s (store_queue.mark_done k s)
  mark_done-Keeps k h =
      let t = store_queue.mark_done k s in
      let self = pg_queue-QueueLaws.mark_done_self k s.jobs in
      let other = λ (j : Key) (n : k ≢ j). pg_queue-QueueLaws.mark_done_other k j s.jobs n in
      jobs-Keeps d s t i refl refl (UniqueKeys-mark_done k s.jobs i.unique)
        (λ j.
          own_or_other (λ x. has_job s x ≡ true → has_job t x ≡ true) k j
            (λ e. ground (arith, self, e)) (λ n e. rw (other j n) e))
        (λ j.
          own_or_other (λ x. is_closed (view x t.jobs) ≡ true → has_result s x ≡ true) k j (λ e. h)
            (λ n e. i.closed_results j (rw (other j n) at e)))
        (λ j.
          own_or_other (λ x. has_job t x ≡ true → has_blob s x ≡ true) k j
            (λ e. i.job_blobs k (ground (arith, self, e)))
            (λ n e. i.job_blobs j (rw (other j n) at e)))

  enqueue_tracked-Keeps :
      (now : ℕ) (k : Key) (b h : String)
      → has_hash h (view k s.jobs) ≡ true
      → Keeps d s (store_queue.enqueue now k b h s).1
  enqueue_tracked-Keeps now k b h e =
      subst (λ r. Keeps d s (record s { jobs = r.1 }))
        (sym (pg_queue-QueueLaws.enqueue_tracked now k b h s.jobs e)) (Keeps-refl d s i)

  enqueue_new-Keeps :
      (now : ℕ) (k : Key) (b h : String)
      → has_hash h (view k s.jobs) ≡ false
      → has_blob s k ≡ true
      → Keeps d s (store_queue.enqueue now k b h s).1
  enqueue_new-Keeps now k b h e owned =
      let t = (store_queue.enqueue now k b h s).1 in
      let self = (pg_queue-QueueLaws.enqueue_new now k b h s.jobs e).1 in
      let other = λ (j : Key) (n : k ≢ j). pg_queue-QueueLaws.enqueue_other now k j b h s.jobs n in
      jobs-Keeps d s t i refl refl (UniqueKeys-enqueue now k b h s.jobs i.unique)
        (λ j.
          own_or_other (λ x. has_job s x ≡ true → has_job t x ≡ true) k j (λ g. rw self refl)
            (λ n g. rw (other j n) g))
        (λ j.
          own_or_other (λ x. is_closed (view x t.jobs) ≡ true → has_result s x ≡ true) k j
            (λ g. absurd (ground (arith, self, g)))
            (λ n g. i.closed_results j (rw (other j n) at g)))
        (λ j.
          own_or_other (λ x. has_job t x ≡ true → has_blob s x ≡ true) k j (λ g. owned)
            (λ n g. i.job_blobs j (rw (other j n) at g)))

  -- Enqueueing a job that has a document.
  pub enqueue-Keeps :
      (now : ℕ) (k : Key) (b h : String)
      → has_blob s k ≡ true
      → Keeps d s (store_queue.enqueue now k b h s).1
  enqueue-Keeps now k b h owned = elim (Bool-cases (has_hash h (view k s.jobs))) [
    | inl e ↦ enqueue_tracked-Keeps now k b h e
    | inr e ↦ enqueue_new-Keeps now k b h e owned
  ]

  IsClosed-Keeps :
      (k : Key) (row : Row F) (status : JobStatus) (t : Store F)
      → IsClosed k row status s t
      → Keeps d s t
  unfolding IsKeyed get_blob
  IsClosed-Keeps k row status t c = record {
    sound = record {
      keyed = λ j x h. i.keyed j x (rw c.blobs at h);
      closed_results = λ j.
          own_or_other (λ x. is_closed (view x t.jobs) ≡ true → has_result t x ≡ true) k j
            (λ e. rw c.result refl)
            (λ n e. rw (c.other_results j n) (i.closed_results j (rw (c.other_jobs j n) at e)));
      job_blobs = λ j.
          own_or_other (λ x. has_job t x ≡ true → has_blob t x ≡ true) k j
            (λ e. rw c.blobs (i.job_blobs k (ground (arith, c.job, e))))
            (λ n e. rw c.blobs (i.job_blobs j (rw (c.other_jobs j n) at e)));
      unique = c.keys i.unique;
    };
    extends = record {
      jobs = λ j.
          own_or_other (λ x. has_job s x ≡ true → has_job t x ≡ true) k j
            (λ e. ground (arith, c.job, e)) (λ n e. rw (c.other_jobs j n) e);
      blobs = λ j e. rw c.blobs e;
      results = λ j.
          own_or_other (λ x. has_result s x ≡ true → has_result t x ≡ true) k j
            (λ e. rw c.result refl) (λ n e. rw (c.other_results j n) e);
    };
  }

  -- A transaction that returned has closed its job.
  pub close-IsClosed :
      (db : Database F) (job : ClaimedJob) (row : Row F) (status : JobStatus) (t : Store F)
      → CanClose job row status
      → close_job_with_result db row status s ≡ ok t
      → IsClosed job.key (as_read db row) status s t
  close-IsClosed db job row status t c e =
      let (t', e', closes) =
        close_job_with_result-IsClosed db job.key row status c.hash c.at s c.closes c.tenant
          c.conversation c.has_hash c.has_time in
      subst (IsClosed job.key (as_read db row) status s) (ok-injective (sym e' ∙ e)) closes

  -- The transaction that closes a job.
  pub close-Keeps :
      (db : Database F) (job : ClaimedJob) (row : Row F) (status : JobStatus) (t : Store F)
      → CanClose job row status
      → close_job_with_result db row status s ≡ ok t
      → Keeps d s t
  close-Keeps db job row status t c e =
      IsClosed-Keeps job.key (as_read db row) status t (close-IsClosed db job row status t c e)
