-- ===== src/Queue/Postgres.antt =====
-- queue.py, PgJobQueue over migrations/001_init.sql: the jobs table and the three statements on it.
pub mod Claims
pub mod Oldest
pub mod Complete
use sb_poc.Prelude.{
  UniqueKeys-put, Bool-cases, inl, inr, UniqueKeys, UniqueKeys-update, ℕ, zero, suc, ◌+◌, String,
  String_eq, ℤ, pos, negsuc, Bool, true, false, ◌&&◌, ◌||◌, not, Option, none, some, List, [], ◌∷◌,
  map, Table, lookup, put, update, lookup-put, lookup-update, map_option, ◌==◌, ◌≡◌, ◌≢◌, refl, ◌∙◌,
  Result, ok, raise, database_error, if◌then◌else◌, arith, leb, take, keep_if, sort_by,
}
use sb_poc.Queue.{
  Key, Key_eq, key_beq_iff, ClaimedJob, JobStatus, queued, claimed, done, dead, JobView,
  is_claimable, fresh, has_hash, close_as, claim_view, claimed_job, Queue, QueueLaws,
}

-- A row of `jobs`.
pub record Job : Type 0 where
  pub shown : JobView
  pub open shown use *
  pub claimed_by : Option String
  pub last_error : Option String
  pub enqueued_at : ℕ

abbrev pub Jobs : Type 0
Jobs = Table Key Job

abbrev pub shown_of : Option Job → Option JobView
shown_of none = none
shown_of (some j) = some j.shown

abbrev pub view : Key → Jobs → Option JobView
view k jobs = shown_of (lookup k jobs)

abbrev pub new_job : ℕ → String → String → Job
new_job now blob_key h = record {
  shown = record {
    blob_key = blob_key;
    content_hash = h;
    status = queued;
    delivery_count = 0;
    claimed_at = none;
  };
  claimed_by = none;
  last_error = none;
  enqueued_at = now;
}

-- The conflicting row has this content hash.
abbrev pub unchanged : String → Option Job → Bool
unchanged h none = false
unchanged h (some j) = j.content_hash == h

-- INSERT ... ON CONFLICT DO UPDATE ... WHERE the content hash differs; a row comes back if one was
-- inserted or updated. The update resets every column.
unfoldable pub enqueue : ℕ → Key → String → String → Jobs → Bool × Jobs
unfolding lookup put
enqueue now key blob_key content_hash jobs =
    if unchanged content_hash (lookup key jobs)
    then (false, jobs)
    else (true, put key (new_job now blob_key content_hash) jobs)

-- ORDER BY enqueued_at; rows of one time come in the order of the table.
abbrev pub older : Key × Job → Key × Job → Bool
older p q = leb p.1.enqueued_at q.1.enqueued_at

abbrev pub by_enqueued_at : Jobs → Jobs
by_enqueued_at jobs = sort_by older jobs

-- `claimable`: the rows that the condition of the query lets through and that no other transaction has
-- locked, oldest first, at most `n` of them.
unfoldable pub claimable : ℕ → ℤ → (Key → Bool) → ℕ → Jobs → Jobs
unfolding sort_by
claimable now lease locked n jobs =
    take n
      (by_enqueued_at (keep_if (λ p. is_claimable now lease p.1.shown && not (locked p.0)) jobs))

abbrev pub contains : Key → Jobs → Bool
contains k [] = false
contains k (p ∷ ps) = p.0 == k || contains k ps

-- SET status = 'claimed', claimed_at = now(), delivery_count = delivery_count + 1
abbrev pub set_claimed : ℕ → JobView → JobView
set_claimed now v = record v {
  status = claimed;
  claimed_at = some now;
  delivery_count = v.delivery_count + 1;
}

abbrev pub claim_job : ℕ → String → Job → Job
claim_job now worker_id j = record j {
  shown = set_claimed now j.shown;
  claimed_by = some worker_id;
}

-- UPDATE jobs ... FROM claimable WHERE the keys agree
unfoldable pub mark_claimed : ℕ → String → Jobs → Jobs → Jobs
mark_claimed now worker_id chosen [] = []
mark_claimed now worker_id chosen ((k, j) ∷ jobs) =
    (k, if contains k chosen then claim_job now worker_id j else j)
    ∷ mark_claimed now worker_id chosen jobs

-- RETURNING, in the order of `claimable`
abbrev pub returning : ℕ → Jobs → List ClaimedJob
returning now [] = []
returning now (p ∷ ps) = claimed_job p.0 (set_claimed now p.1.shown) ∷ returning now ps

-- A claim while other transactions hold locks. A negative LIMIT is an error of the database.
unfoldable pub claim_unlocked :
    (Key → Bool) → ℕ → String → ℤ → ℤ → Jobs → Result (List ClaimedJob × Jobs)
unfolding mark_claimed
claim_unlocked locked now worker_id (negsuc n) lease jobs = raise database_error
claim_unlocked locked now worker_id (pos n) lease jobs =
    let chosen = claimable now lease locked n jobs in
    ok (returning now chosen, mark_claimed now worker_id chosen jobs)

-- A claim while nothing is locked.
unfoldable pub claim : ℕ → String → ℤ → ℤ → Jobs → Result (List ClaimedJob × Jobs)
unfolding claim_unlocked
claim = claim_unlocked (λ k. false)

-- UPDATE jobs SET status = ... WHERE the key is this one
abbrev pub set_status : JobStatus → Job → Job
set_status status j = record j { shown = record j.shown { status = status } }

unfoldable pub mark_done : Key → Jobs → Jobs
unfolding update
mark_done key jobs = update key (set_status done) jobs

abbrev pub pg_queue : Queue Jobs
pg_queue = record { enqueue = enqueue; claim = claim; mark_done = mark_done }

unchanged-has_hash : (h : String) (o : Option Job) → unchanged h o ≡ has_hash h (shown_of o)
unchanged-has_hash h none = refl
unchanged-has_hash h (some j) = refl

pg_enqueue_tracked :
    (now : ℕ) (k : Key) (b h : String) (s : Jobs)
    → has_hash h (view k s) ≡ true
    → enqueue now k b h s ≡ (false, s)
unfolding enqueue
pg_enqueue_tracked now k b h s e = rw (unchanged-has_hash h (lookup k s) ∙ e)

pg_enqueue_new :
    (now : ℕ) (k : Key) (b h : String) (s : Jobs)
    → has_hash h (view k s) ≡ false
    → ((enqueue now k b h s).0 ≡ true) × (view k (enqueue now k b h s).1 ≡ some (fresh b h))
unfolding enqueue
pg_enqueue_new now k b h s e =
    rw (unchanged-has_hash h (lookup k s) ∙ e)
      (refl, rw (lookup-put k k (new_job now b h) s) (ground (arith, key_beq_iff k k)))

pg_enqueue_other :
    (now : ℕ) (k j : Key) (b h : String) (s : Jobs)
    → k ≢ j
    → view j (enqueue now k b h s).1 ≡ view j s
unfolding enqueue
pg_enqueue_other now k j b h s n =
    ground (arith, lookup-put k j (new_job now b h) s, key_beq_iff k j)

pg_mark_done_self :
    (k : Key) (s : Jobs) → view k (mark_done k s) ≡ map_option (close_as done) (view k s)
unfolding mark_done
pg_mark_done_self k s = ground (arith, lookup-update k k (set_status done) s, key_beq_iff k k)

pg_mark_done_other : (k j : Key) (s : Jobs) → k ≢ j → view j (mark_done k s) ≡ view j s
unfolding mark_done
pg_mark_done_other k j s n = ground (arith, lookup-update k j (set_status done) s, key_beq_iff k j)

pub UniqueKeys-mark_done : (k : Key) (s : Jobs) → UniqueKeys s → UniqueKeys (mark_done k s)
unfolding mark_done
UniqueKeys-mark_done k s unique = UniqueKeys-update k (set_status done) s unique

pub UniqueKeys-enqueue :
    (now : ℕ) (k : Key) (b h : String) (s : Jobs)
    → UniqueKeys s
    → UniqueKeys (enqueue now k b h s).1
unfolding enqueue
UniqueKeys-enqueue now k b h s unique = elim (Bool-cases (unchanged h (lookup k s))) [
  | inl same ↦ rw same unique
  | inr changed ↦ rw changed (UniqueKeys-put k (new_job now b h) s unique)
]

-- The queue in Postgres keeps the promises of the protocol: a job that is tracked with the same content
-- hash is not enqueued again, any other is queued afresh, closing a job changes its status alone, and
-- no operation on one job changes another.
pub pg_queue-QueueLaws : QueueLaws pg_queue view
pg_queue-QueueLaws = record {
  enqueue_tracked = pg_enqueue_tracked;
  enqueue_new = pg_enqueue_new;
  enqueue_other = pg_enqueue_other;
  mark_done_self = pg_mark_done_self;
  mark_done_other = pg_mark_done_other;
}
