-- ===== src/Queue/History/Implemented.antt =====
-- queue.py, PgJobQueue and FakeQueue: both queues answer and show what their histories tell.
use sb_poc.Prelude.{
  false, ℕ, String, ℤ, pos, negsuc, List, [], ◌≡◌, refl, sym, subst, ◌∙◌, Bool-cases, inl, inr,
  lookup, UniqueKeys, UniqueKeys-put, UniqueKeys-update, ok, ok-injective,
}
use sb_poc.Queue.{Key, Key_eq, ClaimedJob, done, IsClaim}
use sb_poc.Queue.Postgres.{
  claim, claim_unlocked, Jobs, view, pg_queue, pg_queue-QueueLaws, UniqueKeys-enqueue,
  UniqueKeys-mark_done,
}
use sb_poc.Queue.Postgres.Claims.{claim_unlocked-IsClaim}
use sb_poc.Queue.Fake.{FakeQueue, unchanged, new_row, fake_queue, fake_queue-QueueLaws}
use sb_poc.Queue.Fake.{claim as fake_claim, enqueue as fake_enqueue, mark_done as fake_mark_done}
use sb_poc.Queue.Fake.Claims.{claim_from-IsClaim, claim_from-UniqueKeys}
use sb_poc.Queue.History.{Event, Lived, HistoryLaws}
use sb_poc.Queue.History.Told.{IsTold, history-IsTold}

abbrev pub start_jobs : Jobs
start_jobs = []

abbrev pub start_rows : FakeQueue
start_rows = []

pg_claim :
    (now : ℕ) (w : String) (batch lease : ℤ) (jobs : List ClaimedJob) (s s' : Jobs)
    → claim now w batch lease s ≡ ok (jobs, s')
    → UniqueKeys s
    → IsClaim view now lease s s' jobs × UniqueKeys s'
unfolding claim claim_unlocked
pg_claim now w (negsuc n) lease jobs s s' e u = absurd (cc)
pg_claim now w (pos n) lease jobs s s' e u =
    let (js, t, e1, c, _, _, u1) = claim_unlocked-IsClaim (λ k. false) now n lease w s u in
    subst (λ r. IsClaim view now lease s r.1 r.0 × UniqueKeys r.1) (ok-injective (sym e1 ∙ e))
      (c, u1)

pg_queue-HistoryLaws : HistoryLaws pg_queue view start_jobs UniqueKeys
unfolding lookup
pg_queue-HistoryLaws = record {
  queue = pg_queue-QueueLaws;
  start-view = λ k. refl;
  start-Good = tt;
  enqueue-Good = UniqueKeys-enqueue;
  mark_done-Good = UniqueKeys-mark_done;
  claims_lem = pg_claim;
}

fake_queue_claim :
    (now : ℕ) (w : String) (batch lease : ℤ) (jobs : List ClaimedJob) (s s' : FakeQueue)
    → fake_claim now w batch lease s ≡ ok (jobs, s')
    → UniqueKeys s
    → IsClaim lookup now lease s s' jobs × UniqueKeys s'
unfolding fake_claim
fake_queue_claim now w batch lease jobs s s' e u =
    subst (λ r. IsClaim lookup now lease s r.1 r.0 × UniqueKeys r.1) (ok-injective e)
      (claim_from-IsClaim now batch lease s u, claim_from-UniqueKeys now batch lease 0 s u)

fake_enqueue-UniqueKeys :
    (now : ℕ) (k : Key) (b h : String) (s : FakeQueue)
    → UniqueKeys s
    → UniqueKeys (fake_enqueue now k b h s).1
unfolding fake_enqueue
fake_enqueue-UniqueKeys now k b h s u = elim (Bool-cases (unchanged h (lookup k s))) [
  | inl same ↦ rw same u
  | inr changed ↦ rw changed (UniqueKeys-put k (new_row b h) s u)
]

fake_mark_done-UniqueKeys :
    (k : Key) (s : FakeQueue) → UniqueKeys s → UniqueKeys (fake_mark_done k s)
unfolding fake_mark_done
fake_mark_done-UniqueKeys k s u = UniqueKeys-update k (λ v. record v { status = done }) s u

fake_queue-HistoryLaws : HistoryLaws fake_queue lookup start_rows UniqueKeys
unfolding lookup
fake_queue-HistoryLaws = record {
  queue = fake_queue-QueueLaws;
  start-view = λ k. refl;
  start-Good = tt;
  enqueue-Good = fake_enqueue-UniqueKeys;
  mark_done-Good = fake_mark_done-UniqueKeys;
  claims_lem = fake_queue_claim;
}

-- Whatever is enqueued, claimed and marked as done on an empty queue in Postgres, in whatever order: its
-- answers and its jobs are those that the history tells. Enqueueing answers that a job is new exactly if
-- the job was last enqueued with another content hash, or never. A job that is handed out carries the
-- hash it was last enqueued with, was not marked as done since that content came, and has as its
-- delivery count how often it was handed out since then, this time included. The table shows for each
-- job its last hash, the number of times that it was handed out since it changed, and that it is done
-- exactly if it was marked so and neither handed out nor changed since.
pub pg_queue-IsTold :
    (es : List Event) (s : Jobs) → Lived pg_queue start_jobs es s → IsTold view es s
pg_queue-IsTold es s l =
    (history-IsTold pg_queue view start_jobs UniqueKeys pg_queue-HistoryLaws es s l).0

-- The queue in memory, too, answers and shows what the history of the operations on it tells: new jobs
-- are those with another content hash than the last, a job that is handed out has its last hash, is
-- unfinished, and counts how often it was handed out since its content changed, and a row is done
-- exactly if it was marked so and neither handed out nor changed since.
pub fake_queue-IsTold :
    (es : List Event) (s : FakeQueue) → Lived fake_queue start_rows es s → IsTold lookup es s
fake_queue-IsTold es s l =
    (history-IsTold fake_queue lookup start_rows UniqueKeys fake_queue-HistoryLaws es s l).0
