-- ===== src/Tests/Histories.antt =====
-- Sample histories of both queues.
use sb_poc.Prelude.{
  insert_by, sort_by, refl, String_eq, pos, true, List, [], ◌∷◌, lookup, put, update,
}
use sb_poc.Queue.{Key_eq, ClaimedJob, fresh, claimed_job, claim_view, is_claimable}
use sb_poc.Queue.Postgres.{
  Jobs, view, pg_queue, new_job, claim_job, claimable, mark_claimed, claim_unlocked,
}
use sb_poc.Queue.Postgres.{enqueue as pg_enqueue, claim as pg_claim, mark_done as pg_mark_done}
use sb_poc.Queue.Fake.{FakeQueue, fake_queue, claim_from, enqueue, claim, mark_done}
use sb_poc.Queue.History.{
  Event, enqueued, handed_out, marked, Lived, begun, enqueuing, claiming, marking,
}
use sb_poc.Queue.History.Told.{IsTold}
use sb_poc.Queue.History.Implemented.{start_jobs, start_rows, pg_queue-IsTold, fake_queue-IsTold}
use sb_poc.Tests.Samples.{key}

-- A job is enqueued, claimed and closed, and enqueued again with other content.
abbrev handed : List ClaimedJob
handed = claimed_job key (claim_view 10 (fresh "acme/c1" "h")) ∷ []

abbrev events : List Event
events = enqueued key "h2" true ∷ marked key ∷ handed_out handed ∷ enqueued key "h" true ∷ []

abbrev claimed_jobs : Jobs
claimed_jobs = (key, claim_job 10 "w1" (new_job 1 "acme/c1" "h")) ∷ []

abbrev last_jobs : Jobs
last_jobs = (key, new_job 20 "acme/c1" "h2") ∷ []

pg-Lived : Lived pg_queue start_jobs events last_jobs
unfolding pg_enqueue pg_claim pg_mark_done claim_unlocked claimable mark_claimed lookup put update
    is_claimable sort_by insert_by
pg-Lived = enqueuing 20 key "acme/c1" "h2" (
    marking key (
      claiming {s' = claimed_jobs} {jobs = handed} 10 "w1" (pos 2) (pos 300)
        (enqueuing 1 key "acme/c1" "h" begun) refl))

pg_queue-IsTold_example : IsTold view events last_jobs
pg_queue-IsTold_example = pg_queue-IsTold events last_jobs pg-Lived

abbrev last_rows : FakeQueue
last_rows = (key, fresh "acme/c1" "h2") ∷ []

abbrev claimed_rows : FakeQueue
claimed_rows = (key, claim_view 10 (fresh "acme/c1" "h")) ∷ []

fake-Lived : Lived fake_queue start_rows events last_rows
unfolding enqueue claim claim_from mark_done lookup put update is_claimable
fake-Lived = enqueuing 20 key "acme/c1" "h2" (
    marking key (
      claiming {s' = claimed_rows} {jobs = handed} 10 "w1" (pos 2) (pos 300)
        (enqueuing 1 key "acme/c1" "h" begun) refl))

fake_queue-IsTold_example : IsTold lookup events last_rows
fake_queue-IsTold_example = fake_queue-IsTold events last_rows fake-Lived
