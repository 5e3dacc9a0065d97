-- ===== src/Tests/Redelivery.antt =====
-- A sample job that is delivered twice.
use sb_poc.Prelude.{ℤ, some, ◌≡◌, refl, subst, ok}
use sb_poc.Float.Integers.{integers}
use sb_poc.Hashing.{content_hash}
use sb_poc.Row.{hash_of}
use sb_poc.Queue.{Key, ClaimedJob}
use sb_poc.Store.{Store, get_result}
use sb_poc.Worker.{Outcome, skipped_duplicate, store_queue, store_queue-StoreQueueLaws, process_one}
use sb_poc.Worker.Outcomes.{IsProcessed, process_one-IsProcessed}
use sb_poc.Worker.Redelivery.{Matches, process_one_again}
use sb_poc.Tests.Samples.{ascii, identity, plain_db, cfg, noon, score_all, document, job, store}
use sb_poc.Tests.Scoring.{one_o_clock}
use sb_poc.Tests.Jobs.{store-IsKeyed, scores_blob, only_blob}

abbrev own_job : ClaimedJob
own_job = record job { content_hash = content_hash identity document }

first :
    (o : Outcome) × (s' : Store ℤ) × (process_one integers ascii identity score_all plain_db
        store_queue cfg noon own_job store
      ≡ ok (o, s'))
    × IsProcessed own_job o store s'
first =
    process_one-IsProcessed integers ascii identity score_all plain_db store_queue
      store_queue-StoreQueueLaws cfg noon own_job store store-IsKeyed scores_blob

own_job-Matches : Matches identity own_job store
own_job-Matches b h =
    subst (λ x. hash_of identity x.raw ≡ some own_job.content_hash) (only_blob own_job.key b h).1
      refl

process_one_again_example :
    (s'' : Store ℤ) × (process_one integers ascii identity score_all plain_db store_queue cfg
        one_o_clock
        (record own_job { delivery_count = 2 })
        first.1
      ≡ ok (skipped_duplicate, s''))
    × ((k : Key) → get_result k s'' ≡ get_result k first.1)
process_one_again_example =
    process_one_again integers ascii identity score_all plain_db store_queue
      store_queue-StoreQueueLaws cfg noon one_o_clock own_job 2 store first.1 first.0 store-IsKeyed
      own_job-Matches first.2 refl
