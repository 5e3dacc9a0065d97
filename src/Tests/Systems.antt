-- ===== src/Tests/Systems.antt =====
-- Sample interleavings, and a run that drains a sample queue.
use sb_poc.Prelude.{
  ◌==◌, exceeds, ℕ, ◌≡◌, refl, String_eq, ℤ, true, false, [], ◌∷◌, some, ok, arith,
}
use sb_poc.Json.{Value, str, obj, end, field}
use sb_poc.Float.Integers.{integers}
use sb_poc.Schema.{non_empty_str}
use sb_poc.Hashing.{content_hash}
use sb_poc.Row.{Row, RowStatus, row_rejected}
use sb_poc.Queue.{close_as, fresh}
use sb_poc.Queue.Postgres.{view}
use sb_poc.Store.{Store, Blob, blob_key, get_blob, get_result, is_closing}
use sb_poc.Store.Documents.{Carries}
use sb_poc.Store.Results.{as_read}
use sb_poc.Worker.{store_queue, store_queue-StoreQueueLaws, run, job_status_of}
use sb_poc.Worker.Outcomes.{process_one-IsProcessed}
use sb_poc.Worker.Drain.{store_queue-ClaimLaws}
use sb_poc.Worker.Drained.{store_queue-CompleteLaws, Drains, run-Drains}
use sb_poc.Ingest.{document_key}
use sb_poc.System.{System, Reach, idle, working}
use sb_poc.System.Safety.{closed_has_result, reading_finds_blob}
use sb_poc.System.Alone.{Moves, process_one-Moves}
use sb_poc.System.LostUpdate.{lost_update, about_to_read, about_to_read-Reaches}
use sb_poc.Tests.Samples.{
  ascii, identity, plain_db, plain_db-DatabaseLaws, cfg, noon, score_all, document, key, job, store,
}
use sb_poc.Tests.Jobs.{
  scores_document, scores_blob, store-IsKeyed, store-IsReady, store-Covers, two_open, both_keys,
  always, ticks,
}

run-Drains_example :
    (total : ℕ) × (s' : Store ℤ) × (run integers ascii identity score_all plain_db store_queue cfg
        always ticks true "w1" 3 0 0 store
      ≡ ok (some total, s'))
    × Drains 100 cfg.lease_seconds store s'
run-Drains_example =
    run-Drains integers ascii identity score_all plain_db store_queue store_queue-StoreQueueLaws cfg
      store_queue-ClaimLaws store_queue-CompleteLaws always ticks "w1" 1 refl both_keys 3 100 store
      (λ r. omega arith) store-IsReady store-Covers (omega (arith, two_open))

-- The same conversation with other content.
abbrev pub changed : Value
changed = obj (field "tenant_id" (str "acme") (field "conversation_id" (str "c1") end))

abbrev pub the_row : Row ℤ
the_row = scores_document.0

pub has_key : document_key document ≡ some key
unfolding document_key non_empty_str
has_key = refl

pub changed-has_key : document_key changed ≡ some key
unfolding document_key non_empty_str
changed-has_key = refl

pub differs : (content_hash identity document == content_hash identity changed) ≡ false
unfolding content_hash
differs = refl

abbrev Overtaken : Type 0
Overtaken =
    (y : System integers ascii identity score_all plain_db cfg) × Reach integers ascii identity
      score_all plain_db cfg y
    × ((i : ℕ) → y.pc i ≡ idle)
    × (view key y.tables.jobs
        ≡ some (
            close_as (job_status_of the_row.status)
              (fresh (blob_key key) (content_hash identity changed))))
    × (get_result key y.tables ≡ some (as_read plain_db the_row))
    × ((store_queue.enqueue 4 key (blob_key key) (content_hash identity changed) y.tables).0
        ≡ false)

lost_update_example : Overtaken
lost_update_example =
    lost_update integers ascii identity score_all plain_db cfg plain_db-DatabaseLaws key document
      changed noon the_row 1 has_key changed-has_key differs refl refl scores_document.1

overtaken : Overtaken
overtaken =
    lost_update integers ascii identity score_all plain_db cfg plain_db-DatabaseLaws key document
      changed noon the_row 1 has_key changed-has_key differs refl refl scores_document.1

status-is_closing : (st : RowStatus) → is_closing (job_status_of st) ≡ true
status-is_closing row_rejected = refl
status-is_closing _ = refl

closed_has_result_example : (row : Row ℤ) × (get_result key overtaken.0.tables ≡ some row)
closed_has_result_example =
    closed_has_result integers ascii identity score_all plain_db cfg plain_db-DatabaseLaws
      overtaken.1 key (ground (arith, overtaken.3, status-is_closing the_row.status))

reading_finds_blob_example :
    (b : Blob) × (get_blob key
        (about_to_read integers ascii identity score_all plain_db cfg plain_db-DatabaseLaws key
          document changed noon the_row 1 has_key changed-has_key differs refl refl
          scores_document.1).tables
      ≡ some b)
    × Carries identity key b.raw
    × (exceeds 1 cfg.max_delivery ≡ false)
reading_finds_blob_example =
    reading_finds_blob integers ascii identity score_all plain_db cfg plain_db-DatabaseLaws
      (about_to_read-Reaches integers ascii identity score_all plain_db cfg plain_db-DatabaseLaws
        key document changed noon the_row 1 has_key changed-has_key differs refl refl
        scores_document.1)
      1 refl

process_one-Moves_example :
    (s' : Store ℤ) × Moves integers ascii identity score_all plain_db cfg store
      (working (job ∷ []))
      s'
      (working [])
process_one-Moves_example =
    let (o, s', e, p) =
      process_one-IsProcessed integers ascii identity score_all plain_db store_queue
        store_queue-StoreQueueLaws cfg noon job store store-IsKeyed scores_blob in
    (s', process_one-Moves integers ascii identity score_all plain_db cfg noon job [] store s' o e)
