-- ===== src/Tests/Files.antt =====
-- Sample files: a run over a directory and a second one.
use sb_poc.Prelude.{
  ℕ, ◌+◌, ◌≡◌, ◌⊎◌, true, false, refl, String, String_eq, ℤ, List, [], ◌∷◌, some, All, arith,
}
use sb_poc.Json.{Value, str, arr, obj, nil, cons, end, field}
use sb_poc.Schema.{non_empty_str}
use sb_poc.Hashing.{content_hash}
use sb_poc.Hashing.Canonical.{SameValue}
use sb_poc.Hashing.Unique.Texts.{IsJson}
use sb_poc.Queue.{Key, has_hash, fresh}
use sb_poc.Queue.Postgres.{view, enqueue}
use sb_poc.Store.{Store, blob_key, upsert_blob}
use sb_poc.Store.Documents.{IsKeyed}
use sb_poc.Worker.{store_queue, store_queue-StoreQueueLaws}
use sb_poc.Ingest.{
  IngestStats, loaded, unreadable, File, document_key, ingest_directory, ingest_document,
  insert_dead_letter, count_newly, no_files,
}
use sb_poc.Ingest.Documents.{ingest_directory-IsKeyed}
use sb_poc.Ingest.Tracking.{Agrees, SinkLaws}
use sb_poc.Ingest.Again.{ingest_directory_again}
use sb_poc.Ingest.Edited.{ingest_document_edited}
use sb_poc.Tests.Samples.{turn, key, identity, plain_db, plain_db-DatabaseLaws, document, store}
use sb_poc.Tests.Jobs.{store-IsKeyed}

abbrev pub files : List File
files =
    record { name = "a.json"; load = loaded document }
    ∷ record { name = "b.json"; load = unreadable "JSONDecodeError" }
    ∷ record { name = "c.json"; load = loaded (arr nil) }
    ∷ []

abbrev pub clock : ℕ → ℕ
clock n = 100 + n

abbrev ingest : (ℕ → ℕ) → Store ℤ → IngestStats × Store ℤ
ingest at s =
    ingest_directory identity store_queue (upsert_blob plain_db) (some insert_dead_letter) at files
      s

ingest_directory-IsKeyed_example : IsKeyed identity (ingest clock store).1
ingest_directory-IsKeyed_example =
    ingest_directory-IsKeyed ℤ identity plain_db plain_db-DatabaseLaws clock files store
      store-IsKeyed

abbrev want : Key → String
want k = content_hash identity document

store-SinkLaws :
    SinkLaws (λ k (s : Store ℤ). view k s.jobs) (upsert_blob plain_db) (some insert_dead_letter)
unfolding upsert_blob
store-SinkLaws = record {
  view-store_blob = λ now k j h raw s. ground arith;
  view-dead_letter = λ j name error s. refl;
}

files-Agree : All (λ x. Agrees identity want x.load) files
unfolding document_key non_empty_str
files-Agree = ((λ k h. refl), (tt, ((λ k h. absurd (cc)), tt)))

later : ℕ → ℕ
later n = 900 + n

ingest_directory_again_example :
    let first = ingest clock store in
    let second = ingest later first.1 in
    (second.0.enqueued ≡ 0) × ((j : Key) → view j second.1.jobs ≡ view j first.1.jobs)
ingest_directory_again_example =
    ingest_directory_again identity store_queue (upsert_blob plain_db) (some insert_dead_letter)
      (λ k s. view k s.jobs) store_queue-StoreQueueLaws.jobs store-SinkLaws want clock later files
      store files-Agree

-- The document with another turn in place of all the old ones.
abbrev edited : Value
edited = obj (
    field "conversation_id" (str "c1") (
      field "tenant_id" (str "acme") (field "turns" (arr (cons (turn "customer" "good") nil)) end)))

document-IsJson : IsJson document
unfolding IsJson
document-IsJson = ground arith

edited-IsJson : IsJson edited
unfolding IsJson
edited-IsJson = ground arith

ingested_hash :
    has_hash (content_hash identity document) (view key (ingest clock store).1.jobs) ≡ true
unfolding ingest_directory document_key non_empty_str upsert_blob content_hash enqueue
ingested_hash = refl

ingest_document_edited_example :
    let s = (ingest clock store).1 in
    let after =
      ingest_document identity store_queue
        (upsert_blob plain_db)
        (some insert_dead_letter)
        800
        edited
        key
        no_files
        s in
    (SameValue document edited
      × (after.0 ≡ count_newly false no_files)
      × ((j : Key) → view j after.1.jobs ≡ view j s.jobs))
    ⊎ ((¬ SameValue document edited)
        × (after.0 ≡ count_newly true no_files)
        × (view key after.1.jobs ≡ some (fresh (blob_key key) (content_hash identity edited))))
ingest_document_edited_example =
    ingest_document_edited identity store_queue (upsert_blob plain_db) (some insert_dead_letter)
      (λ k s. view k s.jobs) store_queue-StoreQueueLaws.jobs store-SinkLaws 800 document edited key
      no_files (ingest clock store).1 document-IsJson edited-IsJson (λ e. e) ingested_hash
