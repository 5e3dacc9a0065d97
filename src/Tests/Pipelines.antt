-- ===== src/Tests/Pipelines.antt =====
-- Sample directory: ingested into empty tables, then scored by a worker that drains the queue.
use sb_poc.Prelude.{
  ℕ, String_eq, ℤ, true, some, [], ◌∷◌, ◌≡◌, refl, subst, arith, All, length, ok, lookup, put,
}
use sb_poc.Float.Integers.{integers, integers_laws}
use sb_poc.Schema.{non_empty_str}
use sb_poc.Hashing.{content_hash}
use sb_poc.Row.{Row, DateTime, score_conversation}
use sb_poc.Row.Total.{score_conversation_total}
use sb_poc.Queue.{Key, Key_eq, key_beq_iff}
use sb_poc.Queue.Postgres.{enqueue}
use sb_poc.Store.{Store, Blob, upsert_blob, get_blob}
use sb_poc.Store.Documents.{IsKeyed}
use sb_poc.Worker.{store_queue, run}
use sb_poc.Ingest.{
  document_key, ingest_document, ingest_checked, ingest_load, ingest_files, ingest_directory,
}
use sb_poc.System.Sound.{IsSound}
use sb_poc.Pipeline.Finished.{Finished, ingested, ingest_then_run}
use sb_poc.Tests.Samples.{
  ascii, identity, plain_db, plain_db-DatabaseLaws, cfg, score_one, score_one-Calibrated, score_all,
  document, key,
}
use sb_poc.Tests.Scoring.{few}
use sb_poc.Tests.Jobs.{always, ticks}
use sb_poc.Tests.Files.{files, clock}

abbrev pub no_rows : Store ℤ
no_rows = record { blobs = []; jobs = []; results = []; dead_letters = [] }

pub no_rows-IsSound : IsSound identity no_rows
unfolding IsKeyed get_blob lookup
no_rows-IsSound = record {
  keyed = λ k b h. absurd (cc);
  closed_results = λ k h. absurd (cc);
  job_blobs = λ k h. absurd (cc);
  unique = tt;
}

abbrev pub after_ingest : Store ℤ
after_ingest =
    ingested integers ascii identity score_all plain_db plain_db-DatabaseLaws cfg clock files
      no_rows

pub one_job : length after_ingest.jobs ≡ 1
unfolding ingest_directory ingest_files ingest_load ingest_checked ingest_document document_key
    non_empty_str upsert_blob enqueue put lookup
one_job = refl

pub one_blob :
    after_ingest.blobs
    ≡ (
      key,
      record { content_hash = content_hash identity document; raw = document; ingested_at = 100 },
    )
      ∷ []
unfolding ingest_directory ingest_files ingest_load ingest_checked ingest_document document_key
    non_empty_str upsert_blob enqueue put lookup
one_blob = refl

all_scored :
    (k : Key) (b : Blob) (now : DateTime)
    → get_blob k after_ingest ≡ some b
    → (row : Row ℤ) × (score_conversation integers ascii identity score_all cfg now b.raw ≡ ok row)
unfolding get_blob lookup
all_scored k b now h =
    let same : document ≡ b.raw = ground (arith, rw one_blob at h, key_beq_iff key k) in
    subst
      (λ raw.
        (row : Row ℤ) × (score_conversation integers ascii identity score_all cfg now raw ≡ ok row))
      same
      (score_conversation_total integers ascii identity score_all cfg now score_one (λ xs. refl)
        integers_laws refl refl score_one-Calibrated document few)

ingest_then_run_example :
    (total : ℕ) × (t : Store ℤ) × (run integers ascii identity score_all plain_db store_queue cfg
        always ticks true "w1" 2 0 0 after_ingest
      ≡ ok (some total, t))
    × All (λ x. Finished t x.load) files
unfolding lookup
ingest_then_run_example =
    ingest_then_run integers ascii identity score_all plain_db plain_db-DatabaseLaws cfg clock
      always ticks "w1" 1 2 files no_rows refl no_rows-IsSound (λ k. refl) all_scored
      (omega (arith, one_job))
