-- ===== src/Tests/Jobs.antt =====
-- Sample jobs: the closing of a job, its processing, and a run.
use sb_poc.Prelude.{
  ◌+◌, ℕ, ◌≡◌, refl, String_eq, ℤ, true, List, [], ◌∷◌, none, some, ok, arith, lookup, subst,
}
use sb_poc.Json.{str}
use sb_poc.Float.Integers.{integers, integers_laws}
use sb_poc.Config.{metric_params}
use sb_poc.Hashing.{content_hash}
use sb_poc.Row.{DateTime, Row, row_rejected, blob_missing, score_conversation}
use sb_poc.Row.Total.{score_conversation_total}
use sb_poc.Queue.{Key, Key_eq, key_beq_iff}
use sb_poc.Store.{Blob, Store, get_blob}
use sb_poc.Store.Documents.{Carries, IsKeyed}
use sb_poc.Worker.{Outcome, store_queue, store_queue-StoreQueueLaws, process_one}
use sb_poc.Worker.Outcomes.{IsProcessed, process_one-IsProcessed}
use sb_poc.Worker.Open.{open_at, among, count}
use sb_poc.Worker.Batch.{IsReady}
use sb_poc.Tests.Samples.{
  ascii, identity, plain_db, cfg, noon, score_one, score_all, score_one-Calibrated, document, key,
  other_key, job, store,
}
use sb_poc.Tests.Scoring.{few}
use sb_poc.Tests.Queues.{jobs-UniqueKeys}

abbrev lost_row : Row ℤ
lost_row = record {
  tenant_id = str "acme";
  conversation_id = str "c1";
  content_hash = some "h";
  schema_version = "1.0";
  provenance = record { model_name = "model"; model_revision = "1"; scored_at = some 43200 };
  params = metric_params cfg;
  status = row_rejected;
  overall_sentiment = none;
  sentiment_trajectory = none;
  per_turn = [];
  dropped_turns = [];
  error = some (record { reason = blob_missing; detail = "" });
}

abbrev blob : Blob
blob = record { content_hash = "h"; raw = document; ingested_at = 5 }

pub document-Carries : Carries identity key document
document-Carries = (refl, refl, content_hash identity document, refl)

pub only_blob : (k : Key) (b : Blob) → get_blob k store ≡ some b → (key ≡ k) × (blob ≡ b)
unfolding get_blob lookup
only_blob k b h = (ground (arith, key_beq_iff key k), ground (arith, key_beq_iff key k))

pub store-IsKeyed : IsKeyed identity store
unfolding IsKeyed
store-IsKeyed k b h =
    let (ek, eb) = only_blob k b h in
    subst (λ j. Carries identity j b.raw) ek
      (subst (λ c. Carries identity key c.raw) eb document-Carries)

pub scores_document :
    (row : Row ℤ) × (score_conversation integers ascii identity score_all cfg noon document
      ≡ ok row)
scores_document =
    score_conversation_total integers ascii identity score_all cfg noon score_one (λ xs. refl)
      integers_laws refl refl score_one-Calibrated document few

pub scores_blob :
    (b : Blob)
    → get_blob job.key store ≡ some b
    → (row : Row ℤ) × (score_conversation integers ascii identity score_all cfg noon b.raw ≡ ok row)
scores_blob b h =
    subst
      (λ c.
        (row : Row ℤ) × (score_conversation integers ascii identity score_all cfg noon c.raw
          ≡ ok row))
      (only_blob job.key b h).1 scores_document

process_one-IsProcessed_example :
    (o : Outcome) × (s' : Store ℤ) × (process_one integers ascii identity score_all plain_db
        store_queue cfg noon job store
      ≡ ok (o, s'))
    × IsProcessed job o store s'
process_one-IsProcessed_example =
    process_one-IsProcessed integers ascii identity score_all plain_db store_queue
      store_queue-StoreQueueLaws cfg noon job store store-IsKeyed scores_blob

any_blob :
    (k : Key) (b : Blob) (t : DateTime)
    → get_blob k store ≡ some b
    → (row : Row ℤ) × (score_conversation integers ascii identity score_all cfg t b.raw ≡ ok row)
any_blob k b t h =
    subst
      (λ c.
        (row : Row ℤ) × (score_conversation integers ascii identity score_all cfg t c.raw ≡ ok row))
      (only_blob k b h).1
      (score_conversation_total integers ascii identity score_all cfg t score_one (λ xs. refl)
        integers_laws refl refl score_one-Calibrated document few)

pub store-IsReady :
    IsReady integers ascii identity score_all plain_db store_queue store_queue-StoreQueueLaws cfg
      store
store-IsReady = record { keyed = store-IsKeyed; scores = any_blob; unique = jobs-UniqueKeys }

abbrev pub both_keys : List Key
both_keys = key ∷ other_key ∷ []

pub store-Covers : (k : Key) → open_at store k ≡ true → among k both_keys ≡ true
unfolding lookup
store-Covers k h = ground (arith, key_beq_iff key k, key_beq_iff other_key k)

pub two_open : count (open_at store) both_keys ≡ 2
unfolding count lookup
two_open = refl

abbrev pub always : ℕ → DateTime
always n = noon

abbrev pub ticks : ℕ → ℕ
ticks n = 100 + n
