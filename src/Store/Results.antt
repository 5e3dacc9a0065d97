-- ===== src/Store/Results.antt =====
-- resultstore.py, close_job_with_result and get_result: one transaction and what is read after it.
use sb_poc.Prelude.{
  UniqueKeys, UniqueKeys-update, ℕ, String, true, some, update, lookup-put, lookup-update, map,
  map_option, ◌≡◌, ◌≢◌, refl, sym, ok, arith,
}
use sb_poc.Json.{str}
use sb_poc.Row.{Row}
use sb_poc.Queue.{Key, Key_eq, key_beq_iff, JobStatus, close_as}
use sb_poc.Queue.Postgres.{Jobs, set_status, view}
use sb_poc.Store.{
  jsonb_overall, jsonb_trajectory, jsonb_turn, jsonb_params, Database, Store, is_closing, stored_as,
  write_result, close_job_with_result, row_from, get_result,
}

-- What a transaction that closes a job does to the tables: the result of this job is the row, its job has
-- the status, and nothing else has changed.
pub record IsClosed {F : Type 0} (key : Key) (row : Row F) (status : JobStatus) (s s' : Store F)
    : Type 0 where
  pub result : get_result key s' ≡ some row
  pub job : view key s'.jobs ≡ map_option (close_as status) (view key s.jobs)
  pub other_results : (k : Key) → key ≢ k → get_result k s' ≡ get_result k s
  pub other_jobs : (k : Key) → key ≢ k → view k s'.jobs ≡ view k s.jobs
  pub blobs : s'.blobs ≡ s.blobs
  pub keys : UniqueKeys s.jobs → UniqueKeys s'.jobs

pub view-set_status_self :
    (k : Key) (st : JobStatus) (jobs : Jobs)
    → view k (update k (set_status st) jobs) ≡ map_option (close_as st) (view k jobs)
view-set_status_self k st jobs =
    ground (arith, lookup-update k k (set_status st) jobs, key_beq_iff k k)

pub view-set_status_other :
    (k j : Key) (st : JobStatus) (jobs : Jobs)
    → k ≢ j
    → view j (update k (set_status st) jobs) ≡ view j jobs
view-set_status_other k j st jobs n =
    ground (arith, lookup-update k j (set_status st) jobs, key_beq_iff k j)

module _ {F : Type 0} (db : Database F) where
  -- The row with each of its floats as JSONB gives it back, and everything else as it was.
  abbrev pub as_read : Row F → Row F
  as_read row = record row {
    overall_sentiment = map_option (jsonb_overall db) row.overall_sentiment;
    sentiment_trajectory = map_option (jsonb_trajectory db) row.sentiment_trajectory;
    per_turn = map (jsonb_turn db) row.per_turn;
    params = jsonb_params db row.params;
  }

  row_from-stored_as :
      (key : Key) (row : Row F) (hash : String) (at : ℕ)
      → row.tenant_id ≡ str key.tenant_id
      → row.conversation_id ≡ str key.conversation_id
      → row.content_hash ≡ some hash
      → row.provenance.scored_at ≡ some at
      → row_from key (stored_as db row hash at) ≡ as_read row
  row_from-stored_as key row hash at t v h p = rw (sym t, sym v, sym h, sym p) refl

  pub close_job_with_result-IsClosed :
      (key : Key) (row : Row F) (status : JobStatus) (hash : String) (at : ℕ) (s : Store F)
      → is_closing status ≡ true
      → row.tenant_id ≡ str key.tenant_id
      → row.conversation_id ≡ str key.conversation_id
      → row.content_hash ≡ some hash
      → row.provenance.scored_at ≡ some at
      → (s' : Store F) × (close_job_with_result db row status s ≡ ok s')
        × IsClosed key (as_read row) status s s'
  unfolding close_job_with_result get_result
  close_job_with_result-IsClosed key row status hash at s c t v h p = (
    write_result key (stored_as db row hash at) status s,
    rw (c, p, t, v, h),
    record {
      result = ground (
        arith,
        lookup-put key key (stored_as db row hash at) s.results,
        key_beq_iff key key,
        row_from-stored_as key row hash at t v h p,
      );
      job = view-set_status_self key status s.jobs;
      other_results = λ k n.
          ground (arith, lookup-put key k (stored_as db row hash at) s.results, key_beq_iff key k);
      other_jobs = λ k n. view-set_status_other key k status s.jobs n;
      blobs = refl;
      keys = λ unique. UniqueKeys-update key (set_status status) s.jobs unique;
    },
  )
