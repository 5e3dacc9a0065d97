-- ===== src/Store.antt =====
-- src/pipeline/blobstore.py and resultstore.py over migrations/001_init.sql: the database, the durable
-- copies of the documents and the results.
pub mod Results
pub mod Documents
use Prim.Native.String.{◌++◌ as ◌⧺◌}
use sb_poc.Prelude.{
  ℕ, String, String_eq, Bool, true, false, Option, none, some, List, map, Table, lookup, put,
  update, map_option, ◌==◌, ◌≡◌, Result, ok, raise, value_error, not_null_violation,
  attribute_error, ◌>>=◌, if◌then◌else◌,
}
use sb_poc.Json.{Value, null, bool, int, float, str, arr, obj, Fields, get}
use sb_poc.Config.{MetricParams}
use sb_poc.Metrics.{Overall, Trajectory}
use sb_poc.Schema.{DroppedTurn}
use sb_poc.Row.{Row, RowStatus, PerTurn, RowError, Provenance}
use sb_poc.Queue.{Key, Key_eq, JobStatus, queued, claimed, done, dead}
use sb_poc.Queue.Postgres.{Job, Jobs, set_status}

-- Postgres and psycopg, as far as they are not plain tables.
pub record Database (F : Type 0) : Type 0 where
  -- what reading a JSONB column gives for a document that was written
  pub jsonb : Value → Value
  -- ... and for a float that was written in one, in whatever value it stands
  pub jsonb_float : F → F
  -- a value other than a text and null that is written to a TEXT column
  pub adapt : Value → Result String

-- A JSONB column keeps a string, and the value under each key of an object.
pub record DatabaseLaws {F : Type 0} (db : Database F) : Type 0 where
  pub jsonb_str : (s : String) → db.jsonb (str s) ≡ str s
  pub jsonb_obj :
      (fs : Fields)
      → (gs : Fields) × (db.jsonb (obj fs) ≡ obj gs)
        × ((k : String) → get k gs ≡ db.jsonb (get k fs))

-- A row of `conversation_blobs`.
pub record Blob : Type 0 where
  pub content_hash : String
  pub raw : Value
  pub ingested_at : ℕ

-- A row of `results`, its JSONB columns as they are read back; `scored_at` is the second that the
-- timestamp names.
pub record StoredResult (F : Type 0) : Type 0 where
  pub content_hash : String
  pub status : RowStatus
  pub overall_sentiment : Option (Overall F)
  pub sentiment_trajectory : Option (Trajectory F)
  pub per_turn : List (PerTurn F)
  pub dropped_turns : List DroppedTurn
  pub error : Option RowError
  pub schema_version : String
  pub model_name : String
  pub model_revision : String
  pub params : MetricParams F
  pub scored_at : ℕ

-- The tables.
pub record Store (F : Type 0) : Type 0 where
  pub blobs : Table Key Blob
  pub jobs : Jobs
  pub results : Table Key (StoredResult F)
  -- filename and error
  pub dead_letters : Table String String

unfoldable pub blob_key : Key → String
blob_key k = k.tenant_id ⧺ "/" ⧺ k.conversation_id

abbrev pub has_blob_hash : String → Option Blob → Bool
has_blob_hash h none = false
has_blob_hash h (some b) = b.content_hash == h

module _ {F : Type 0} where
  -- INSERT ... ON CONFLICT DO UPDATE ... WHERE the content hash differs
  unfoldable pub upsert_blob : Database F → ℕ → Key → String → Value → Store F → Store F
  unfolding lookup put
  upsert_blob db now key content_hash raw s =
      if has_blob_hash content_hash (lookup key s.blobs) then s else record s {
        blobs =
            put key (record { content_hash = content_hash; raw = db.jsonb raw; ingested_at = now })
              s.blobs;
      }

  unfoldable pub get_blob : Key → Store F → Option Blob
  unfolding lookup
  get_blob key s = lookup key s.blobs

-- A value for a TEXT NOT NULL column.
unfoldable pub text_column : {F : Type 0} → Database F → Value → Result String
text_column db (str s) = ok s
text_column db null = raise not_null_violation
text_column db v = db.adapt v

abbrev pub hash_column : Option String → Result String
hash_column none = raise not_null_violation
hash_column (some h) = ok h

-- `_parse_iso_z`: there is no `replace` on `None`.
abbrev pub parse_iso_z : Option ℕ → Result ℕ
parse_iso_z none = raise attribute_error
parse_iso_z (some t) = ok t

-- `job_status not in ("done", "dead")`
abbrev pub is_closing : JobStatus → Bool
is_closing done = true
is_closing dead = true
is_closing _ = false

module _ {F : Type 0} where
  -- `Jsonb(row[...])` read back: texts, integers, truth values and null are kept, a float is what the
  -- database makes of it.
  abbrev pub jsonb_overall : Database F → Overall F → Overall F
  jsonb_overall db o = record o { score = db.jsonb_float o.score }

  abbrev pub jsonb_trajectory : Database F → Trajectory F → Trajectory F
  jsonb_trajectory db t = record t {
    value = db.jsonb_float t.value;
    slope = db.jsonb_float t.slope;
  }

  abbrev pub jsonb_turn : Database F → PerTurn F → PerTurn F
  jsonb_turn db t = record t {
    score = map_option db.jsonb_float t.score;
    confidence = map_option db.jsonb_float t.confidence;
  }

  abbrev pub jsonb_params : Database F → MetricParams F → MetricParams F
  jsonb_params db p = record p {
    overall_lambda = db.jsonb_float p.overall_lambda;
    overall_label_threshold = db.jsonb_float p.overall_label_threshold;
    trajectory_b = db.jsonb_float p.trajectory_b;
  }

  abbrev pub stored_as : Database F → Row F → String → ℕ → StoredResult F
  stored_as db row hash at = record {
    content_hash = hash;
    status = row.status;
    overall_sentiment = map_option (jsonb_overall db) row.overall_sentiment;
    sentiment_trajectory = map_option (jsonb_trajectory db) row.sentiment_trajectory;
    per_turn = map (jsonb_turn db) row.per_turn;
    dropped_turns = row.dropped_turns;
    error = row.error;
    schema_version = row.schema_version;
    model_name = row.provenance.model_name;
    model_revision = row.provenance.model_revision;
    params = jsonb_params db row.params;
    scored_at = at;
  }

  -- The upsert of the result and the update of the job, which commit together.
  abbrev pub write_result : Key → StoredResult F → JobStatus → Store F → Store F
  write_result key result status s = record s {
    results = put key result s.results;
    jobs = update key (set_status status) s.jobs;
  }

  -- One transaction: an exception leaves the tables as they were.
  unfoldable pub close_job_with_result : Database F → Row F → JobStatus → Store F → Result (Store F)
  unfolding text_column put update
  close_job_with_result db row job_status s =
      if is_closing job_status
      then (do
        at ← parse_iso_z row.provenance.scored_at
        tenant ← text_column db row.tenant_id
        conversation ← text_column db row.conversation_id
        hash ← hash_column row.content_hash
        let key : Key = record { tenant_id = tenant; conversation_id = conversation }
        ok (write_result key (stored_as db row hash at) job_status s))
      else raise value_error

  abbrev pub row_from : Key → StoredResult F → Row F
  row_from key r = record {
    tenant_id = str key.tenant_id;
    conversation_id = str key.conversation_id;
    content_hash = some r.content_hash;
    schema_version = r.schema_version;
    provenance = record {
      model_name = r.model_name;
      model_revision = r.model_revision;
      scored_at = some r.scored_at;
    };
    params = r.params;
    status = r.status;
    overall_sentiment = r.overall_sentiment;
    sentiment_trajectory = r.sentiment_trajectory;
    per_turn = r.per_turn;
    dropped_turns = r.dropped_turns;
    error = r.error;
  }

  unfoldable pub get_result : Key → Store F → Option (Row F)
  unfolding lookup
  get_result key s = map_option (row_from key) (lookup key s.results)
