-- ===== src/Tests/Samples.antt =====
-- The sample data of the tests, and their stand-ins for the libraries that the pipeline calls.
use sb_poc.Prelude.{
  ◌-◌, String, String_eq, ℤ, pos, negsuc, true, ◌&&◌, ◌||◌, none, some, List, [], ◌∷◌, map, ◌==◌,
  ◌≡◌, refl, if◌then◌else◌, Result, ok, arith, leb, Bool-cases, inl, inr,
}
use sb_poc.Json.{Value, null, str, arr, obj, nil, cons, Fields, end, field}
use sb_poc.Text.{Unicode}
use sb_poc.Float.Integers.{integers}
use sb_poc.Config.{Config}
use sb_poc.Metrics.{TurnScore}
use sb_poc.Metrics.Scores.{Calibrated}
use sb_poc.Sentiment.{unscored}
use sb_poc.Hashing.{Digest}
use sb_poc.Row.{DateTime}
use sb_poc.Queue.{Key, ClaimedJob}
use sb_poc.Queue.Postgres.{Jobs, new_job}
use sb_poc.Store.{Database, DatabaseLaws, Store}

abbrev pub ascii : Unicode
ascii = record {
  decimal = λ c. if leb 48 c && leb c 57 then some (c - 48) else none;
  is_alnum = λ c. (leb 48 c && leb c 57) || (leb 65 c && leb c 90) || (leb 97 c && leb c 122);
  lower = λ s. s;
}

abbrev pub identity : Digest
identity = record { sha256_hex = λ s. s }

-- A database that returns what was written.
abbrev pub plain_db : Database ℤ
plain_db = record { jsonb = λ v. v; jsonb_float = λ x. x; adapt = λ v. ok "" }

pub plain_db-DatabaseLaws : DatabaseLaws plain_db
plain_db-DatabaseLaws = record { jsonb_str = λ s. refl; jsonb_obj = λ fs. (fs, refl, λ k. refl) }

abbrev pub cfg : Config ℤ
cfg = record {
  model_name = "model";
  model_revision = "1";
  max_tokens = pos 256;
  batch_size = pos 2;
  empty_text_policy = "skip";
  recency_lambda = pos 0;
  label_threshold = pos 1;
  trajectory_divisor = pos 1;
  meaningful_min_turns = pos 3;
  roles_in_metrics = "customer" ∷ [];
  score_agent_turns = true;
  lease_seconds = pos 300;
  max_delivery = pos 3;
  claim_batch = pos 2;
  poll_idle_seconds = pos 2;
  database_url = "";
  schema_version = "1.0";
}

abbrev pub noon : DateTime
noon = record { local = 43200000001; utc_offset = some (pos 0) }

abbrev pub good : TurnScore ℤ
good = record {
  scored = true;
  label = some "positive";
  signed = some (pos 1);
  confidence = some (pos 1);
  reason = none;
}

abbrev pub bad : TurnScore ℤ
bad = record {
  scored = true;
  label = some "negative";
  signed = some (negsuc 0);
  confidence = some (pos 1);
  reason = none;
}

-- A scorer that knows one bad word.
abbrev pub score_one : String → TurnScore ℤ
score_one s = if s == "" then unscored else if s == "bad" then bad else good

abbrev pub score_all : List String → Result (List (TurnScore ℤ))
score_all xs = ok (map score_one xs)

pub good-Calibrated : Calibrated integers (some (pos 1), some (pos 1))
good-Calibrated = record {
  signed = pos 1;
  confidence = pos 1;
  has_signed = refl;
  has_confidence = refl;
  above = refl;
  below = refl;
  nonneg = refl;
}

pub bad-Calibrated : Calibrated integers (some (negsuc 0), some (pos 1))
bad-Calibrated = record {
  signed = negsuc 0;
  confidence = pos 1;
  has_signed = refl;
  has_confidence = refl;
  above = refl;
  below = refl;
  nonneg = refl;
}

pub score_one-Calibrated :
    (x : String)
    → (score_one x).scored ≡ true
    → Calibrated integers ((score_one x).signed, (score_one x).confidence)
score_one-Calibrated x h = elim (Bool-cases (x == "")) [
  | inl e ↦ absurd (ground (arith, e, h))
  | inr e ↦ rw e (elim (Bool-cases (x == "bad")) [
    | inl b ↦ rw b bad-Calibrated
    | inr b ↦ rw b good-Calibrated
  ])
]

abbrev pub turn : String → String → Value
turn role text = obj (field "role" (str role) (field "text" (str text) (field "ts" (str "t") end)))

-- Two customer turns, one agent turn, and one without a text.
abbrev pub fields : Fields
fields = field "tenant_id" (str "acme") (
    field "conversation_id" (str "c1") (
      field "turns"
        (arr (
          cons (turn "customer" "bad")
            (cons (turn "agent" "hello") (cons null (cons (turn "customer" "fine") nil)))))
        end))

abbrev pub document : Value
document = obj fields

abbrev pub key : Key
key = record { tenant_id = "acme"; conversation_id = "c1" }

abbrev pub other_key : Key
other_key = record { tenant_id = "acme"; conversation_id = "c2" }

abbrev pub job : ClaimedJob
job = record { key = key; blob_key = "acme/c1"; content_hash = "h"; delivery_count = 1 }

abbrev pub jobs : Jobs
jobs = (key, new_job 5 "acme/c1" "h") ∷ (other_key, new_job 3 "acme/c2" "g") ∷ []

abbrev pub store : Store ℤ
store = record {
  blobs = (key, record { content_hash = "h"; raw = document; ingested_at = 5 }) ∷ [];
  jobs = jobs;
  results = [];
  dead_letters = [];
}
