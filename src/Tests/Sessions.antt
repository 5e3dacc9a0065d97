-- ===== src/Tests/Sessions.antt =====
-- A sample session, and the printed results.
use Prim.Native.String.{◌++◌ as ◌⧺◌}
use sb_poc.Text.{show}
use sb_poc.Prelude.{
  length, ℕ, ◌≤◌, String, String_eq, ℤ, pos, negsuc, true, Option, none, some, List, [], ◌∷◌, ◌≡◌,
  refl, ap, arith, All, Result, ok, raise, value_error, lookup, ◌==◌, ◌∙◌, Bool-cases, inl, inr,
}
use sb_poc.Float.{max_exact}
use sb_poc.Float.Integers.{integers, integers_laws}
use sb_poc.Config.{Config}
use sb_poc.Config.Env.{from_env, configured, defaults}
use sb_poc.Schema.{ParsedConversation, parse_conversation, parsed, customer_turns}
use sb_poc.Metrics.Scores.{Calibrated}
use sb_poc.Sentiment.{has_scoreable_signal}
use sb_poc.Sentiment.Batches.{own_score}
use sb_poc.Hashing.{key_le}
use sb_poc.Queue.{Key, Key_eq, key_beq_iff}
use sb_poc.Store.{Store, Blob, get_blob}
use sb_poc.Migrate.{MigratedDb, Done}
use sb_poc.Cli.{Output, text, Disk, Session, ingest, run_jobs}
use sb_poc.Cli.Sessions.{IsUsable, loaded_tables, pipeline, session_finishes}
use sb_poc.Pipeline.Finished.{Finished}
use sb_poc.Tests.Samples.{
  ascii, identity, plain_db, plain_db-DatabaseLaws, noon, good-Calibrated, document, key,
}
use sb_poc.Tests.Scoring.{
  few, model, scorer, loads, probabilities_of, model_score, model-score_row, neg_i, pos_i,
}
use sb_poc.Tests.Settings.{float_defaults, whole}
use sb_poc.Tests.Files.{files, clock}
use sb_poc.Tests.Jobs.{always}
use sb_poc.Tests.Pipelines.{no_rows, no_rows-IsSound, one_job, one_blob}

abbrev no_env : String → Option String
no_env name = none

abbrev default_cfg : Config ℤ
unfolding defaults
default_cfg = defaults float_defaults

accepted : from_env ascii whole float_defaults no_env ≡ ok default_cfg
unfolding from_env configured
accepted = refl

abbrev disk : Disk
disk = record { read_json = λ path. raise value_error; directory = λ path. files; migrations = [] }

abbrev session : Session
session = record {
  now = noon;
  database_clock = clock;
  worker_clock = always;
  worker_id = "w1";
  rounds = 2;
}

abbrev nothing_to_do : String → Store ℤ → Result Done × Store ℤ
nothing_to_do sql s = (ok tt, s)

abbrev start : MigratedDb (Store ℤ)
start = record { tables = no_rows; schema_migrations = some [] }

unsure-Calibrated : Calibrated integers (some (negsuc 0), some (pos 0))
unsure-Calibrated = record {
  signed = negsuc 0;
  confidence = pos 0;
  has_signed = refl;
  has_confidence = refl;
  above = refl;
  below = refl;
  nonneg = refl;
}

model-Calibrated :
    (t : String)
    → (own_score ascii model_score t).scored ≡ true
    → Calibrated integers
        ((own_score ascii model_score t).signed, (own_score ascii model_score t).confidence)
model-Calibrated t h = elim (Bool-cases (has_scoreable_signal ascii t)) [
  | inr no_signal ↦ absurd (ground (arith, no_signal, h))
  | inl signal ↦ rw signal (elim (Bool-cases (t == "bad")) [
    | inl b ↦ rw b unsure-Calibrated
    | inr b ↦ rw b good-Calibrated
  ])
]

default-IsUsable : IsUsable integers ascii model scorer default_cfg
unfolding defaults
default-IsUsable = record {
  batch = 31;
  claims = 15;
  neg_i = 0;
  pos_i = 2;
  row = probabilities_of;
  score = model_score;
  has_batch = refl;
  has_claims = refl;
  recency = refl;
  divisor = refl;
  has_neg = neg_i;
  has_pos = pos_i;
  rows = λ ts. refl;
  scores = model-score_row;
  calibrated = model-Calibrated;
}

small :
    (k : Key) (b : Blob) (c : ParsedConversation)
    → get_blob k (
        loaded_tables integers ascii identity model plain_db whole float_defaults key_le
          nothing_to_do disk "data" session no_rows)
      ≡ some b
    → parse_conversation ascii b.raw ≡ parsed c
    → length (customer_turns c) ≤ max_exact
unfolding get_blob lookup
small k b c h p =
    let same : document ≡ b.raw = ground (arith, rw one_blob at h, key_beq_iff key k) in
    few c (ap (parse_conversation ascii) same ∙ p)

session_finishes_example :
    (lines : List (Output ℤ)) × (s1 : MigratedDb (Store ℤ)) × (n : ℕ) × (s2 : MigratedDb (Store ℤ))
    × (pipeline integers ascii identity model plain_db whole float_defaults key_le nothing_to_do
          disk no_env
          (ingest "data")
          session
          start
        ≡ ok (some lines, s1))
    × (pipeline integers ascii identity model plain_db whole float_defaults key_le nothing_to_do
          disk no_env
          (run_jobs true)
          session
          s1
        ≡ ok (some (text ("processed=" ⧺ show n) ∷ []), s2))
    × All (λ x. Finished s2.tables x.load) files
unfolding lookup
session_finishes_example =
    session_finishes integers ascii identity model plain_db whole float_defaults key_le
      nothing_to_do disk plain_db-DatabaseLaws integers_laws no_env default_cfg scorer "data"
      session start accepted loads default-IsUsable no_rows-IsSound (λ k. refl) small
      (omega (arith, one_job))
