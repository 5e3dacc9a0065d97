-- ===== src/Cli/Sessions.antt =====
-- cli.py: `ingest` and then `run --once`, with a configuration and a scorer that can be used.
use Prim.Native.String.{◌++◌ as ◌⧺◌}
use sb_poc.Prelude.{
  length, ℕ, suc, ◌≤◌, ◌<◌, String, String_eq, pos, Bool, true, false, Option, none, some, List, [],
  ◌∷◌, map, ◌≡◌, refl, All, Result, ok,
}
use sb_poc.Text.{Unicode, show}
use sb_poc.Float.{Float, FloatLaws, max_exact}
use sb_poc.Float.Sums.{IsNonneg}
use sb_poc.Config.{Config}
use sb_poc.Config.Env.{FloatDefaults, from_env}
use sb_poc.Schema.{ParsedConversation, parse_conversation, parsed, customer_turns}
use sb_poc.Metrics.{TurnScore}
use sb_poc.Metrics.Scores.{Calibrated}
use sb_poc.Sentiment.{Classifier, Scorer, item, new_scorer, score_row, or_default}
use sb_poc.Sentiment.Batches.{own_score, score_texts-own_score}
use sb_poc.Hashing.{Digest}
use sb_poc.Row.Total.{score_conversation_total}
use sb_poc.Queue.{Key}
use sb_poc.Store.{Database, DatabaseLaws, Blob, Store, get_blob, upsert_blob}
use sb_poc.Worker.{store_queue}
use sb_poc.Ingest.{insert_dead_letter, ingest_directory}
use sb_poc.Migrate.{MigratedDb, Done}
use sb_poc.System.Sound.{IsSound}
use sb_poc.Pipeline.Ingested.{Unclaimed}
use sb_poc.Pipeline.Finished.{Finished, ingest_then_run}
use sb_poc.Cli.{
  Command, ingest, run_jobs, Output, text, stats_text, Disk, Session, Answer, scoring, cmd_ingest,
  cmd_run, dispatch, main,
}

-- The configuration has positive sizes, a recency weight that is not negative and a divisor other than
-- zero; the model scores each text of a batch by itself, with calibrated scores, under its labels.
pub record IsUsable (f : Float) (u : Unicode) (m : Classifier f.F) (scorer : Scorer)
    (cfg : Config f.F) : Type 0 where
  pub batch : ℕ
  pub claims : ℕ
  pub neg_i : ℕ
  pub pos_i : ℕ
  pub row : String → List f.F
  pub score : String → TurnScore f.F
  pub has_batch : or_default none cfg.batch_size ≡ pos (suc batch)
  pub has_claims : cfg.claim_batch ≡ pos (suc claims)
  pub recency : IsNonneg f cfg.recency_lambda
  pub divisor : f.is_zero cfg.trajectory_divisor ≡ false
  pub has_neg : item scorer.idx_by_label "negative" ≡ ok neg_i
  pub has_pos : item scorer.idx_by_label "positive" ≡ ok pos_i
  pub rows : (ts : List String) → m.probabilities cfg.max_tokens ts ≡ map row ts
  pub scores : (t : String) → score_row f m scorer neg_i pos_i (row t) ≡ ok (score t)
  pub calibrated :
      (t : String)
      → (own_score u score t).scored ≡ true
      → Calibrated f ((own_score u score t).signed, (own_score u score t).confidence)

module _ (f : Float) (u : Unicode) (d : Digest) (m : Classifier f.F) (db : Database f.F)
    (parse_float : String → Result f.F) (floats : FloatDefaults f.F)
    (collate : String → String → Bool) (execute : String → Store f.F → Result Done × Store f.F)
    (disk : Disk) where
  open f use {F}

  -- The tables after `ingest` on the directory at the path.
  abbrev pub loaded_tables : String → Session → Store F → Store F
  loaded_tables path at s =
      (ingest_directory d store_queue (upsert_blob db) (some insert_dead_letter) at.database_clock
        (disk.directory path) s).1

  -- The program with its arguments.
  abbrev pub pipeline :
      (String → Option String)
      → Command
      → Session
      → MigratedDb (Store F)
      → Result (Answer f u d m db parse_float floats collate execute disk)
  pipeline = main f u d m db parse_float floats collate execute disk

  -- When the environment gives a configuration and the model a scorer that are usable, the tables are
  -- sound and no job is claimed: `ingest` on a directory returns, and `run --once` after it returns, if
  -- there are more rounds to look at than jobs and no stored document has more than 2^53 customer
  -- turns. What `run` prints is one line with a number. Then each document of the
  -- directory that has its ids has a result, and its job is done or dead.
  pub session_finishes :
      (laws : DatabaseLaws db) (float_laws : FloatLaws f) (env : String → Option String)
      (cfg : Config F) (scorer : Scorer) (path : String) (at : Session) (s : MigratedDb (Store F))
      → from_env u parse_float floats env ≡ ok cfg
      → new_scorer u m ≡ ok scorer
      → IsUsable f u m scorer cfg
      → IsSound d s.tables
      → Unclaimed s.tables
      → ((k : Key) (b : Blob) (c : ParsedConversation)
          → get_blob k (loaded_tables path at s.tables) ≡ some b
          → parse_conversation u b.raw ≡ parsed c
          → length (customer_turns c) ≤ max_exact)
      → length (loaded_tables path at s.tables).jobs < at.rounds
      → (lines : List (Output F)) × (s1 : MigratedDb (Store F)) × (n : ℕ) × (s2 : MigratedDb
          (Store F))
        × (pipeline env (ingest path) at s ≡ ok (some lines, s1))
        × (pipeline env (run_jobs true) at s1 ≡ ok (some (text ("processed=" ⧺ show n) ∷ []), s2))
        × All (λ x. Finished s2.tables x.load) (disk.directory path)
  unfolding main dispatch cmd_ingest cmd_run
  session_finishes laws float_laws env cfg scorer path at s configured loads usable sound free small
        enough =
      let g = own_score u usable.score in
      let alone =
        score_texts-own_score f u m scorer cfg usable.batch usable.neg_i usable.pos_i usable.row
          usable.score usable.has_batch usable.has_neg usable.has_pos usable.rows usable.scores in
      let score_texts = scoring f u d m db parse_float floats collate execute disk scorer cfg in
      let (n, t, e, finished) =
        ingest_then_run f u d score_texts db laws cfg at.database_clock at.worker_clock
          at.database_clock at.worker_id usable.claims at.rounds (disk.directory path) s.tables
          usable.has_claims sound free
          (λ k b now h.
            score_conversation_total f u d score_texts cfg now g alone float_laws usable.recency
              usable.divisor usable.calibrated b.raw (λ c p. small k b c h p))
          enough in
      (
        text (
              stats_text
                (ingest_directory d store_queue (upsert_blob db) (some insert_dead_letter)
                  at.database_clock (disk.directory path) s.tables).0)
            ∷ [],
        record s { tables = loaded_tables path at s.tables },
        n,
        record s { tables = t },
        rw configured refl,
        rw (configured, loads, e) refl,
        finished,
      )
