-- ===== src/Cli.antt =====
-- src/pipeline/cli.py: the commands, on the database and the files of the disk.
pub mod Sorted
pub mod Summary
pub mod Sessions
use Prim.Native.String.{◌++◌ as ◌⧺◌}
use sb_poc.Prelude.{
  sort_by, ℕ, zero, suc, String, String_eq, Bool, true, false, ◌&&◌, ◌||◌, not, Option, none, some,
  List, [], ◌∷◌, map, Table, lookup, put, ◌==◌, if◌then◌else◌, Result, ok, raise, ◌>>=◌,
}
use sb_poc.Json.{Value}
use sb_poc.Text.{Unicode, show}
use sb_poc.Float.{Float}
use sb_poc.Config.{Config}
use sb_poc.Config.Env.{FloatDefaults, from_env}
use sb_poc.Metrics.{TurnScore, Overall, Trajectory}
use sb_poc.Sentiment.{Classifier, Scorer, new_scorer, score_texts}
use sb_poc.Hashing.{Digest}
use sb_poc.Row.{Row, RowStatus, row_scored, row_partial, row_rejected, DateTime, score_conversation}
use sb_poc.Queue.{Key, Key_eq}
use sb_poc.Store.{Database, Store, StoredResult, upsert_blob}
use sb_poc.Worker.{store_queue, run}
use sb_poc.Ingest.{IngestStats, File, insert_dead_letter, ingest_directory}
use sb_poc.Migrate.{SqlFile, MigratedDb, Done, apply_migrations}

-- The commands that the parser accepts, with their arguments.
pub data Command : Type 0 where
  score_file : String → Command
  ingest : String → Command
  run_jobs : Bool → Command
  results : Bool → Command
  migrate : Command

-- A line of JSON of `results`.
pub record ResultLine (F : Type 0) : Type 0 where
  pub tenant_id : String
  pub conversation_id : String
  pub status : String
  pub overall_sentiment : Option (Overall F)
  pub sentiment_trajectory : Option (Trajectory F)

-- What is printed: a text, or a JSON value before `json.dumps`.
pub data Output (F : Type 0) : Type 0 where
  text : String → Output F
  row : Row F → Output F
  result : ResultLine F → Output F

-- What the commands read from the disk.
pub record Disk : Type 0 where
  -- `json.loads(Path(path).read_text(encoding="utf-8"))`
  pub read_json : String → Result Value
  -- the `*.json` of a directory in sorted order
  pub directory : String → List File
  -- the `*.sql` of the migrations
  pub migrations : List SqlFile

abbrev pub status_text : RowStatus → String
status_text row_scored = "scored"
status_text row_partial = "partial"
status_text row_rejected = "rejected"

-- ORDER BY, on a table with the order of its keys
abbrev pub on_keys : {K V : Type 0} → (K → K → Bool) → K × V → K × V → Bool
on_keys le p q = le p.0 q.0

abbrev pub or_zero : Option ℕ → ℕ
or_zero none = 0
or_zero (some n) = n

-- `count(*)` with GROUP BY
unfoldable pub group_counts : List String → Table String ℕ
unfolding lookup put
group_counts [] = []
group_counts (x ∷ xs) = let t = group_counts xs in put x (suc (or_zero (lookup x t))) t

-- `collate` is the order of texts in the database.
module _ (collate : String → String → Bool) where
  -- `ORDER BY tenant_id, conversation_id`
  abbrev pub key_le : Key → Key → Bool
  key_le a b =
      if a.tenant_id == b.tenant_id
      then collate a.conversation_id b.conversation_id
      else collate a.tenant_id b.tenant_id

  module _ {F : Type 0} where
    abbrev pub statuses : Table Key (StoredResult F) → List String
    statuses rows = map (λ r. status_text r.1.status) rows

    -- SELECT status, count(*) FROM results GROUP BY 1 ORDER BY 1
    unfoldable pub summary : Table Key (StoredResult F) → Table String ℕ
    unfolding sort_by group_counts
    summary rows = sort_by (on_keys collate) (group_counts (statuses rows))

    -- SELECT ... FROM results ORDER BY tenant_id, conversation_id
    unfoldable pub listing : Table Key (StoredResult F) → Table Key (StoredResult F)
    unfolding sort_by
    listing rows = sort_by (on_keys key_le) rows

    abbrev pub count_line : String × ℕ → Output F
    count_line (status, n) = text (status ⧺ ": " ⧺ show n)

    abbrev pub line_of : Key × StoredResult F → Output F
    line_of (key, r) = result (record {
      tenant_id = key.tenant_id;
      conversation_id = key.conversation_id;
      status = status_text r.status;
      overall_sentiment = r.overall_sentiment;
      sentiment_trajectory = r.sentiment_trajectory;
    })

    unfoldable pub cmd_results : Bool → Store F → List (Output F)
    unfolding summary listing
    cmd_results summarised s =
        if summarised then map count_line (summary s.results) else map line_of (listing s.results)

-- `", ".join(applied)`
unfoldable pub join_names : List String → String
join_names [] = ""
join_names (x ∷ []) = x
join_names (x ∷ y ∷ ys) = x ⧺ ", " ⧺ join_names (y ∷ ys)

abbrev pub applied_text : List String → String
applied_text [] = "already up to date"
applied_text (x ∷ xs) = "applied: " ⧺ join_names (x ∷ xs)

abbrev pub stats_text : IngestStats → String
stats_text st =
    "files_seen="
    ⧺ show st.files_seen
    ⧺ " enqueued="
    ⧺ show st.enqueued
    ⧺ " already_tracked="
    ⧺ show st.already_tracked
    ⧺ " parse_errors="
    ⧺ show st.parse_errors

-- The clocks that a command reads, the name of its worker, and the rounds of `run` that are looked at.
pub record Session : Type 0 where
  pub now : DateTime
  pub database_clock : ℕ → ℕ
  pub worker_clock : ℕ → DateTime
  pub worker_id : String
  pub rounds : ℕ

module _ (f : Float) (u : Unicode) (d : Digest) (m : Classifier f.F) (db : Database f.F)
    (parse_float : String → Result f.F) (floats : FloatDefaults f.F)
    (collate : String → String → Bool) (execute : String → Store f.F → Result Done × Store f.F)
    (disk : Disk) where
  open f use {F}

  -- What a command prints, if it has returned, and the database after it.
  abbrev pub Answer : Type 0
  Answer = Option (List (Output F)) × MigratedDb (Store F)

  -- `scorer.score_texts(texts)`
  abbrev pub scoring : Scorer → Config F → List String → Result (List (TurnScore F))
  scoring scorer cfg texts = score_texts f u m scorer cfg texts none

  unfoldable pub cmd_score_file : String → Session → Config F → MigratedDb (Store F) → Result Answer
  unfolding new_scorer score_texts score_conversation
  cmd_score_file path at cfg s = do
    raw ← disk.read_json path
    scorer ← new_scorer u m
    printed ← score_conversation f u d (scoring scorer cfg) cfg at.now raw
    ok (some (row printed ∷ []), s)

  unfoldable pub cmd_ingest : String → Session → MigratedDb (Store F) → Answer
  unfolding ingest_directory upsert_blob show
  cmd_ingest path at s =
      let r =
        ingest_directory d store_queue (upsert_blob db) (some insert_dead_letter) at.database_clock
          (disk.directory path) s.tables in
      (some (text (stats_text r.0) ∷ []), record s { tables = r.1 })

  abbrev processed_lines : Option ℕ → Option (List (Output F))
  processed_lines none = none
  processed_lines (some n) = some (text ("processed=" ⧺ show n) ∷ [])

  unfoldable pub cmd_run : Bool → Session → Config F → MigratedDb (Store F) → Result Answer
  unfolding new_scorer score_texts run show
  cmd_run once at cfg s = do
    scorer ← new_scorer u m
    r ←
        run f u d (scoring scorer cfg) db store_queue cfg at.worker_clock at.database_clock once
          at.worker_id at.rounds 0 0 s.tables
    ok (processed_lines r.0, record s { tables = r.1 })

  abbrev migrate_answer : Result (List String) × MigratedDb (Store F) → Result Answer
  migrate_answer (raise e, s) = raise e
  migrate_answer (ok applied, s) = ok (some (text (applied_text applied) ∷ []), s)

  -- `args.func(args)`; an exception ends the program, and what it leaves is the matter of the command.
  unfoldable pub dispatch : Command → Session → Config F → MigratedDb (Store F) → Result Answer
  unfolding cmd_score_file cmd_ingest cmd_run cmd_results apply_migrations
  dispatch (score_file path) at cfg s = cmd_score_file path at cfg s
  dispatch (ingest path) at cfg s = ok (cmd_ingest path at s)
  dispatch (run_jobs once) at cfg s = cmd_run once at cfg s
  dispatch (results summarised) at cfg s = ok (some (cmd_results collate summarised s.tables), s)
  dispatch migrate at cfg s = migrate_answer (apply_migrations execute disk.migrations s)

  -- Each command reads its configuration first.
  unfoldable pub main :
      (String → Option String) → Command → Session → MigratedDb (Store F) → Result Answer
  unfolding from_env dispatch
  main env command at s = do cfg ← from_env u parse_float floats env; dispatch command at cfg s
