-- ===== src/Lib.antt =====
-- The conversation scoring pipeline (src/pipeline), as a model over the definitions of its Python code.
--
-- A document is ingested, claimed by a worker, scored and stored. `ingest_directory` reads the files of
-- a directory, stores each document with its content hash and enqueues a job for it. `run` claims
-- batches of jobs from a queue and gives each to `process_one`, which rejects a job that was delivered
-- too often, skips one that has its result, and otherwise reads the stored document, scores it with
-- `score_conversation` and closes the job with the result in one transaction. `score_conversation`
-- validates the document, sends the texts of its turns to the scorer in batches and computes two
-- metrics over the customer's turns.
--
-- The files, and what they translate:
--   Schema     src/pipeline/schema.py: parse_conversation, _parse_turn, _coerce_seq, customer_turns
--   Hashing    src/pipeline/hashing.py: content_hash, down to the canonical JSON text; Hashing/Unique
--              reads the text back
--   Config     src/pipeline/config.py: Config, metric_params, from_env and _coerce
--   Metrics    src/pipeline/metrics.py: overall_sentiment and sentiment_trajectory
--   Sentiment  src/pipeline/sentiment.py: Scorer and TurnScore
--   Row        src/pipeline/result.py: score_conversation; scripts/verify_reproducibility.py
--   Queue      src/pipeline/queue.py: the protocol; Queue/Postgres and Queue/Fake its implementations,
--              Queue/History what follows for each job from the calls of either of them
--   Store      src/pipeline/blobstore.py, src/pipeline/resultstore.py over migrations/001_init.sql
--   Worker     src/pipeline/worker.py: process_one and run
--   Ingest     src/pipeline/ingest.py, with the sinks that src/pipeline/cli.py passes to it
--   System     the processes side by side: the steps of src/pipeline/worker.py and src/pipeline/ingest.py
--   Migrate    src/pipeline/migrate.py: apply_migrations
--   Cli        src/pipeline/cli.py: the commands and main
--   Pipeline   src/pipeline/cli.py: ingest, then run --once
--   Bench      scripts/bench.py: load_conversations, replicate, run, percentile and main
--   Dataset    data/make_dataset.py: ts, convo, the documents and the loop that writes them
--   Json, Text, Float, Prelude  JSON values, Python's text functions, float arithmetic, shared types
--   Tests      sample inputs on which the theorems are applied
--
-- Concurrency. Workers and ingest runs share the tables. `System` gives each process a position, where it
-- stands between two transactions with its local variables, and has one step for each transaction; a
-- schedule is any sequence of steps, and a process may end at any point. `Worker` and `Ingest` are the
-- same code as functions, for one process that is not disturbed; System/Alone and System/Rounds take their
-- runs apart into steps.
--
-- State and errors. Every table, and the queue in memory, is an association list with one row for a key,
-- in insertion order; an operation takes the old state and returns the new one. A transaction is one
-- step. An exception is a value of `Result`, and a step that raises leaves no new state. The clock is an
-- argument: a number of microseconds for the database, a `DateTime` for Python. Timestamps in a row are
-- kept as the second that they name.
--
-- Parameters. A float arithmetic (`Float`, with the laws in `FloatLaws`, which the integers satisfy)
-- with its rounding to integers (`Rounding`) and the reading of a float, the Unicode tables (`Unicode`),
-- SHA-256 (`Digest`), the tokenizer and the model (`Classifier`), what JSONB and psycopg do to a document,
-- to a float in a result and to a value for a text column (`Database`, with `DatabaseLaws`), the locks
-- that other transactions hold, the effect of a text of SQL and the order of texts in the database, the
-- environment, the order and the decoding of the files of a directory.
-- Sums run from left to right, as in Python 3.11.
--
-- Fuel. The loop over the batches of texts has the number of texts as its fuel, and each round removes
-- one at least. `show` has more fuel than digits. The loop of `run` takes its fuel as an argument, since
-- without `once` it never returns, and says so when the fuel is spent; with `once` the number of open jobs
-- and one more is enough. The loop of `replicate` has as many rounds as turns are asked for.
--
-- Not modelled: NaN, infinities and overflow, of floats and of the INTEGER column that counts the
-- deliveries; an exception of `json.loads` that the loop of ingest does not catch; a text that UTF-8 or
-- Postgres refuses; the columns of the database that nothing reads (last_error, ingested_at and
-- claimed_by are kept all the same); the order of rows that a query leaves open; the parser of the
-- command line, what is left behind by a command that raises, other than a migration, the connection
-- pool, the download of the model, the texts of SQL, the layout of the benchmark's report, the counts
-- that the generator prints.
pub mod Prelude
pub mod Json
pub mod Text
pub mod Schema
pub mod Float
pub mod Config
pub mod Metrics
pub mod Sentiment
pub mod Hashing
pub mod Row
pub mod Queue
pub mod Store
pub mod Worker
pub mod Ingest
pub mod System
pub mod Pipeline
pub mod Cli
pub mod Bench
pub mod Dataset
pub mod Migrate
pub mod Tests
