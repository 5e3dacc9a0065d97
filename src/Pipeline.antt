-- ===== src/Pipeline.antt =====
-- src/pipeline/cli.py: `ingest` on a directory, then `run --once`.
pub mod Ingested
pub mod Finished
