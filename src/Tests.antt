-- ===== src/Tests.antt =====
-- The pipeline on sample documents, scores, jobs and files.
pub mod Samples
pub mod Documents
pub mod Scoring
pub mod Queues
pub mod Histories
pub mod Jobs
pub mod Files
pub mod Redelivery
pub mod Settings
pub mod Verdicts
pub mod Written
pub mod Systems
pub mod Recoveries
pub mod Migrations
pub mod Pipelines
pub mod Sessions
pub mod Listings
pub mod Benchmarks
pub mod Datasets
