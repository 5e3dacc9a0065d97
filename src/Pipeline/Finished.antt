-- ===== src/Pipeline/Finished.antt =====
-- cli.py: the state after `ingest` and `run --once`.
use sb_poc.Prelude.{
  length, ℕ, suc, ◌<◌, String, String_eq, ℤ, pos, true, some, List, [], ◌∷◌, ◌≡◌, arith, inl, inr,
  ◌⊎◌, All, Result, ok, Option-cases,
}
use sb_poc.Text.{Unicode}
use sb_poc.Float.{Float}
use sb_poc.Config.{Config}
use sb_poc.Metrics.{TurnScore}
use sb_poc.Hashing.{Digest}
use sb_poc.Row.{Row, DateTime, score_conversation}
use sb_poc.Queue.{Key, Key_eq, JobView, is_claimable}
use sb_poc.Queue.Postgres.{view}
use sb_poc.Store.{Database, DatabaseLaws, Blob, Store, get_blob, get_result, upsert_blob}
use sb_poc.Worker.{store_queue, store_queue-StoreQueueLaws, run}
use sb_poc.Worker.Open.{open_at, is_closed}
use sb_poc.Worker.Covered.{keys_of, open_among, count_le}
use sb_poc.Worker.Drain.{store_queue-ClaimLaws}
use sb_poc.Worker.Drained.{store_queue-CompleteLaws, Drains, run-Drains}
use sb_poc.Ingest.{
  Load, loaded, unreadable, File, document_key, insert_dead_letter, ingest_directory,
}
use sb_poc.System.Sound.{has_job, IsSound}
use sb_poc.Pipeline.Ingested.{Unclaimed, is_unclaimed, HasJob, ingest_directory-Ingests}

-- A job that no worker holds is closed, or may be claimed at any time.
unclaimed-cases :
    (lease : ℤ) (v : JobView)
    → is_unclaimed (some v) ≡ true
    → (is_claimable 0 lease v ≡ true) ⊎ (is_closed (some v) ≡ true)
unfolding is_claimable
unclaimed-cases lease v h = ground arith

module _ {F : Type 0} where
  -- The document of a load, if it has its ids, has a result, and its job is done or dead.
  abbrev pub Finished : Store F → Load → Type 0
  Finished t (unreadable error) = Unit
  Finished t (loaded raw) =
      (k : Key)
      → document_key raw ≡ some k
      → (is_closed (view k t.jobs) ≡ true) × ((row : Row F) × (get_result k t ≡ some row))

  module _ (d : Digest) (lease : ℤ) (s t : Store F) (i : IsSound d s) (free : Unclaimed s)
      (drains : Drains 0 lease s t) where
    job-is_closed : (k : Key) → has_job s k ≡ true → is_closed (view k t.jobs) ≡ true
    job-is_closed k h = elim (Option-cases (view k s.jobs)) [
      | inl gone ↦ absurd (ground (arith, gone, h))
      | inr (v, there) ↦ elim (unclaimed-cases lease v (rw there at (free k))) [
        | inl able ↦ drains.closes k v there able
        | inr shut ↦ drains.stays k (rw there shut)
      ]
    ]

    load-Finished :
        (db : Database F) (laws : DatabaseLaws db) (load : Load)
        → HasJob d db laws s load
        → Finished t load
    load-Finished db laws (unreadable error) h = tt
    load-Finished db laws (loaded raw) h = λ k e.
        let shut = job-is_closed k (h k e) in
        elim (Option-cases (get_result k t)) [
          | inr found ↦ (shut, found)
          | inl gone ↦ absurd (ground (arith, gone, drains.results i.closed_results k shut))
        ]

    All-Finished :
        (db : Database F) (laws : DatabaseLaws db) (files : List File)
        → All (λ x. HasJob d db laws s x.load) files
        → All (λ x. Finished t x.load) files
    All-Finished db laws [] h = tt
    All-Finished db laws (x ∷ files) h =
        (load-Finished db laws x.load h.0, All-Finished db laws files h.1)

module _ (f : Float) (u : Unicode) (d : Digest)
    (score_texts : List String → Result (List (TurnScore f.F))) (db : Database f.F)
    (laws : DatabaseLaws db) (cfg : Config f.F) where
  open f use {F}

  abbrev pub ingested : (ℕ → ℕ) → List File → Store F → Store F
  ingested at files s =
      (ingest_directory d store_queue (upsert_blob db) (some insert_dead_letter) at files s).1

  -- From tables in which closed jobs have results, jobs have documents stored under their own ids, and
  -- no job is claimed: after `ingest` on a directory, a worker that runs with `once` and is alone
  -- returns, when its fuel is more than the number of jobs, its batch size is at least one and every
  -- stored document can be scored. Then each document of the directory that has its ids has a result,
  -- and its job is done or dead.
  pub ingest_then_run :
      (at : ℕ → ℕ) (clock : ℕ → DateTime) (times : ℕ → ℕ) (wid : String) (n fuel : ℕ)
      (files : List File) (s : Store F)
      → cfg.claim_batch ≡ pos (suc n)
      → IsSound d s
      → Unclaimed s
      → ((k : Key) (b : Blob) (now : DateTime)
          → get_blob k (ingested at files s) ≡ some b
          → (row : Row F) × (score_conversation f u d score_texts cfg now b.raw ≡ ok row))
      → length (ingested at files s).jobs < fuel
      → (total : ℕ) × (t : Store F) × (run f u d score_texts db store_queue cfg clock times true wid
            fuel 0 0
            (ingested at files s)
          ≡ ok (some total, t))
        × All (λ x. Finished t x.load) files
  ingest_then_run at clock times wid n fuel files s batch i free scores enough =
      let (done, jobs) = ingest_directory-Ingests d db laws at files s i in
      let v = ingested at files s in
      let few = count_le (open_at v) v.jobs in
      let (total, t, e, drains) =
        run-Drains f u d score_texts db store_queue store_queue-StoreQueueLaws cfg
          store_queue-ClaimLaws store_queue-CompleteLaws clock times wid n batch (keys_of v.jobs)
          fuel 0 v (λ r. omega arith)
          (record {
            keyed = done.keeps.sound.keyed;
            scores = scores;
            unique = done.keeps.sound.unique;
          })
          (λ k h. open_among k v.jobs h) (omega (arith, few, enough)) in
      (
        total,
        t,
        e,
        All-Finished d cfg.lease_seconds v t done.keeps.sound (done.unclaimed free) drains db laws
            files jobs,
      )
