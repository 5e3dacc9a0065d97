-- ===== src/System/Recovery.antt =====
-- queue.py and worker.py side by side: whatever was claimed by processes that ended, a worker closes it
-- when the leases are over.
use sb_poc.Prelude.{
  ℕ, ◌≤◌, ◌⊎◌, refl, true, suc, String, String_eq, ℤ, pos, some, List, ◌≡◌, sym, ap, subst, ◌∙◌,
  ℕ_eq, arith, inl, inr, Result, ok, length, Option-cases,
}
use sb_poc.Text.{Unicode}
use sb_poc.Float.{Float}
use sb_poc.Config.{Config}
use sb_poc.Metrics.{TurnScore}
use sb_poc.Hashing.{Digest}
use sb_poc.Row.{Row, DateTime, score_conversation}
use sb_poc.Queue.{
  Key, Key_eq, JobView, JobStatus, queued, claimed, done, dead, lease_over_at, is_claimable,
}
use sb_poc.Queue.Postgres.{view}
use sb_poc.Store.{Database, DatabaseLaws, Blob, Store, get_blob, get_result}
use sb_poc.Worker.{store_queue, store_queue-StoreQueueLaws, run}
use sb_poc.Worker.Open.{open_at, is_closed}
use sb_poc.Worker.Covered.{keys_of, open_among, count_le}
use sb_poc.Worker.Drain.{store_queue-ClaimLaws}
use sb_poc.Worker.Drained.{store_queue-CompleteLaws, Drains, run-Drains}
use sb_poc.System.{System, Reach}
use sb_poc.System.Sound.{has_job, IsSound}
use sb_poc.System.Safety.{Reach-IsConsistent}
use sb_poc.System.Rounds.{run-Goes}
use sb_poc.System.Single.{Alone, GetsTo-Goes, restarted}

-- Every claim of these tables is over at this time.
abbrev pub LeasesOver : {F : Type 0} → ℕ → ℤ → Store F → Type 0
LeasesOver since lease s =
    (k : Key) (v : JobView)
    → view k s.jobs ≡ some v
    → v.status ≡ claimed
    → lease_over_at since lease v.claimed_at ≡ true

claimable_or_closed :
    (since : ℕ) (lease : ℤ) (v : JobView) (st : JobStatus)
    → v.status ≡ st
    → (st ≡ claimed → lease_over_at since lease v.claimed_at ≡ true)
    → (is_claimable since lease v ≡ true) ⊎ (is_closed (some v) ≡ true)
unfolding is_claimable
claimable_or_closed since lease v queued e h = inl (rw e refl)
claimable_or_closed since lease v claimed e h = inl (rw e (h refl))
claimable_or_closed since lease v done e h = inr (rw e refl)
claimable_or_closed since lease v dead e h = inr (rw e refl)

module _ {F : Type 0} (d : Digest) (since : ℕ) (lease : ℤ) (s t : Store F) (i : IsSound d s)
    (over : LeasesOver since lease s) (drains : Drains since lease s t) where
  -- Every job is closed and has a result.
  all_closed :
      (k : Key)
      → has_job s k ≡ true
      → (is_closed (view k t.jobs) ≡ true) × ((row : Row F) × (get_result k t ≡ some row))
  all_closed k h = elim (Option-cases (view k s.jobs)) [
    | inl gone ↦ absurd (ground (arith, gone, h))
    | inr (v, there) ↦
        let shut : is_closed (view k t.jobs) ≡ true =
          elim (claimable_or_closed since lease v v.status refl (over k v there)) [
            | inl able ↦ drains.closes k v there able
            | inr closed ↦ drains.stays k (rw there closed)
          ] in
        elim (Option-cases (get_result k t)) [
          | inr found ↦ (shut, found)
          | inl none_there ↦
              absurd (ground (arith, none_there, drains.results i.closed_results k shut))
        ]
  ]

module _ (f : Float) (u : Unicode) (d : Digest)
    (score_texts : List String → Result (List (TurnScore f.F))) (db : Database f.F)
    (cfg : Config f.F) where
  open f use {F}

  -- However workers and ingest runs interleave on a fresh database, and whatever jobs are claimed by
  -- processes that have ended or stand still: if any one process is started again as a worker with
  -- `once`, while no other moves, at a time when all leases are over, its run returns, whatever the
  -- times of its rounds are from then on, if the batch size is at least one and every stored document
  -- can be scored. Its steps lead to the tables that the run leaves. In these every job that there was
  -- is done or dead and has a result.
  pub recovers :
      (laws : DatabaseLaws db) {y : System f u d score_texts db cfg}
      → Reach f u d score_texts db cfg y
      → (i : ℕ) (clock : ℕ → DateTime) (times : ℕ → ℕ) (wid : String) (n since : ℕ)
      → cfg.claim_batch ≡ pos (suc n)
      → LeasesOver since cfg.lease_seconds y.tables
      → ((round : ℕ) → since ≤ times round)
      → ((k : Key) (b : Blob) (now : DateTime)
          → get_blob k y.tables ≡ some b
          → (row : Row F) × (score_conversation f u d score_texts cfg now b.raw ≡ ok row))
      → (total : ℕ) × (z : System f u d score_texts db cfg) × Alone f u d score_texts db cfg i y z
        × (run f u d score_texts db store_queue cfg clock times true wid
              (suc (length y.tables.jobs))
              0
              0
              y.tables
            ≡ ok (some total, z.tables))
        × ((k : Key)
            → has_job y.tables k ≡ true
            → (is_closed (view k z.tables.jobs) ≡ true)
              × ((row : Row F) × (get_result k z.tables ≡ some row)))
  recovers laws {y} r i clock times wid n since batch over late scores =
      let c = Reach-IsConsistent f u d score_texts db cfg laws r in
      let s = y.tables in
      let (total, t, e, drains) =
        run-Drains f u d score_texts db store_queue store_queue-StoreQueueLaws cfg
          store_queue-ClaimLaws store_queue-CompleteLaws clock times wid n batch (keys_of s.jobs)
          (suc (length s.jobs)) since s late
          (record { keyed = c.sound.keyed; scores = scores; unique = c.sound.unique })
          (λ k h. open_among k s.jobs h) (omega (arith, count_le (open_at s) s.jobs)) in
      let (z, alone, same, _) =
        GetsTo-Goes f u d score_texts db cfg i y (restarted f u d score_texts db cfg i y) (
          run-Goes f u d score_texts db cfg clock times wid (suc (length s.jobs)) 0 0 total s t
            e) in
      (
        total,
        z,
        alone,
        e ∙ ap (λ x. ok (some total, x)) (sym same),
        λ k h.
            subst
              (λ x.
                (is_closed (view k x.jobs) ≡ true) × ((row : Row F) × (get_result k x ≡ some row)))
              (sym same) (all_closed d since cfg.lease_seconds s t c.sound over drains k h),
      )
