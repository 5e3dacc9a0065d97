-- ===== src/Worker/Drained.antt =====
-- worker.py, run with once: what it leaves in the jobs table.
use sb_poc.Prelude.{
  is_some, ℕ, suc, ◌≤◌, ◌<◌, String, ℤ, pos, negsuc, true, false, Option, none, some, List, [], ◌≡◌,
  refl, sym, ◌∙◌, ◌⊎◌, inl, inr, Result, ok, raise, arith, Bool-cases, String_eq, lookup,
  Option-cases,
}
use sb_poc.Text.{Unicode}
use sb_poc.Float.{Float}
use sb_poc.Config.{Config}
use sb_poc.Metrics.{TurnScore}
use sb_poc.Hashing.{Digest}
use sb_poc.Row.{DateTime}
use sb_poc.Queue.{
  Key, Key_eq, ClaimedJob, JobView, Queue, IsClaim, claims, is_claimable, is_claimable_at,
  lease_over,
}
use sb_poc.Queue.Postgres.{Jobs, view, claim}
use sb_poc.Queue.Postgres.Complete.{claim_unlocked_complete}
use sb_poc.Store.{Database, Store, get_result}
use sb_poc.Worker.{StoreQueueLaws, store_queue, on_jobs, run}
use sb_poc.Worker.Batch.{AreProcessed, IsReady}
use sb_poc.Worker.Open.{open_at, count, is_closed}
use sb_poc.Worker.Drain.{ClaimLaws, Covers, run-Ends}

-- A claim of at least one job that hands out none has found no claimable job.
pub record CompleteLaws {F : Type 0} (q : Queue (Store F)) : Type 0 where
  pub complete :
      (now n : ℕ) (wid : String) (lease : ℤ) (s s' : Store F)
      → q.claim now wid (pos (suc n)) lease s ≡ ok ([], s')
      → (k : Key) (v : JobView) → view k s.jobs ≡ some v
      → is_claimable now lease v ≡ false

module _ {F : Type 0} where
  empty_claim :
      (s s' : Store F) (r : Result (List ClaimedJob × Jobs))
      → on_jobs s r ≡ ok ([], s')
      → r ≡ ok ([], s'.jobs)
  empty_claim s s' (ok (jobs, rows)) e = cc
  empty_claim s s' (raise x) e = absurd (cc)

  pub store_queue-CompleteLaws : CompleteLaws (store_queue {F = F})
  unfolding claim
  store_queue-CompleteLaws = record {
    complete = λ now n wid lease s s' e k v h. elim (Option-cases (lookup k s.jobs)) [
      | inl none_there ↦ absurd (ground (arith, none_there, h))
      | inr (j, there) ↦
          let over =
            claim_unlocked_complete (λ k. false) now n lease wid s.jobs s'.jobs k j
              (empty_claim s s' _ e) there refl in
          ground (arith, there, h, over)
    ];
  }

-- A job that may be claimed may be claimed later, too.
is_claimable_mono :
    (since now : ℕ) (lease : ℤ) (v : JobView)
    → since ≤ now
    → is_claimable since lease v ≡ true
    → is_claimable now lease v ≡ true
unfolding is_claimable lease_over
is_claimable_mono since now (pos n) v h e = ground arith
is_claimable_mono since now (negsuc n) v h e = ground arith

closed-unclaimable :
    (now : ℕ) (lease : ℤ) (o : Option JobView)
    → is_closed o ≡ true
    → is_claimable_at now lease o ≡ false
unfolding is_claimable
closed-unclaimable now lease none h = refl
closed-unclaimable now lease (some v) h = ground arith

-- The job is closed, or has not been touched.
abbrev Waits : {F : Type 0} → Key → JobView → Store F → Type 0
Waits k v s = (is_closed (view k s.jobs) ≡ true) ⊎ (view k s.jobs ≡ some v)

module _ {F : Type 0} {now : ℕ} {lease : ℤ} (jobs : List ClaimedJob) (s t x : Store F) (k : Key)
    (v : JobView) (c : IsClaim (λ k (y : Store F). view k y.jobs) now lease s t jobs) where
  taken-closed :
      AreProcessed jobs t x → claims k jobs ≡ true → Waits k v s → is_closed (view k x.jobs) ≡ true
  taken-closed p taken (inl shut) =
      absurd
        (ground (arith, closed-unclaimable now lease (view k s.jobs) shut, c.claimable k taken))
  taken-closed p taken (inr same) = p.ends k taken (ground (arith, c.effect k, taken, same))

  round-Waits : AreProcessed jobs t x → Waits k v s → Waits k v x
  round-Waits p w = elim (Bool-cases (claims k jobs)) [
    | inl taken ↦ inl (taken-closed p taken w)
    | inr other ↦
        let same : view k x.jobs ≡ view k s.jobs =
          ground (arith, p.untouched k other, c.effect k, other) in
        rw same w
  ]

-- What a run that drains the queue leaves behind.
pub record Drains {F : Type 0} (since : ℕ) (lease : ℤ) (s s' : Store F) : Type 0 where
  pub closes :
      (k : Key) (v : JobView)
      → view k s.jobs ≡ some v
      → is_claimable since lease v ≡ true
      → is_closed (view k s'.jobs) ≡ true
  pub stays : (k : Key) → is_closed (view k s.jobs) ≡ true → is_closed (view k s'.jobs) ≡ true
  pub results :
      ((k : Key) → is_closed (view k s.jobs) ≡ true → is_some (get_result k s) ≡ true)
      → (k : Key) → is_closed (view k s'.jobs) ≡ true
      → is_some (get_result k s') ≡ true

-- What holds at the head of each round.
record Drained {F : Type 0} (s x : Store F) : Type 0 where
  waits : (k : Key) (v : JobView) → view k s.jobs ≡ some v → Waits k v x
  stays : (k : Key) → is_closed (view k s.jobs) ≡ true → is_closed (view k x.jobs) ≡ true
  results :
      ((k : Key) → is_closed (view k s.jobs) ≡ true → is_some (get_result k s) ≡ true)
      → (k : Key) → is_closed (view k x.jobs) ≡ true
      → is_some (get_result k x) ≡ true

module _ (f : Float) (u : Unicode) (d : Digest)
    (score_texts : List String → Result (List (TurnScore f.F))) (db : Database f.F)
    (q : Queue (Store f.F)) (laws : StoreQueueLaws q) (cfg : Config f.F) (claim_laws : ClaimLaws q)
    (complete_laws : CompleteLaws q) where
  open f use {F}

  start-Drained : (s : Store F) → Drained s s
  start-Drained s = record { waits = λ k v e. inr e; stays = λ k e. e; results = λ h k e. h k e }

  module _ (s x y : Store F) {now : ℕ} {jobs : List ClaimedJob}
      (c : IsClaim (λ k (t : Store F). view k t.jobs) now cfg.lease_seconds x y jobs)
      (kept : y.results ≡ x.results) (w : Drained s x) where
    -- A claim changes no closed job.
    claim-is_closed : (k : Key) → is_closed (view k y.jobs) ≡ is_closed (view k x.jobs)
    claim-is_closed k = elim (Bool-cases (claims k jobs)) [
      | inr other ↦ ground (arith, c.effect k, other)
      | inl taken ↦
          let able = c.claimable k taken in
          let before : is_closed (view k x.jobs) ≡ false =
            elim (Bool-cases (is_closed (view k x.jobs))) [
              | inr e ↦ e
              | inl e ↦
                  absurd (
                    ground
                      (arith, closed-unclaimable now cfg.lease_seconds (view k x.jobs) e, able))
            ] in
          ground (arith, c.effect k, taken, before)
    ]

    claim-results :
        ((k : Key) → is_closed (view k s.jobs) ≡ true → is_some (get_result k s) ≡ true)
        → (k : Key) → is_closed (view k y.jobs) ≡ true
        → is_some (get_result k y) ≡ true
    unfolding get_result
    claim-results h k e = rw kept (w.results h k (sym (claim-is_closed k) ∙ e))

    round-Drained : (z : Store F) → AreProcessed jobs y z → Drained s z
    round-Drained z p = record {
      waits = λ k v e. round-Waits jobs x y z k v c p (w.waits k v e);
      stays = λ k e. p.stays k (claim-is_closed k ∙ w.stays k e);
      results = λ h k e. p.results k (claim-results h k) e;
    }

  -- A claim that finds no job ends the run.
  stop-Drains :
      (since now n : ℕ) (wid : String) (s x y : Store F)
      → since ≤ now
      → q.claim now wid (pos (suc n)) cfg.lease_seconds x ≡ ok ([], y)
      → IsClaim (λ k (t : Store F). view k t.jobs) now cfg.lease_seconds x y []
      → y.results ≡ x.results
      → Drained s x
      → Drains since cfg.lease_seconds s y
  stop-Drains since now n wid s x y late e c kept w = record {
    closes = λ k v there able. elim (w.waits k v there) [
      | inl shut ↦ claim-is_closed s x y c kept w k ∙ shut
      | inr same ↦ absurd (
          ground (
            arith,
            is_claimable_mono since now cfg.lease_seconds v late able,
            complete_laws.complete now n wid cfg.lease_seconds x y e k v same,
          ))
    ];
    stays = λ k h. claim-is_closed s x y c kept w k ∙ w.stays k h;
    results = λ h k h1. claim-results s x y c kept w h k h1;
  }

  -- A worker that runs with `once` and is alone returns, when its fuel is more than the number of open
  -- jobs, its batch size is at least one, the jobs have distinct keys, and every stored document carries
  -- the ids of its key and can be scored. Each job that could be claimed at a time that no round is
  -- before is then done or dead, closed jobs have stayed closed, and if the closed jobs had results
  -- before, all that are closed then have results.
  pub run-Drains :
      (clock : ℕ → DateTime) (times : ℕ → ℕ) (wid : String) (n : ℕ)
      → cfg.claim_batch ≡ pos (suc n)
      → (ks : List Key) (fuel since : ℕ) (s : Store F) → ((r : ℕ) → since ≤ times r)
      → IsReady f u d score_texts db q laws cfg s
      → Covers f u d score_texts db q laws cfg ks s
      → count (open_at s) ks < fuel
      → (total : ℕ) × (s' : Store F) × (run f u d score_texts db q cfg clock times true wid fuel 0 0
            s
          ≡ ok (some total, s'))
        × Drains since cfg.lease_seconds s s'
  run-Drains clock times wid n batch ks fuel since s late r c h =
      run-Ends f u d score_texts db q laws cfg claim_laws clock times wid (suc n) batch ks
        (Drained s) (Drains since cfg.lease_seconds s)
        (λ round x y ready w e claimed kept.
          stop-Drains since (times round) n wid s x y (late round) e claimed kept w)
        (λ round jobs x y z w claimed kept p. round-Drained s x y claimed kept w z p) fuel 0 0 s r c
        (start-Drained s) h
