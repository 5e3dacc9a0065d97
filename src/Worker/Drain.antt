-- ===== src/Worker/Drain.antt =====
-- worker.py, run with once.
use sb_poc.Prelude.{
  ℕ, zero, suc, ◌<◌, String, ℤ, pos, true, false, Option, some, List, [], ◌∷◌, ◌≡◌, refl, ap, ◌∙◌,
  Result, ok, ◌>>=◌, UniqueKeys, arith, String_eq,
}
use sb_poc.Text.{Unicode}
use sb_poc.Float.{Float}
use sb_poc.Config.{Config}
use sb_poc.Metrics.{TurnScore}
use sb_poc.Hashing.{Digest}
use sb_poc.Row.{DateTime}
use sb_poc.Queue.{Key, Key_eq, key_beq_iff, ClaimedJob, Queue, IsClaim, claims}
use sb_poc.Queue.Postgres.{view, claim}
use sb_poc.Queue.Postgres.Claims.{claim_unlocked-IsClaim}
use sb_poc.Store.{Database, Store}
use sb_poc.Worker.{StoreQueueLaws, store_queue, on_jobs, after_claim, run}
use sb_poc.Worker.Batch.{AreProcessed, IsReady, IsReady-step, process_all-AreProcessed}
use sb_poc.Worker.Open.{
  open_at, among, count, count_mono, count_strict, claim-open, claim-open_after,
}

-- A claim of a batch on tables whose jobs have distinct keys returns, does what a claim promises, and
-- keeps the documents, the results and the distinct keys.
pub record ClaimLaws {F : Type 0} (q : Queue (Store F)) : Type 0 where
  pub returns :
      (now n : ℕ) (wid : String) (lease : ℤ) (s : Store F)
      → UniqueKeys s.jobs
      → (jobs : List ClaimedJob) × (s' : Store F) × (q.claim now wid (pos n) lease s
          ≡ ok (jobs, s'))
        × IsClaim (λ k (t : Store F). view k t.jobs) now lease s s' jobs
        × (s'.blobs ≡ s.blobs)
        × (s'.results ≡ s.results)
        × UniqueKeys s'.jobs

module _ {F : Type 0} where
  pub store_queue-ClaimLaws : ClaimLaws (store_queue {F = F})
  unfolding claim
  store_queue-ClaimLaws = record {
    returns = λ now n wid lease s u.
        let (jobs, t, e, c, _, _, u') =
          claim_unlocked-IsClaim (λ k. false) now n lease wid s.jobs u in
        (
          jobs,
          record s { jobs = t },
          ap (on_jobs s) e,
          record { claimable = c.claimable; effect = c.effect; handed_out = c.handed_out },
          refl,
          refl,
          u',
        );
  }

module _ (f : Float) (u : Unicode) (d : Digest)
    (score_texts : List String → Result (List (TurnScore f.F))) (db : Database f.F)
    (q : Queue (Store f.F)) (laws : StoreQueueLaws q) (cfg : Config f.F) where
  open f use {F}

  abbrev Ready : Store F → Type 0
  Ready s = IsReady f u d score_texts db q laws cfg s

  -- All open jobs are among the keys.
  abbrev pub Covers : List Key → Store F → Type 0
  Covers ks s = (k : Key) → open_at s k ≡ true → among k ks ≡ true

  module _ (claim_laws : ClaimLaws q) (clock : ℕ → DateTime) (times : ℕ → ℕ) (wid : String) (n : ℕ)
      (batch : cfg.claim_batch ≡ pos n) (ks : List Key) where
    -- `drain fuel round processed s` is the loop from the round `round` on.
    abbrev drain : ℕ → ℕ → ℕ → Store F → Result (Option ℕ × Store F)
    drain fuel round processed s =
        run f u d score_texts db q cfg clock times true wid fuel round processed s

    -- An invariant of the rounds: it holds at the head of each, and what holds at the end follows
    -- from it when a claim finds no job.
    module _ (Inv End : Store F → Type 0)
        (stop : (round : ℕ) (s t : Store F)
          → Ready s
          → Inv s
          → q.claim (times round) wid (pos n) cfg.lease_seconds s ≡ ok ([], t)
          → IsClaim (λ k (v : Store F). view k v.jobs) (times round) cfg.lease_seconds s t []
          → t.results ≡ s.results
          → End t)
        (round_keeps : (round : ℕ) (jobs : List ClaimedJob) (s t v : Store F)
          → Inv s
          → IsClaim (λ k (x : Store F). view k x.jobs) (times round) cfg.lease_seconds s t jobs
          → t.results ≡ s.results
          → AreProcessed jobs t v
          → Inv v) where
      abbrev Ends : Result (Option ℕ × Store F) → Type 0
      Ends r = (total : ℕ) × (t : Store F) × (r ≡ ok (some total, t)) × End t

      -- What the rounds that follow are known to do.
      abbrev RestEnds : ℕ → (ℕ → Store F → Result (Option ℕ × Store F)) → Type 0
      RestEnds fuel rest =
          (processed : ℕ) (s : Store F)
          → Ready s
          → Covers ks s
          → Inv s
          → count (open_at s) ks < fuel
          → Ends (rest processed s)

      after_claim-Ends :
          (fuel round processed : ℕ) (rest : ℕ → Store F → Result (Option ℕ × Store F))
          (jobs : List ClaimedJob) (s t : Store F)
          → Ready s
          → Ready t
          → Covers ks t
          → Inv s
          → q.claim (times round) wid (pos n) cfg.lease_seconds s ≡ ok (jobs, t)
          → IsClaim (λ k (x : Store F). view k x.jobs) (times round) cfg.lease_seconds s t jobs
          → t.results ≡ s.results
          → count (open_at t) ks < suc fuel
          → RestEnds fuel rest
          → Ends (after_claim f u d score_texts db q cfg clock true rest processed jobs t)
      unfolding after_claim
      after_claim-Ends fuel round processed rest [] s t r r1 c i e claimed kept h ih =
          (processed, t, refl, stop round s t r i e claimed kept)
      after_claim-Ends fuel round processed rest (job ∷ jobs) s t r r1 c i e claimed kept h ih =
          let (m, v, e2, r2, ps) =
            process_all-AreProcessed f u d score_texts db q laws cfg clock processed (job ∷ jobs) t
              r1 in
          let first : claims job.key (job ∷ jobs) ≡ true =
            ground (arith, key_beq_iff job.key job.key) in
          let handed = claim-open_after s t (job ∷ jobs) claimed job.key first in
          let fewer =
            count_strict (open_at t) (open_at v) job.key ks ps.opens handed
              (ps.closes job.key first) (c job.key handed) in
          let (total, x, e3, end) =
            ih m v r2 (λ k o. c k (ps.opens k o))
              (round_keeps round (job ∷ jobs) s t v i claimed kept ps) (omega (arith, fewer, h)) in
          (total, x, rw e2 e3, end)

      pub run-Ends :
          (fuel round processed : ℕ) (s : Store F)
          → Ready s
          → Covers ks s
          → Inv s
          → count (open_at s) ks < fuel
          → Ends (drain fuel round processed s)
      unfolding run
      run-Ends zero round processed s r c i h = absurd (omega arith)
      run-Ends (suc fuel) round processed s r c i h =
          let (jobs, t, e, claimed, b, kept, unique) =
            claim_laws.returns (times round) n wid cfg.lease_seconds s r.unique in
          let fewer = count_mono (open_at s) (open_at t) ks (claim-open s t jobs claimed) in
          let rest = drain fuel (suc round) in
          let (total, x, e2, end) =
            after_claim-Ends fuel round processed rest jobs s t r
              (IsReady-step f u d score_texts db q laws cfg s t b unique r)
              (λ k o. c k (claim-open s t jobs claimed k o)) i e claimed kept
              (omega (arith, fewer, h))
              (λ m v r2 c2 i2 h2. run-Ends fuel (suc round) m v r2 c2 i2 h2) in
          let taken = ap (λ z. q.claim (times round) wid z cfg.lease_seconds s) batch ∙ e in
          (
            total,
            x,
            ap
                  (λ m. m >>= λ y.
                    after_claim f u d score_texts db q cfg clock true rest processed y.0 y.1)
                  taken
                ∙ e2,
            end,
          )

    -- A worker that runs with `once` returns within as many rounds as there are open jobs, and one more,
    -- when its queue keeps the promises of the protocol, its batch size is not negative, the jobs have
    -- distinct keys, and every stored document carries the ids of its key and can be scored.
    pub run-returns :
        (fuel round processed : ℕ) (s : Store F)
        → Ready s
        → Covers ks s
        → count (open_at s) ks < fuel
        → (total : ℕ) × (s' : Store F) × (run f u d score_texts db q cfg clock times true wid fuel
              round processed s
            ≡ ok (some total, s'))
    run-returns fuel round processed s r c h =
        let (total, t, e, _) =
          run-Ends (λ s. Unit) (λ s. Unit) (λ round s t r i e c w. tt)
            (λ round jobs s t v i c w p. tt) fuel round processed s r c tt h in
        (total, t, e)
