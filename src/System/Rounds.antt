-- ===== src/System/Rounds.antt =====
-- worker.py, run with once: its rounds as steps, one after the other.
use sb_poc.Prelude.{
  ℕ, zero, suc, String, true, false, Option, some, List, [], ◌∷◌, ◌≡◌, sym, ap, subst, Result, ok,
  raise, >>=-eq-ok, ok-injective,
}
use sb_poc.Text.{Unicode}
use sb_poc.Float.{Float}
use sb_poc.Config.{Config}
use sb_poc.Metrics.{TurnScore}
use sb_poc.Hashing.{Digest}
use sb_poc.Row.{DateTime}
use sb_poc.Queue.{ClaimedJob}
use sb_poc.Queue.Postgres.{Jobs, claim}
use sb_poc.Store.{Database, Store}
use sb_poc.Worker.{on_jobs, store_queue, process_one, process_all, after_claim, run}
use sb_poc.System.{Pc, idle, working, claim_batch, next_round}
use sb_poc.System.Alone.{Moves, here, then_move, process_one-Moves}

on_jobs-eq-ok :
    {F : Type 0} {A : Type 0} (s s' : Store F) (a : A) (r : Result (A × Jobs))
    → on_jobs s r ≡ ok (a, s')
    → (rows : Jobs) × (r ≡ ok (a, rows)) × (record s { jobs = rows } ≡ s')
on_jobs-eq-ok s s' a (ok (b, rows)) e =
    let same : (b, record s { jobs = rows }) ≡ (a, s') = ok-injective e in
    (rows, ap (λ p. ok (p.0, rows)) same, ap (λ p. p.1) same)
on_jobs-eq-ok s s' a (raise x) e = absurd (cc)

module _ (f : Float) (u : Unicode) (d : Digest)
    (score_texts : List String → Result (List (TurnScore f.F))) (db : Database f.F)
    (cfg : Config f.F) where
  open f use {F}

  -- Steps from one place to another.
  abbrev pub Goes : Store F → Pc F → Store F → Pc F → Type 0
  Goes s p t q = Moves f u d score_texts db cfg s p t q

  pub Goes-trans :
      {s t : Store F} {p q : Pc F} {v : Store F} {r : Pc F}
      → Goes s p t q
      → Goes t q v r
      → Goes s p v r
  Goes-trans m here = m
  Goes-trans m (then_move n step) = then_move (Goes-trans m n) step

  process_all-Goes :
      (clock : ℕ → DateTime) (processed n : ℕ) (jobs : List ClaimedJob) (s s' : Store F)
      → process_all f u d score_texts db store_queue cfg clock processed jobs s ≡ ok (n, s')
      → Goes s (working jobs) s' (working [])
  unfolding process_all
  process_all-Goes clock processed n [] s s' h =
      subst (λ t. Goes s (working []) t (working [])) (ap (λ x. x.1) (ok-injective h)) here
  process_all-Goes clock processed n (job ∷ jobs) s s' h =
      let ((o, t), e, rest) =
        >>=-eq-ok (process_one f u d score_texts db store_queue cfg (clock processed) job s) _ h in
      Goes-trans (process_one-Moves f u d score_texts db cfg (clock processed) job jobs s t o e)
        (process_all-Goes clock (suc processed) n jobs t s' rest)

  module _ (clock : ℕ → DateTime) (times : ℕ → ℕ) (wid : String) where
    -- the loop from the round `round` on
    abbrev loop : ℕ → ℕ → ℕ → Store F → Result (Option ℕ × Store F)
    loop fuel round processed s =
        run f u d score_texts db store_queue cfg clock times true wid fuel round processed s

    after_claim-Goes :
        (rest : ℕ → Store F → Result (Option ℕ × Store F)) (processed total : ℕ)
        (jobs : List ClaimedJob) (s s' : Store F)
        → ((m : ℕ) (t : Store F) → rest m t ≡ ok (some total, s') → Goes t idle s' idle)
        → after_claim f u d score_texts db store_queue cfg clock true rest processed jobs s
          ≡ ok (some total, s')
        → Goes s (working jobs) s' idle
    unfolding after_claim
    after_claim-Goes rest processed total [] s s' ih h =
        subst (λ t. Goes s (working []) t idle) (ap (λ x. x.1) (ok-injective h))
          (then_move here next_round)
    after_claim-Goes rest processed total (job ∷ jobs) s s' ih h =
        let ((n, t), e, more) =
          >>=-eq-ok
            (process_all f u d score_texts db store_queue cfg clock processed (job ∷ jobs) s) _ h in
        Goes-trans (then_move (process_all-Goes clock processed n (job ∷ jobs) s t e) next_round)
          (ih n t more)

    -- What `run` with once does, an undisturbed worker does in steps: it goes from between two rounds
    -- to between two rounds, and leaves the same tables.
    pub run-Goes :
        (fuel round processed total : ℕ) (s s' : Store F)
        → loop fuel round processed s ≡ ok (some total, s')
        → Goes s idle s' idle
    unfolding run claim
    run-Goes zero round processed total s s' h = absurd (cc)
    run-Goes (suc fuel) round processed total s s' h =
        let ((jobs, t), e, rest) =
          >>=-eq-ok (store_queue.claim (times round) wid cfg.claim_batch cfg.lease_seconds s) _ h in
        let (rows, claimed, same) = on_jobs-eq-ok s t jobs _ e in
        Goes-trans (then_move here (claim_batch (λ k. false) (times round) wid claimed)) (
          after_claim-Goes (loop fuel (suc round)) processed total jobs (record s { jobs = rows })
            s' (λ m v g. run-Goes fuel (suc round) m total v s' g)
            (subst
              (λ v.
                after_claim f u d score_texts db store_queue cfg clock true (loop fuel (suc round))
                  processed jobs v
                ≡ ok (some total, s'))
              (sym same) rest))
