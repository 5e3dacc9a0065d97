-- ===== src/System/Unstuck/Rounds.antt =====
-- queue.py and worker.py: a worker that ends in each round makes the open jobs lighter.
use Prim.Native.String.{◌++◌ as ◌⧺◌}
use sb_poc.Prelude.{
  ℕ, suc, ◌≤◌, ◌<◌, String, String_eq, pos, true, false, some, List, [], ◌∷◌, ◌≡◌, ◌≢◌, refl, ap,
  ◌∙◌, Result, ok, exceeds, arith, Bool-cases, inl, inr, lookup, Option-cases,
}
use sb_poc.Text.{Unicode, show}
use sb_poc.Float.{Float}
use sb_poc.Config.{Config}
use sb_poc.Metrics.{TurnScore}
use sb_poc.Hashing.{Digest}
use sb_poc.Row.{Row, DateTime, max_delivery_exceeded}
use sb_poc.Queue.{
  Key, Key_eq, key_beq_iff, own_or_other, ClaimedJob, JobView, dead, IsClaim, claims, is_claimable,
  claim_view,
}
use sb_poc.Queue.Postgres.{Job, Jobs, view, claim_unlocked}
use sb_poc.Queue.Postgres.Claims.{claim_unlocked-IsClaim}
use sb_poc.Queue.Postgres.Complete.{claim_unlocked_complete}
use sb_poc.Store.{Database, Store}
use sb_poc.Store.Results.{as_read, IsClosed, close_job_with_result-IsClosed}
use sb_poc.Worker.{rejected_job}
use sb_poc.Worker.Open.{open_at, among, is_claimable-is_open}
use sb_poc.System.{idle, working, claim_batch, poison, close_job, crash}
use sb_poc.System.Sound.{IsSound}
use sb_poc.System.Moves.{rejected_job-CanClose}
use sb_poc.System.Alone.{here, then_move}
use sb_poc.System.Timed.{Timed}
use sb_poc.System.Leases.{latest, claim_end-le-latest, open-claimable}
use sb_poc.System.Rounds.{Goes}
use sb_poc.System.Unstuck.Weights.{
  weight, weight-claim_view, weight-claim_view_less, weight-open, total, total-lt,
}

module _ (f : Float) (u : Unicode) (d : Digest)
    (score_texts : List String → Result (List (TurnScore f.F))) (db : Database f.F)
    (cfg : Config f.F) where
  open f use {F}

  abbrev pub weigh : Store F → Key → ℕ
  weigh s k = weight cfg.max_delivery (view k s.jobs)

  -- A claim at a time when all leases are over.
  module _ (s : Store F) (now : ℕ) (job : ClaimedJob) (jobs : List ClaimedJob) (rows : Jobs)
      (c : IsClaim view now cfg.lease_seconds s.jobs rows (job ∷ jobs)) where
    abbrev held : Store F
    held = record s { jobs = rows }

    held-weigh : (k : Key) → weigh held k ≤ weigh s k
    held-weigh k = elim (Bool-cases (claims k (job ∷ jobs))) [
      | inl taken ↦
          let lighter =
            weight-claim_view cfg.max_delivery now now cfg.lease_seconds (view k s.jobs)
              (c.claimable k taken) in
          rw (c.effect k, taken) lighter
      | inr other ↦ rw (c.effect k, other) (omega arith)
    ]

    first_claimed : claims job.key (job ∷ jobs) ≡ true
    first_claimed = ground (arith, key_beq_iff job.key job.key)

    first_open : 0 < weigh s job.key
    first_open =
        weight-open cfg.max_delivery now cfg.lease_seconds (view job.key s.jobs)
          (c.claimable job.key first_claimed)

    first_was_open : open_at s job.key ≡ true
    first_was_open =
        is_claimable-is_open now cfg.lease_seconds (view job.key s.jobs)
          (c.claimable job.key first_claimed)

    -- The first job before the claim and after it.
    first_view :
        (v : JobView) × (view job.key s.jobs ≡ some v)
        × (view job.key rows ≡ some (claim_view now v))
        × (job.delivery_count ≡ (claim_view now v).delivery_count)
    first_view = elim (Option-cases (view job.key s.jobs)) [
      | inl gone ↦
          let able = c.claimable job.key first_claimed in absurd (ground (arith, gone, able))
      | inr (v, there) ↦
          let after : view job.key rows ≡ some (claim_view now v) =
            ground (arith, c.effect job.key, first_claimed, there) in
          let (x, shown, handed) = c.handed_out.0 in
          let same : x ≡ claim_view now v = ground (arith, shown, after) in
          (
            v,
            there,
            after,
            ap (λ j. j.delivery_count) handed ∙ ap (λ (y : JobView). y.delivery_count) same,
          )
    ]

    -- Not delivered too often: the claim alone makes the first job lighter.
    held_lighter :
        exceeds job.delivery_count cfg.max_delivery ≡ false → weigh held job.key < weigh s job.key
    held_lighter e =
        let (v, before, after, n) = first_view in
        let able : is_claimable now cfg.lease_seconds v ≡ true =
          rw before at (c.claimable job.key first_claimed) in
        rw (after, before)
          (weight-claim_view_less cfg.max_delivery now now cfg.lease_seconds v able (rw n at e))

    -- Delivered too often: the first job is closed, and weighs nothing.
    closed_lighter :
        (row : Row F) (t : Store F)
        → IsClosed job.key row dead held t
        → ((k : Key) → weigh t k ≤ weigh s k) × (weigh t job.key < weigh s job.key)
    closed_lighter row t closes =
        let (v, before, after, n) = first_view in
        let own : weigh t job.key ≡ 0 = ground (arith, closes.job, after) in
        (
          λ k.
              own_or_other (λ x. weigh t x ≤ weigh s x) job.key k (rw own (omega arith))
                (λ ne. rw (closes.other_jobs k ne) (held-weigh k)),
          rw own first_open,
        )

  -- One round: a claim, and then the end of the process, but for a job that was delivered too often.
  abbrev pub Lightens : List Key → Store F → Store F → Type 0
  Lightens ks s t =
      Goes f u d score_texts db cfg s idle t idle
      × ((k : Key) → weigh t k ≤ weigh s k)
      × (total (weigh t) ks < total (weigh s) ks)

  module _ (ks : List Key) (s : Store F) (now : ℕ) (job : ClaimedJob) (jobs : List ClaimedJob)
      (rows : Jobs) (wid : String)
      (claimed : claim_unlocked (λ k. false) now wid cfg.claim_batch cfg.lease_seconds s.jobs
        ≡ ok (job ∷ jobs, rows))
      (c : IsClaim view now cfg.lease_seconds s.jobs rows (job ∷ jobs))
      (covered : among job.key ks ≡ true) where
    claimed-Goes :
        Goes f u d score_texts db cfg s idle (record s { jobs = rows }) (working (job ∷ jobs))
    claimed-Goes = then_move here (claim_batch (λ k. false) now wid claimed)

    claimed-Lightens : (at : DateTime) → (t : Store F) × Lightens ks s t
    claimed-Lightens at = elim (Bool-cases (exceeds job.delivery_count cfg.max_delivery)) [
      | inr fine ↦ (
        record s { jobs = rows },
        (
          then_move claimed-Goes crash,
          held-weigh s now job jobs rows c,
          total-lt _ _ job.key ks (held-weigh s now job jobs rows c)
              (held_lighter s now job jobs rows c fine) covered,
        ),
      )
      | inl often ↦
          let detail = "delivery_count=" ⧺ show job.delivery_count in
          let row = rejected_job cfg at job max_delivery_exceeded detail in
          let can = rejected_job-CanClose cfg at job max_delivery_exceeded detail in
          let (t, e, closes) =
            close_job_with_result-IsClosed db job.key row dead can.hash can.at
              (record s { jobs = rows }) can.closes can.tenant can.conversation can.has_hash
              can.has_time in
          let (lighter, less) = closed_lighter s now job jobs rows c (as_read db row) t closes in
          (
            t,
            (
              then_move (then_move (then_move claimed-Goes (poison at often)) (close_job e)) crash,
              lighter,
              total-lt _ _ job.key ks lighter less covered,
            ),
          )
    ]

  -- An open job, and a claim of at least one job when all leases are over.
  module _ (ks : List Key) (s : Store F) (n : ℕ) (batch : cfg.claim_batch ≡ pos (suc n))
      (i : IsSound d s) (timed : Timed s)
      (covers : (k : Key) → open_at s k ≡ true → among k ks ≡ true) where
    abbrev over : ℕ
    over = latest cfg.lease_seconds s.jobs

    -- A job that is open can be claimed.
    open-able :
        (k : Key) (j : Job)
        → lookup k s.jobs ≡ some j
        → open_at s k ≡ true
        → is_claimable over cfg.lease_seconds j.shown ≡ true
    open-able k j there open_there =
        let shown : view k s.jobs ≡ some j.shown = rw there refl in
        open-claimable cfg.lease_seconds over j.shown (rw shown at open_there)
          (rw shown at (timed k)) (claim_end-le-latest cfg.lease_seconds k j.shown s.jobs shown)

    not_empty :
        (wid : String) (k : Key) (rows : Jobs)
        → open_at s k ≡ true
        → claim_unlocked (λ k. false) over wid (pos (suc n)) cfg.lease_seconds s.jobs
          ≢ ok ([], rows)
    not_empty wid k rows open_there e = elim (Option-cases (lookup k s.jobs)) [
      | inl gone ↦ absurd (ground (arith, gone, open_there))
      | inr (j, there) ↦
          let able = open-able k j there open_there in
          let left_over =
            claim_unlocked_complete (λ k. false) over n cfg.lease_seconds wid s.jobs rows k j e
              there refl in
          absurd (cc (able, left_over))
    ]

    round-Lightens :
        (wid : String) (at : DateTime) (k : Key)
        → open_at s k ≡ true
        → (jobs : List ClaimedJob) (rows : Jobs)
        → claim_unlocked (λ k. false) over wid (pos (suc n)) cfg.lease_seconds s.jobs
          ≡ ok (jobs, rows)
        → IsClaim view over cfg.lease_seconds s.jobs rows jobs
        → (t : Store F) × Lightens ks s t
    round-Lightens wid at k open_there [] rows e c = absurd (not_empty wid k rows open_there e)
    round-Lightens wid at k open_there (job ∷ jobs) rows e c =
        claimed-Lightens ks s over job jobs rows wid
          (ap (λ z. claim_unlocked (λ k. false) over wid z cfg.lease_seconds s.jobs) batch ∙ e) c
          (covers job.key (first_was_open s over job jobs rows c)) at

    -- Where a job is open, a round makes the jobs lighter.
    pub some_round :
        (wid : String) (at : DateTime) (k : Key)
        → open_at s k ≡ true
        → (t : Store F) × Lightens ks s t
    some_round wid at k open_there =
        let (jobs, rows, e, c, _, _, _) =
          claim_unlocked-IsClaim (λ k. false) over (suc n) cfg.lease_seconds wid s.jobs i.unique in
        round-Lightens wid at k open_there jobs rows e c
