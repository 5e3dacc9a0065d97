-- ===== src/System/Unstuck/Closed.antt =====
-- queue.py and worker.py side by side: no job is open for ever, whatever its document is.
use sb_poc.Prelude.{
  ℕ, zero, suc, ◌≤◌, ◌<◌, String, pos, true, false, none, some, List, ◌≡◌, sym, subst, Result,
  arith, Bool-cases, inl, inr, Option-cases, String_eq,
}
use sb_poc.Text.{Unicode}
use sb_poc.Float.{Float}
use sb_poc.Config.{Config}
use sb_poc.Metrics.{TurnScore}
use sb_poc.Hashing.{Digest}
use sb_poc.Row.{Row, DateTime}
use sb_poc.Queue.{Key}
use sb_poc.Queue.Postgres.{view}
use sb_poc.Store.{Database, DatabaseLaws, Store, get_result}
use sb_poc.Worker.Open.{open_at, is_closed, among}
use sb_poc.Worker.Covered.{keys_of, open_among}
use sb_poc.System.{Pc, idle, System, Reach}
use sb_poc.System.Sound.{has_job, IsSound, Fits, Keeps, Keeps-refl, Keeps-trans}
use sb_poc.System.Safety.{Reach-IsConsistent}
use sb_poc.System.Moves.{Move-Keeps}
use sb_poc.System.Alone.{here, then_move}
use sb_poc.System.Timed.{Timed, Move-Timed, Reach-Timed}
use sb_poc.System.Leases.{open_or_closed}
use sb_poc.System.Single.{Alone, GetsTo-Goes, restarted}
use sb_poc.System.Rounds.{Goes, Goes-trans}
use sb_poc.System.Unstuck.Weights.{weight-is_open, total, any_among}
use sb_poc.System.Unstuck.Rounds.{weigh, some_round}

module _ (f : Float) (u : Unicode) (d : Digest)
    (score_texts : List String → Result (List (TurnScore f.F))) (db : Database f.F)
    (cfg : Config f.F) (laws : DatabaseLaws db) where
  open f use {F}

  -- Steps keep the tables sound, lose nothing, and keep the times of the claims.
  Goes-Keeps :
      {s : Store F} {p : Pc F} {t : Store F} {q : Pc F}
      → Goes f u d score_texts db cfg s p t q
      → IsSound d s
      → Fits s p
      → Timed s
      → Keeps d s t × Fits t q × Timed t
  Goes-Keeps {s} here i g h = (Keeps-refl d s i, g, h)
  Goes-Keeps {s} (then_move {t} {v} m step) i g h =
      let (kept, fit, timed) = Goes-Keeps m i g h in
      let (more, fits) = Move-Keeps f u d score_texts db cfg laws step kept.sound fit in
      (
        Keeps-trans d s t v kept more,
        fits,
        Move-Timed f u d score_texts db cfg step kept.sound fit timed,
      )

  still-open :
      (s t : Store F)
      → ((k : Key) → weigh f u d score_texts db cfg t k ≤ weigh f u d score_texts db cfg s k)
      → (k : Key) → open_at t k ≡ true
      → open_at s k ≡ true
  still-open s t lighter k h =
      let some_weight = (weight-is_open cfg.max_delivery (view k t.jobs)).0 h in
      (weight-is_open cfg.max_delivery (view k s.jobs)).1 (omega (arith, lighter k, some_weight))

  -- A job that is not open is closed and has a result.
  shut-has_result :
      (t : Store F)
      → IsSound d t
      → (k : Key) → open_at t k ≡ false
      → has_job t k ≡ true
      → (is_closed (view k t.jobs) ≡ true) × ((row : Row F) × (get_result k t ≡ some row))
  shut-has_result t i k shut h = elim (Option-cases (view k t.jobs)) [
    | inl gone ↦ absurd (ground (arith, gone, h))
    | inr (v, there) ↦ elim (open_or_closed v) [
      | inl still ↦ absurd (ground (arith, there, shut, still))
      | inr closed ↦
          let ends : is_closed (view k t.jobs) ≡ true = rw there closed in
          elim (Option-cases (get_result k t)) [
            | inr found ↦ (ends, found)
            | inl missing ↦ absurd (ground (arith, missing, i.closed_results k ends))
          ]
    ]
  ]

  -- Steps after which no job is open.
  abbrev ClosesAll : Store F → Store F → Type 0
  ClosesAll s t =
      Goes f u d score_texts db cfg s idle t idle × Keeps d s t × ((k : Key) → open_at t k ≡ false)

  module _ (ks : List Key) (n : ℕ) (batch : cfg.claim_batch ≡ pos (suc n)) (wid : String)
      (at : DateTime) where
    abbrev Covered : Store F → Type 0
    Covered s = (k : Key) → open_at s k ≡ true → among k ks ≡ true

    none_open :
        (s : Store F)
        → Covered s
        → ((k : Key) → among k ks ≡ true → open_at s k ≡ false)
        → (k : Key) → open_at s k ≡ false
    none_open s covers shut k = elim (Bool-cases (open_at s k)) [
      | inl e ↦ shut k (covers k e)
      | inr e ↦ e
    ]

    rounds :
        (fuel : ℕ) (s : Store F)
        → IsSound d s
        → Timed s
        → Covered s
        → total (weigh f u d score_texts db cfg s) ks < fuel
        → (t : Store F) × ClosesAll s t
    rounds zero s i timed covers h = absurd (omega arith)
    rounds (suc fuel) s i timed covers h = elim (any_among (open_at s) ks) [
      | inr shut ↦ (s, (here, Keeps-refl d s i, none_open s covers shut))
      | inl (k, open_there) ↦
          let (t, (steps, lighter, less)) =
            some_round f u d score_texts db cfg ks s n batch i timed covers wid at k open_there in
          let (kept, _, timed') = Goes-Keeps steps i tt timed in
          let (v, (steps', kept', shut)) =
            rounds fuel t kept.sound timed' (λ j o. covers j (still-open s t lighter j o))
              (omega (arith, less, h)) in
          (
            v,
            (
              Goes-trans f u d score_texts db cfg steps steps',
              Keeps-trans d s t v kept kept',
              shut,
            ),
          )
    ]

  -- However workers and ingest runs interleave on a fresh database, and whatever becomes of scoring, if
  -- the batch size is at least one: any one process, started again, can go on while no other moves to
  -- a state in which every job that there was is done or dead and has a result. Nothing is assumed
  -- of the documents: a job whose document ends its worker each time is closed when it has been
  -- delivered too often.
  pub never_stuck :
      {y : System f u d score_texts db cfg}
      → Reach f u d score_texts db cfg y
      → (i n : ℕ) → cfg.claim_batch ≡ pos (suc n)
      → (z : System f u d score_texts db cfg) × Alone f u d score_texts db cfg i y z
        × (z.pc i ≡ idle)
        × ((k : Key)
            → has_job y.tables k ≡ true
            → (is_closed (view k z.tables.jobs) ≡ true)
              × ((row : Row F) × (get_result k z.tables ≡ some row)))
  never_stuck {y} r i n batch =
      let c = Reach-IsConsistent f u d score_texts db cfg laws r in
      let s = y.tables in
      let ks = keys_of s.jobs in
      let (t, (steps, kept, shut)) =
        rounds ks n batch "" (record { local = 0; utc_offset = none })
          (suc (total (weigh f u d score_texts db cfg s) ks)) s c.sound
          (Reach-Timed f u d score_texts db cfg laws r) (λ k h. open_among k s.jobs h)
          (omega arith) in
      let (z, alone, same, stands) =
        GetsTo-Goes f u d score_texts db cfg i y (restarted f u d score_texts db cfg i y) steps in
      (
        z,
        alone,
        stands,
        λ k h.
            subst
              (λ x.
                (is_closed (view k x.jobs) ≡ true) × ((row : Row F) × (get_result k x ≡ some row)))
              (sym same) (shut-has_result t kept.sound k (shut k) (kept.extends.jobs k h)),
      )
