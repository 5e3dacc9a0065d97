-- ===== src/System/Safety.antt =====
-- worker.py, ingest.py and cli.py side by side: the states that any interleaving reaches.
use sb_poc.Prelude.{
  is_some, ℕ, ℕ_eq, String, true, false, exceeds, Option, none, some, List, ◌==◌, ◌≡◌, refl, subst,
  Bool-cases, inl, inr, Result, lookup,
}
use sb_poc.Text.{Unicode}
use sb_poc.Float.{Float}
use sb_poc.Config.{Config}
use sb_poc.Metrics.{TurnScore}
use sb_poc.Hashing.{Digest}
use sb_poc.Row.{Row, DateTime}
use sb_poc.Queue.{Key, ClaimedJob}
use sb_poc.Queue.Postgres.{view}
use sb_poc.Store.{Database, DatabaseLaws, Blob, Store, get_blob, get_result}
use sb_poc.Store.Documents.{Carries, IsKeyed}
use sb_poc.System.{
  Pc, checking, reading, Move, claim_batch, next_round, poison, start, duplicate, mark,
  not_duplicate, missing, score, close_job, crash, store_blob, refuse_file, enqueue_job, System,
  set_pc, Step, turn_of, empty, Reach, begin, later,
}
use sb_poc.Worker.Open.{is_closed}
use sb_poc.System.Sound.{IsSound, Fits, Fits-Extends}
use sb_poc.System.Moves.{Move-Keeps}

present : {A : Type 0} (o : Option A) → is_some o ≡ true → (a : A) × (o ≡ some a)
present none h = absurd (cc)
present (some a) h = (a, refl)

module _ (f : Float) (u : Unicode) (d : Digest)
    (score_texts : List String → Result (List (TurnScore f.F))) (db : Database f.F)
    (cfg : Config f.F) (laws : DatabaseLaws db) where
  open f use {F}

  abbrev Systems : Type 0
  Systems = System f u d score_texts db cfg

  -- The tables are sound, and every process stands where it fits.
  pub record IsConsistent (y : Systems) : Type 0 where
    pub sound : IsSound d y.tables
    pub fits : (i : ℕ) → Fits y.tables (y.pc i)

  set_pc-Fits :
      (i j : ℕ) (p : Pc F) (pcs : ℕ → Pc F) (t : Store F)
      → Fits t p
      → Fits t (pcs j)
      → Fits t (set_pc f u d score_texts db cfg i p pcs j)
  set_pc-Fits i j p pcs t own other = elim (Bool-cases (i == j)) [
    | inl e ↦ rw e own
    | inr e ↦ rw e other
  ]

  Step-IsConsistent :
      {y z : Systems} → Step f u d score_texts db cfg y z → IsConsistent y → IsConsistent z
  Step-IsConsistent {y} (turn_of i {t} {p} move) c =
      let (k, own) = Move-Keeps f u d score_texts db cfg laws move c.sound (c.fits i) in
      record {
        sound = k.sound;
        fits = λ j.
            set_pc-Fits i j p y.pc t own (Fits-Extends y.tables t (y.pc j) k.extends (c.fits j));
      }

  empty-IsConsistent : IsConsistent (empty f u d score_texts db cfg)
  unfolding IsKeyed get_blob lookup
  empty-IsConsistent = record {
    sound = record {
      keyed = λ k b h. absurd (cc);
      closed_results = λ k h. absurd (cc);
      job_blobs = λ k h. absurd (cc);
      unique = tt;
    };
    fits = λ i. tt;
  }

  pub Reach-IsConsistent : {y : Systems} → Reach f u d score_texts db cfg y → IsConsistent y
  Reach-IsConsistent begin = empty-IsConsistent
  Reach-IsConsistent (later r step) = Step-IsConsistent step (Reach-IsConsistent r)

  -- However workers and ingest runs interleave on a fresh database, and wherever some of them end, a
  -- job that is done or dead has a result.
  pub closed_has_result :
      {y : Systems}
      → Reach f u d score_texts db cfg y
      → (k : Key) → is_closed (view k y.tables.jobs) ≡ true
      → (row : Row F) × (get_result k y.tables ≡ some row)
  closed_has_result {y} r k h =
      present (get_result k y.tables) ((Reach-IsConsistent r).sound.closed_results k h)

  -- A process that goes on with a job has seen that it is not delivered too often.
  abbrev Allowed : Pc F → Type 0
  Allowed (checking now job jobs) = exceeds job.delivery_count cfg.max_delivery ≡ false
  Allowed (reading now job jobs) = exceeds job.delivery_count cfg.max_delivery ≡ false
  Allowed _ = Unit

  Move-Allowed :
      {s t : Store F} {p q : Pc F} → Move f u d score_texts db cfg s p t q → Allowed p → Allowed q
  Move-Allowed (claim_batch locked now w e) a = tt
  Move-Allowed next_round a = tt
  Move-Allowed (poison now e) a = tt
  Move-Allowed (start now e) a = e
  Move-Allowed (duplicate e) a = tt
  Move-Allowed mark a = tt
  Move-Allowed (not_duplicate e) a = a
  Move-Allowed (missing e) a = tt
  Move-Allowed (score e scored) a = tt
  Move-Allowed (close_job e) a = tt
  Move-Allowed crash a = tt
  Move-Allowed (store_blob now raw e) a = tt
  Move-Allowed (refuse_file name error) a = tt
  Move-Allowed (enqueue_job now) a = tt

  Reach-Allowed : {y : Systems} → Reach f u d score_texts db cfg y → (j : ℕ) → Allowed (y.pc j)
  Reach-Allowed begin j = tt
  Reach-Allowed (later {y} r (turn_of i {t} {p} move)) j = elim (Bool-cases (i == j)) [
    | inl e ↦ rw e (Move-Allowed move (Reach-Allowed r i))
    | inr e ↦ rw e (Reach-Allowed r j)
  ]

  -- However workers and ingest runs interleave on a fresh database, a worker that is about to read the
  -- document of a job that it has claimed finds one, with the ids of the job, and the job was not
  -- delivered more often than is allowed.
  pub reading_finds_blob :
      {y : Systems} {now : DateTime} {job : ClaimedJob} {jobs : List ClaimedJob}
      → Reach f u d score_texts db cfg y
      → (i : ℕ) → y.pc i ≡ reading now job jobs
      → (b : Blob) × (get_blob job.key y.tables ≡ some b)
        × Carries d job.key b.raw
        × (exceeds job.delivery_count cfg.max_delivery ≡ false)
  unfolding IsKeyed
  reading_finds_blob {y} {now} {job} {jobs} r i e =
      let c = Reach-IsConsistent r in
      let fit : Fits y.tables (reading now job jobs) = subst (Fits y.tables) e (c.fits i) in
      let (b, eb) = present (get_blob job.key y.tables) (c.sound.job_blobs job.key fit.0) in
      (b, eb, c.sound.keyed job.key b eb, subst Allowed e (Reach-Allowed r i))
