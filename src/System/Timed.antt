-- ===== src/System/Timed.antt =====
-- queue.py, worker.py and ingest.py side by side: a claimed job has the time of its claim.
use sb_poc.Prelude.{
  is_some, ℕ, String, String_eq, Bool, true, Option, none, some, List, ◌≡◌, refl, arith, Bool-cases,
  inl, inr, Result, lookup,
}
use sb_poc.Text.{Unicode}
use sb_poc.Float.{Float}
use sb_poc.Config.{Config}
use sb_poc.Metrics.{TurnScore}
use sb_poc.Hashing.{Digest, content_hash}
use sb_poc.Queue.{Key, own_or_other, JobView, JobStatus, claimed, has_hash, close_as}
use sb_poc.Queue.Postgres.{view, pg_queue-QueueLaws}
use sb_poc.Store.{Database, DatabaseLaws, Store, blob_key, is_closing}
use sb_poc.Worker.{store_queue}
use sb_poc.System.{
  Pc, Move, claim_batch, next_round, poison, start, duplicate, mark, not_duplicate, missing, score,
  close_job, crash, store_blob, refuse_file, enqueue_job, System, turn_of, Reach, begin, later,
}
use sb_poc.System.Sound.{IsSound, Fits}
use sb_poc.System.Tables.{claim-IsClaim, close-IsClosed}
use sb_poc.System.Moves.{upsert_blob-jobs}
use sb_poc.System.Safety.{Reach-IsConsistent}

abbrev pub has_claim_time : JobStatus → Option ℕ → Bool
has_claim_time claimed t = is_some t
has_claim_time _ t = true

abbrev pub is_timed : Option JobView → Bool
is_timed none = true
is_timed (some v) = has_claim_time v.status v.claimed_at

-- Every claimed job has the time of its claim.
abbrev pub Timed : {F : Type 0} → Store F → Type 0
Timed s = (k : Key) → is_timed (view k s.jobs) ≡ true

closing-timed :
    (status : JobStatus) (v : JobView)
    → is_closing status ≡ true
    → is_timed (some (close_as status v)) ≡ true
closing-timed status v h = ground arith

module _ {F : Type 0} (s : Store F) (h : Timed s) where
  enqueue-Timed :
      (now : ℕ) (k : Key) (b hash : String) → Timed (store_queue.enqueue now k b hash s).1
  enqueue-Timed now k b hash j = elim (Bool-cases (has_hash hash (view k s.jobs))) [
    | inl e ↦ rw (pg_queue-QueueLaws.enqueue_tracked now k b hash s.jobs e) (h j)
    | inr e ↦
        own_or_other (λ x. is_timed (view x (store_queue.enqueue now k b hash s).1.jobs) ≡ true) k j
          (rw (pg_queue-QueueLaws.enqueue_new now k b hash s.jobs e).1 refl)
          (λ n. rw (pg_queue-QueueLaws.enqueue_other now k j b hash s.jobs n) (h j))
  ]

  mark_done-Timed : (k : Key) → Timed (store_queue.mark_done k s)
  mark_done-Timed k j =
      own_or_other (λ x. is_timed (view x (store_queue.mark_done k s).jobs) ≡ true) k j
        (ground (arith, pg_queue-QueueLaws.mark_done_self k s.jobs))
        (λ n. rw (pg_queue-QueueLaws.mark_done_other k j s.jobs n) (h j))

module _ (f : Float) (u : Unicode) (d : Digest)
    (score_texts : List String → Result (List (TurnScore f.F))) (db : Database f.F)
    (cfg : Config f.F) where
  open f use {F}

  pub Move-Timed :
      {s t : Store F} {p q : Pc F}
      → Move f u d score_texts db cfg s p t q
      → IsSound d s
      → Fits s p
      → Timed s
      → Timed t
  Move-Timed {s} (claim_batch locked now w {jobs} {rows} e) i g h = λ k.
      let (c, _) = claim-IsClaim d s i locked now w _ _ jobs rows e in
      ground (arith, c.effect k, h k)
  Move-Timed {s} next_round i g h = h
  Move-Timed {s} (poison now e) i g h = h
  Move-Timed {s} (start now e) i g h = h
  Move-Timed {s} (duplicate e) i g h = h
  Move-Timed {s} (mark {job}) i g h = mark_done-Timed s h job.key
  Move-Timed {s} (not_duplicate e) i g h = h
  Move-Timed {s} (missing e) i g h = h
  Move-Timed {s} (score e scored) i g h = h
  Move-Timed {s} (close_job {job} {row} {status} {jobs} {s'} e) i g h = λ k.
      let c = close-IsClosed d s i db job row status s' g.0 e in
      own_or_other (λ x. is_timed (view x s'.jobs) ≡ true) job.key k
        (ground (arith, c.job, g.0.closes, closing-timed status)) (λ n. rw (c.other_jobs k n) (h k))
  Move-Timed {s} crash i g h = h
  Move-Timed {s} (store_blob now raw {key} e) i g h =
      λ k. rw (upsert_blob-jobs db now key (content_hash d raw) raw s) (h k)
  Move-Timed {s} (refuse_file name error) i g h = h
  Move-Timed {s} (enqueue_job now {key} {hash}) i g h =
      enqueue-Timed s h now key (blob_key key) hash

  -- In every state that an interleaving reaches, a claimed job has the time of its claim.
  pub Reach-Timed :
      (laws : DatabaseLaws db) {y : System f u d score_texts db cfg}
      → Reach f u d score_texts db cfg y
      → Timed y.tables
  unfolding lookup
  Reach-Timed laws begin = λ k. refl
  Reach-Timed laws (later {y} r (turn_of i move)) =
      let c = Reach-IsConsistent f u d score_texts db cfg laws r in
      Move-Timed move c.sound (c.fits i) (Reach-Timed laws r)
