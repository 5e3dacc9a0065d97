-- ===== src/System/Alone.antt =====
-- worker.py, process_one: its steps, one after the other.
use sb_poc.Prelude.{
  String, Bool, true, false, Option, none, some, List, ◌∷◌, ◌≡◌, refl, ap, Bool-cases, inl, inr,
  if◌then◌else◌, Result, ok, >>=-eq-ok, ok-injective, exceeds, subst,
}
use Prim.Native.String.{◌++◌ as ◌⧺◌}
use sb_poc.Text.{Unicode, show}
use sb_poc.Float.{Float}
use sb_poc.Config.{Config}
use sb_poc.Metrics.{TurnScore}
use sb_poc.Hashing.{Digest}
use sb_poc.Row.{Row, DateTime, max_delivery_exceeded, blob_missing, score_conversation}
use sb_poc.Queue.{ClaimedJob, JobStatus, dead}
use sb_poc.Store.{Database, Blob, Store, get_blob, get_result, close_job_with_result}
use sb_poc.Worker.{
  Outcome, skipped_duplicate, is_duplicate, job_status_of, rejected_job, close, store_queue,
  process_blob, process_one,
}
use sb_poc.System.{
  Pc, working, checking, reading, closing, Move, poison, start, duplicate, mark, not_duplicate,
  missing, score, close_job,
}

module _ (f : Float) (u : Unicode) (d : Digest)
    (score_texts : List String → Result (List (TurnScore f.F))) (db : Database f.F)
    (cfg : Config f.F) where
  open f use {F}

  -- Steps of one process while no other moves.
  pub data Moves (s : Store F) (p : Pc F) : Store F → Pc F → Type 0 where
    here : Moves s p s p
    then_move :
        {t v : Store F} {q r : Pc F}
        → Moves s p t q
        → Move f u d score_texts db cfg t q v r
        → Moves s p v r

  module _ (now : DateTime) (job : ClaimedJob) (jobs : List ClaimedJob) (s s' : Store F)
      (o : Outcome) where
    close-Moves :
        (row : Row F) (status : JobStatus)
        → close db status row s ≡ ok (o, s')
        → Moves s (working (job ∷ jobs)) s (closing job row status jobs)
        → Moves s (working (job ∷ jobs)) s' (working jobs)
    close-Moves row status h m =
        let (t, e, h1) = >>=-eq-ok (close_job_with_result db row status s) _ h in
        let same : t ≡ s' = ap (λ x. x.1) (ok-injective h1) in
        then_move m (close_job (subst (λ x. close_job_with_result db row status s ≡ ok x) same e))

    blob-Moves :
        (x : Option Blob)
        → get_blob job.key s ≡ x
        → process_blob f u d score_texts db store_queue cfg now job s x ≡ ok (o, s')
        → Moves s (working (job ∷ jobs)) s (reading now job jobs)
        → Moves s (working (job ∷ jobs)) s' (working jobs)
    unfolding process_blob
    blob-Moves none e h m =
        close-Moves (rejected_job cfg now job blob_missing "") dead h (then_move m (missing e))
    blob-Moves (some b) e h m =
        let (row, scored, h1) =
          >>=-eq-ok (score_conversation f u d score_texts cfg now b.raw) _ h in
        close-Moves row (job_status_of row.status) h1 (then_move m (score e scored))

    checked-Moves :
        (dup : Bool)
        → is_duplicate job.content_hash (get_result job.key s) ≡ dup
        → (if dup
            then ok (skipped_duplicate, store_queue.mark_done job.key s)
            else process_blob f u d score_texts db store_queue cfg now job s (get_blob job.key s))
          ≡ ok (o, s')
        → Moves s (working (job ∷ jobs)) s (checking now job jobs)
        → Moves s (working (job ∷ jobs)) s' (working jobs)
    checked-Moves true e h m =
        let same : store_queue.mark_done job.key s ≡ s' = ap (λ x. x.1) (ok-injective h) in
        subst (λ t. Moves s (working (job ∷ jobs)) t (working jobs)) same
          (then_move (then_move m (duplicate e)) mark)
    checked-Moves false e h m =
        blob-Moves (get_blob job.key s) refl h (then_move m (not_duplicate e))

    -- What `process_one` does as one function, a worker that no other process disturbs does in steps:
    -- it goes from the head of its loop back to the head with one job fewer, and leaves the same tables.
    pub process_one-Moves :
        process_one f u d score_texts db store_queue cfg now job s ≡ ok (o, s')
        → Moves s (working (job ∷ jobs)) s' (working jobs)
    unfolding process_one
    process_one-Moves h = elim (Bool-cases (exceeds job.delivery_count cfg.max_delivery)) [
      | inl e ↦
          close-Moves
            (rejected_job cfg now job max_delivery_exceeded
              ("delivery_count=" ⧺ show job.delivery_count))
            dead (rw e at h) (then_move here (poison now e))
      | inr e ↦
          checked-Moves (is_duplicate job.content_hash (get_result job.key s)) refl (rw e at h)
            (then_move here (start now e))
    ]
