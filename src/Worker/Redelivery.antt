-- ===== src/Worker/Redelivery.antt =====
-- worker.py, process_one: a job that is delivered a second time.
use sb_poc.Prelude.{
  ℕ, String, String_eq, true, false, Option, none, some, List, eq_iff, ◌≡◌, refl, ap, subst, ◌∙◌,
  Result, ok, >>=-eq-ok, ok-injective, exceeds, arith, Bool-cases, inl, inr,
}
use sb_poc.Json.{str}
use sb_poc.Text.{Unicode}
use sb_poc.Float.{Float}
use sb_poc.Config.{Config}
use sb_poc.Metrics.{TurnScore}
use sb_poc.Hashing.{Digest}
use sb_poc.Row.{
  Row, DateTime, ErrorReason, max_delivery_exceeded, blob_missing, rejected_row, score_conversation,
  hash_of, iso_z,
}
use sb_poc.Row.Status.{score_conversation-IsConsistent}
use sb_poc.Row.Clock.{score_conversation-scored_at}
use sb_poc.Queue.{ClaimedJob, JobStatus, dead, Key, Queue}
use sb_poc.Store.{Database, Blob, Store, is_closing, get_blob, get_result}
use sb_poc.Store.Documents.{IsKeyed}
use sb_poc.Store.Results.{close_job_with_result-IsClosed}
use sb_poc.Worker.{
  Outcome, skipped_duplicate, is_duplicate, job_status_of, StoreQueueLaws, rejected_job, close,
  process_blob, process_one,
}
use sb_poc.Worker.Outcomes.{is_closing-job_status_of}

-- The job has a stored result for its content.
abbrev pub Recorded : {F : Type 0} → ClaimedJob → Store F → Type 0
Recorded job s = is_duplicate job.content_hash (get_result job.key s) ≡ true

-- The document that is stored for the job hashes to the job's content hash.
abbrev pub Matches : {F : Type 0} → Digest → ClaimedJob → Store F → Type 0
Matches d job s = (b : Blob) → get_blob job.key s ≡ some b → hash_of d b.raw ≡ some job.content_hash

module _ {F : Type 0} (db : Database F) (job : ClaimedJob) (s s' : Store F) (o : Outcome) where
  close-Recorded :
      (row : Row F) (st : JobStatus) (at : ℕ)
      → is_closing st ≡ true
      → row.tenant_id ≡ str job.key.tenant_id
      → row.conversation_id ≡ str job.key.conversation_id
      → row.content_hash ≡ some job.content_hash
      → row.provenance.scored_at ≡ some at
      → close db st row s ≡ ok (o, s')
      → Recorded job s'
  close-Recorded row st at c t v h p e =
      let (s1, e1, closes) =
        close_job_with_result-IsClosed db job.key row st job.content_hash at s c t v h p in
      let same : s1 ≡ s' = ap (λ x. x.1) (ok-injective (rw e1 at e)) in
      subst (Recorded job) same
        (rw (closes.result, h) (ground (arith, eq_iff job.content_hash job.content_hash)))

  rejected-Recorded :
      (cfg : Config F) (now : DateTime) (reason : ErrorReason) (detail : String)
      → close db dead (rejected_job cfg now job reason detail) s ≡ ok (o, s')
      → Recorded job s'
  unfolding rejected_row
  rejected-Recorded cfg now reason detail e =
      close-Recorded (rejected_job cfg now job reason detail) dead (iso_z now) refl refl refl refl
        refl e

module _ (f : Float) (u : Unicode) (d : Digest)
    (score_texts : List String → Result (List (TurnScore f.F))) (db : Database f.F)
    (q : Queue (Store f.F)) (laws : StoreQueueLaws q) (cfg : Config f.F) where
  open f use {F}

  module _ (now : DateTime) (job : ClaimedJob) (s s' : Store F) (o : Outcome) (keyed : IsKeyed d s)
      (matches : Matches d job s) where
    scored-Recorded :
        (b : Blob)
        → get_blob job.key s ≡ some b
        → process_blob f u d score_texts db q cfg now job s (some b) ≡ ok (o, s')
        → Recorded job s'
    unfolding process_blob IsKeyed
    scored-Recorded b e h =
        let (row, scored, h1) =
          >>=-eq-ok (score_conversation f u d score_texts cfg now b.raw) _ h in
        let (t, v, _, _) = keyed job.key b e in
        let c = score_conversation-IsConsistent f u d score_texts cfg now b.raw row scored in
        close-Recorded db job s s' o row (job_status_of row.status) (iso_z now)
          (is_closing-job_status_of row.status) (c.tenant ∙ t) (c.conversation ∙ v)
          (c.hash ∙ matches b e)
          (score_conversation-scored_at f u d score_texts cfg now b.raw row scored) h1

    blob-Recorded :
        (x : Option Blob)
        → get_blob job.key s ≡ x
        → process_blob f u d score_texts db q cfg now job s x ≡ ok (o, s')
        → Recorded job s'
    unfolding process_blob
    blob-Recorded none e h = rejected-Recorded db job s s' o cfg now blob_missing "" h
    blob-Recorded (some b) e h = scored-Recorded b e h

    skipped-Recorded :
        Recorded job s
        → ◌≡◌ {A = Result (Outcome × Store F)}
            (ok (skipped_duplicate, q.mark_done job.key s))
            (ok (o, s'))
        → Recorded job s'
    unfolding get_result
    skipped-Recorded k h =
        let same : q.mark_done job.key s ≡ s' = ap (λ x. x.1) (ok-injective h) in
        subst (Recorded job) same (rw (laws.mark_done-results job.key s) k)

    process_one-Recorded :
        process_one f u d score_texts db q cfg now job s ≡ ok (o, s') → Recorded job s'
    unfolding process_one
    process_one-Recorded h = elim (Bool-cases (exceeds job.delivery_count cfg.max_delivery)) [
      | inl e ↦ rejected-Recorded db job s s' o cfg now max_delivery_exceeded _ (rw e at h)
      | inr e ↦ elim (Bool-cases (is_duplicate job.content_hash (get_result job.key s))) [
        | inl k ↦ skipped-Recorded k (rw (e, k) at h)
        | inr k ↦ blob-Recorded (get_blob job.key s) refl (rw (e, k) at h)
      ]
    ]

  -- When a job has been processed and is delivered again, however often within the limit, it is
  -- skipped, and every result stays as it is: the stored document has its ids and hashes to the job's
  -- content hash.
  pub process_one_again :
      (now now' : DateTime) (job : ClaimedJob) (m : ℕ) (s s' : Store F) (o : Outcome)
      → IsKeyed d s
      → Matches d job s
      → process_one f u d score_texts db q cfg now job s ≡ ok (o, s')
      → exceeds m cfg.max_delivery ≡ false
      → (s'' : Store F) × (process_one f u d score_texts db q cfg now'
            (record job { delivery_count = m })
            s'
          ≡ ok (skipped_duplicate, s''))
        × ((k : Key) → get_result k s'' ≡ get_result k s')
  unfolding process_one get_result
  process_one_again now now' job m s s' o keyed matches h few =
      let recorded = process_one-Recorded now job s s' o keyed matches h in
      (
        q.mark_done job.key s',
        rw (few, recorded) refl,
        λ k. rw (laws.mark_done-results job.key s') refl,
      )
