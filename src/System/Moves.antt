-- ===== src/System/Moves.antt =====
-- worker.py, ingest.py and cli.py side by side: every step of a process.
use sb_poc.Prelude.{
  is_some, ℕ, String, String_eq, true, Option, none, some, List, ◌||◌, ◌≡◌, refl, ◌∙◌, arith,
  lookup-put, Result, ok,
}
use sb_poc.Json.{Value}
use sb_poc.Text.{Unicode}
use sb_poc.Float.{Float}
use sb_poc.Config.{Config}
use sb_poc.Metrics.{TurnScore}
use sb_poc.Hashing.{Digest, content_hash}
use sb_poc.Row.{Row, DateTime, ErrorReason, rejected_row, iso_z, score_conversation}
use sb_poc.Row.Status.{score_conversation-IsConsistent}
use sb_poc.Row.Clock.{score_conversation-scored_at}
use sb_poc.Queue.{Key, Key_eq, key_beq, key_beq_iff, ClaimedJob, dead}
use sb_poc.Store.{Database, DatabaseLaws, Blob, Store, blob_key, upsert_blob, get_blob, get_result}
use sb_poc.Store.Documents.{Carries, IsKeyed, upsert_blob-IsKeyed}
use sb_poc.Worker.{is_duplicate, job_status_of, rejected_job}
use sb_poc.Worker.Outcomes.{is_closing-job_status_of}
use sb_poc.Ingest.{insert_dead_letter}
use sb_poc.Ingest.Documents.{document_key-Carries}
use sb_poc.System.{
  Pc, Move, claim_batch, next_round, poison, start, duplicate, mark, not_duplicate, missing, score,
  close_job, crash, store_blob, refuse_file, enqueue_job,
}
use sb_poc.System.Sound.{
  has_blob, IsSound, Tracked-Extends, CanClose, Fits, Keeps, Keeps-refl, jobs-Keeps,
}
use sb_poc.System.Tables.{claim-Keeps, mark_done-Keeps, enqueue-Keeps, close-Keeps}

module _ {F : Type 0} (db : Database F) (now : ℕ) (k : Key) (h : String) (raw : Value)
    (s : Store F) where
  has_blob-upsert_blob :
      (j : Key) → has_blob (upsert_blob db now k h raw s) j ≡ (key_beq k j || has_blob s j)
  unfolding upsert_blob get_blob
  has_blob-upsert_blob j = ground (
    arith,
    lookup-put k j (record { content_hash = h; raw = db.jsonb raw; ingested_at = now }) s.blobs,
    key_beq_iff k j,
  )

  pub upsert_blob-jobs : (upsert_blob db now k h raw s).jobs ≡ s.jobs
  unfolding upsert_blob
  upsert_blob-jobs = ground arith

  upsert_blob-results : (upsert_blob db now k h raw s).results ≡ s.results
  unfolding upsert_blob
  upsert_blob-results = ground arith

  module _ (d : Digest) (laws : DatabaseLaws db) (i : IsSound d s) (c : Carries d k raw) where
    pub upsert_blob-Keeps : Keeps d s (upsert_blob db now k h raw s)
    unfolding get_result
    upsert_blob-Keeps = record {
      sound = record {
        keyed = upsert_blob-IsKeyed d db laws now k h raw s c i.keyed;
        closed_results =
            λ j e. rw upsert_blob-results (i.closed_results j (rw upsert_blob-jobs at e));
        job_blobs =
            λ j e. ground (arith, has_blob-upsert_blob j, i.job_blobs j (rw upsert_blob-jobs at e));
        unique = rw upsert_blob-jobs i.unique;
      };
      extends = record {
        jobs = λ j e. rw upsert_blob-jobs e;
        blobs = λ j e. ground (arith, has_blob-upsert_blob j, e);
        results = λ j e. rw upsert_blob-results e;
      };
    }

    pub upsert_blob-has_blob : has_blob (upsert_blob db now k h raw s) k ≡ true
    upsert_blob-has_blob = ground (arith, has_blob-upsert_blob k, key_beq_iff k k)

pub dead_letter-Keeps :
    {F : Type 0} (d : Digest) (name error : String) (s : Store F)
    → IsSound d s
    → Keeps d s (insert_dead_letter name error s)
unfolding get_result get_blob
dead_letter-Keeps d name error s i =
    jobs-Keeps d s (insert_dead_letter name error s) i refl refl i.unique (λ k e. e)
      i.closed_results i.job_blobs

pub rejected_job-CanClose :
    {F : Type 0} (cfg : Config F) (now : DateTime) (job : ClaimedJob) (reason : ErrorReason)
    (detail : String)
    → CanClose job (rejected_job cfg now job reason detail) dead
unfolding rejected_row
rejected_job-CanClose cfg now job reason detail = record {
  hash = job.content_hash;
  at = iso_z now;
  closes = refl;
  tenant = refl;
  conversation = refl;
  has_hash = refl;
  has_time = refl;
}

duplicate-has_result :
    {F : Type 0} (h : String) (r : Option (Row F)) → is_duplicate h r ≡ true → is_some r ≡ true
duplicate-has_result h none e = absurd (cc)
duplicate-has_result h (some row) e = refl

module _ (f : Float) (u : Unicode) (d : Digest)
    (score_texts : List String → Result (List (TurnScore f.F))) (db : Database f.F)
    (cfg : Config f.F) (laws : DatabaseLaws db) where
  open f use {F}

  scored-CanClose :
      (s : Store F) (now : DateTime) (job : ClaimedJob) (b : Blob) (row : Row F)
      → IsSound d s
      → get_blob job.key s ≡ some b
      → score_conversation f u d score_texts cfg now b.raw ≡ ok row
      → CanClose job row (job_status_of row.status)
  unfolding IsKeyed
  scored-CanClose s now job b row i e scored =
      let (t, v, h, eh) = i.keyed job.key b e in
      let c = score_conversation-IsConsistent f u d score_texts cfg now b.raw row scored in
      record {
        hash = h;
        at = iso_z now;
        closes = is_closing-job_status_of row.status;
        tenant = c.tenant ∙ t;
        conversation = c.conversation ∙ v;
        has_hash = c.hash ∙ eh;
        has_time = score_conversation-scored_at f u d score_texts cfg now b.raw row scored;
      }

  -- A step keeps the tables sound, loses nothing, and leaves its process where it fits.
  pub Move-Keeps :
      {s t : Store F} {p q : Pc F}
      → Move f u d score_texts db cfg s p t q
      → IsSound d s
      → Fits s p
      → Keeps d s t × Fits t q
  Move-Keeps {s} (claim_batch locked now w {jobs} {rows} e) i h =
      claim-Keeps d s i locked now w _ _ jobs rows e
  Move-Keeps {s} next_round i h = (Keeps-refl d s i, tt)
  Move-Keeps {s} (poison now {job} {jobs} e) i h =
      (Keeps-refl d s i, (rejected_job-CanClose cfg now job _ _, h.1))
  Move-Keeps {s} (start now e) i h = (Keeps-refl d s i, h)
  Move-Keeps {s} (duplicate {now} {job} e) i h =
      (Keeps-refl d s i, (duplicate-has_result job.content_hash (get_result job.key s) e, h.1))
  Move-Keeps {s} (mark {job} {jobs}) i h =
      let k = mark_done-Keeps d s i job.key h.0 in (k, Tracked-Extends s _ jobs k.extends h.1)
  Move-Keeps {s} (not_duplicate e) i h = (Keeps-refl d s i, h)
  Move-Keeps {s} (missing {now} {job} e) i h =
      (Keeps-refl d s i, (rejected_job-CanClose cfg now job _ _, h.1))
  Move-Keeps {s} (score {now} {job} {jobs} {b} {row} e scored) i h =
      (Keeps-refl d s i, (scored-CanClose s now job b row i e scored, h.1))
  Move-Keeps {s} (close_job {job} {row} {status} {jobs} {s'} e) i h =
      let k = close-Keeps d s i db job row status s' h.0 e in
      (k, Tracked-Extends s s' jobs k.extends h.1)
  Move-Keeps {s} crash i h = (Keeps-refl d s i, tt)
  Move-Keeps {s} (store_blob now raw {key} e) i h =
      let c = document_key-Carries d raw key e in
      (
        upsert_blob-Keeps db now key (content_hash d raw) raw s d laws i c,
        upsert_blob-has_blob db now key (content_hash d raw) raw s d laws i c,
      )
  Move-Keeps {s} (refuse_file name error) i h = (dead_letter-Keeps d name error s i, tt)
  Move-Keeps {s} (enqueue_job now {key} {hash}) i h =
      (enqueue-Keeps d s i now key (blob_key key) hash h, tt)
