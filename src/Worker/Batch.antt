-- ===== src/Worker/Batch.antt =====
-- worker.py, run: the jobs of one batch.
use sb_poc.Prelude.{
  is_some, false, ◌≢◌, ℕ, suc, String, true, false, some, List, [], ◌∷◌, ◌≡◌, refl, sym, ap, ◌∙◌,
  Result, ok, UniqueKeys, lookup, arith, Bool-cases, inl, inr, String_eq,
}
use sb_poc.Text.{Unicode}
use sb_poc.Float.{Float}
use sb_poc.Config.{Config}
use sb_poc.Metrics.{TurnScore}
use sb_poc.Hashing.{Digest}
use sb_poc.Row.{Row, DateTime, score_conversation}
use sb_poc.Queue.{Key, Key_eq, key_beq_iff, own_or_other, ClaimedJob, Queue, claims}
use sb_poc.Queue.Postgres.{view}
use sb_poc.Store.{Database, Blob, Store, get_blob, get_result}
use sb_poc.Store.Documents.{IsKeyed}
use sb_poc.Worker.{StoreQueueLaws, Outcome, process_all}
use sb_poc.Worker.Outcomes.{IsProcessed, process_one-IsProcessed}
use sb_poc.Worker.Open.{
  open_at, is_closed, processed-exists, processed-is_closed, processed-stays, processed-results,
  processed-closed, processed-open,
}

-- What processing a batch does to the tables: every job of it is closed, no job is opened, no closed job
-- is opened again, closed jobs have results if they had before, and other jobs are left alone.
pub record AreProcessed {F : Type 0} (jobs : List ClaimedJob) (s s' : Store F) : Type 0 where
  pub opens : (k : Key) → open_at s' k ≡ true → open_at s k ≡ true
  pub closes : (k : Key) → claims k jobs ≡ true → open_at s' k ≡ false
  pub ends :
      (k : Key)
      → claims k jobs ≡ true
      → is_some (view k s.jobs) ≡ true
      → is_closed (view k s'.jobs) ≡ true
  pub stays : (k : Key) → is_closed (view k s.jobs) ≡ true → is_closed (view k s'.jobs) ≡ true
  pub results :
      (k : Key)
      → (is_closed (view k s.jobs) ≡ true → is_some (get_result k s) ≡ true)
      → is_closed (view k s'.jobs) ≡ true
      → is_some (get_result k s') ≡ true
  pub untouched : (k : Key) → claims k jobs ≡ false → view k s'.jobs ≡ view k s.jobs

module _ {F : Type 0} (job : ClaimedJob) (jobs : List ClaimedJob) (o : Outcome) (s s1 s2 : Store F)
    (p : IsProcessed job o s s1) (ps : AreProcessed jobs s1 s2) where
  still-shut : open_at s2 job.key ≡ false
  still-shut = elim (Bool-cases (open_at s2 job.key)) [
    | inr shut ↦ shut
    | inl still ↦ absurd (ground (arith, ps.opens job.key still, processed-closed job o s s1 p))
  ]

  -- The first job of a batch, then the others.
  AreProcessed-cons : AreProcessed (job ∷ jobs) s s2
  AreProcessed-cons = record {
    opens = λ k h. processed-open job o s s1 p k (ps.opens k h);
    closes = λ k.
        own_or_other (λ x. claims x (job ∷ jobs) ≡ true → open_at s2 x ≡ false) job.key k
          (λ h. still-shut) (λ n h. ps.closes k (ground (arith, key_beq_iff job.key k, h)));
    ends = λ k.
        own_or_other
          (λ x.
            claims x (job ∷ jobs) ≡ true
            → is_some (view x s.jobs) ≡ true
            → is_closed (view x s2.jobs) ≡ true)
          job.key k (λ h e. ps.stays job.key (processed-is_closed job o s s1 p e))
          (λ n h e.
            ps.ends k (ground (arith, key_beq_iff job.key k, h))
              (processed-exists job o s s1 p k e));
    stays = λ k h. ps.stays k (processed-stays job o s s1 p k h);
    results = λ k h c. ps.results k (processed-results job o s s1 p k h) c;
    untouched = λ k h.
        let n : job.key ≢ k = λ e. absurd (ground (arith, (key_beq_iff job.key k).1 e, h)) in
        ps.untouched k (ground (arith, key_beq_iff job.key k, h)) ∙ p.other_jobs k n;
  }

module _ (f : Float) (u : Unicode) (d : Digest)
    (score_texts : List String → Result (List (TurnScore f.F))) (db : Database f.F)
    (q : Queue (Store f.F)) (laws : StoreQueueLaws q) (cfg : Config f.F) where
  open f use {F}

  -- Every stored document has its ids and can be scored, and the jobs have distinct keys.
  pub record IsReady (s : Store F) : Type 0 where
    pub keyed : IsKeyed d s
    pub scores :
        (k : Key) (b : Blob) (t : DateTime)
        → get_blob k s ≡ some b
        → (row : Row F) × (score_conversation f u d score_texts cfg t b.raw ≡ ok row)
    pub unique : UniqueKeys s.jobs

  get_blob-same : (s s' : Store F) → s'.blobs ≡ s.blobs → (k : Key) → get_blob k s' ≡ get_blob k s
  unfolding get_blob
  get_blob-same s s' e k = ap (lookup k) e

  pub IsReady-step :
      (s s' : Store F) → s'.blobs ≡ s.blobs → UniqueKeys s'.jobs → IsReady s → IsReady s'
  unfolding IsKeyed
  IsReady-step s s' e unique r = record {
    keyed = λ k b h. r.keyed k b (sym (get_blob-same s s' e k) ∙ h);
    scores = λ k b t h. r.scores k b t (sym (get_blob-same s s' e k) ∙ h);
    unique = unique;
  }

  pub process_all-AreProcessed :
      (clock : ℕ → DateTime) (processed : ℕ) (jobs : List ClaimedJob) (s : Store F)
      → IsReady s
      → (n : ℕ) × (s' : Store F) × (process_all f u d score_texts db q cfg clock processed jobs s
          ≡ ok (n, s'))
        × IsReady s'
        × AreProcessed jobs s s'
  unfolding process_all
  process_all-AreProcessed clock processed [] s r = (
    processed,
    s,
    refl,
    r,
    record {
      opens = λ k h. h;
      closes = λ k h. absurd (cc);
      ends = λ k h. absurd (cc);
      stays = λ k h. h;
      results = λ k h c. h c;
      untouched = λ k h. refl;
    },
  )
  process_all-AreProcessed clock processed (job ∷ jobs) s r =
      let (o, s1, e1, p) =
        process_one-IsProcessed f u d score_texts db q laws cfg (clock processed) job s r.keyed
          (λ b h. r.scores job.key b (clock processed) h) in
      let (n, s2, e2, r2, ps) =
        process_all-AreProcessed clock (suc processed) jobs s1
          (IsReady-step s s1 p.blobs (p.keys r.unique) r) in
      (n, s2, rw (e1, e2) refl, r2, AreProcessed-cons job jobs o s s1 s2 p ps)
