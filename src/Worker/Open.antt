-- ===== src/Worker/Open.antt =====
-- worker.py, run: the number of jobs that are not closed yet.
use sb_poc.Prelude.{
  is_some, ℕ, ◌+◌, ◌≤◌, ◌<◌, Bool, true, false, ◌||◌, Option, none, some, List, [], ◌∷◌, ◌==◌, ◌≡◌,
  refl, ap, if◌then◌else◌, arith, ℤ, Bool-cases, inl, inr, String_eq,
}
use sb_poc.Queue.{
  done, dead, Key, Key_eq, key_beq_iff, own_or_other, ClaimedJob, JobView, JobStatus, queued,
  claimed, claims, is_claimable, is_claimable_at, IsClaim,
}
use sb_poc.Row.{Row, RowStatus}
use sb_poc.Queue.Postgres.{view}
use sb_poc.Store.{Store, is_closing, get_result}
use sb_poc.Worker.{Outcome, closed, skipped_duplicate}
use sb_poc.Worker.Outcomes.{Suits, job_outcome, Explains, IsProcessed}

abbrev pub is_open_status : JobStatus → Bool
is_open_status queued = true
is_open_status claimed = true
is_open_status _ = false

abbrev pub is_open : Option JobView → Bool
is_open none = false
is_open (some v) = is_open_status v.status

-- The job is done or dead.
abbrev pub is_closed : Option JobView → Bool
is_closed none = false
is_closed (some v) = is_closing v.status

-- The job of this key is queued or claimed.
abbrev pub open_at : {F : Type 0} → Store F → Key → Bool
open_at s k = is_open (view k s.jobs)

abbrev pub among : Key → List Key → Bool
among k [] = false
among k (j ∷ ks) = j == k || among k ks

unfoldable pub count : (Key → Bool) → List Key → ℕ
count p [] = 0
count p (k ∷ ks) = (if p k then 1 else 0) + count p ks

pub count_mono :
    (p q : Key → Bool) (ks : List Key)
    → ((k : Key) → q k ≡ true → p k ≡ true)
    → count q ks ≤ count p ks
unfolding count
count_mono p q [] h = omega arith
count_mono p q (k ∷ ks) h = ground (arith, h k, count_mono p q ks h)

-- A key that is counted first and not later makes the count smaller.
pub count_strict :
    (p q : Key → Bool) (j : Key) (ks : List Key)
    → ((k : Key) → q k ≡ true → p k ≡ true)
    → p j ≡ true
    → q j ≡ false
    → among j ks ≡ true
    → count q ks < count p ks
unfolding count
count_strict p q j [] h a b e = absurd (cc)
count_strict p q j (k ∷ ks) h a b e = elim (Bool-cases (k == j)) [
  | inl here ↦
      let same : k ≡ j = (key_beq_iff k j).0 here in
      ground (arith, count_mono p q ks h, ap p same, ap q same)
  | inr there ↦ ground (arith, h k, count_strict p q j ks h a b (rw there at e))
]

pub is_claimable-is_open :
    (now : ℕ) (lease : ℤ) (o : Option JobView)
    → is_claimable_at now lease o ≡ true
    → is_open o ≡ true
unfolding is_claimable
is_claimable-is_open now lease none h = absurd (cc)
is_claimable-is_open now lease (some v) h = ground arith

module _ {F : Type 0} {now : ℕ} {lease : ℤ} (s s' : Store F) (jobs : List ClaimedJob)
    (c : IsClaim (λ k (t : Store F). view k t.jobs) now lease s s' jobs) where
  -- A claim opens no job.
  pub claim-open : (k : Key) → open_at s' k ≡ true → open_at s k ≡ true
  claim-open k h = elim (Bool-cases (claims k jobs)) [
    | inl taken ↦ is_claimable-is_open now lease (view k s.jobs) (c.claimable k taken)
    | inr other ↦ ground (arith, other, c.effect k, h)
  ]

  -- A job that is handed out is open after the claim.
  pub claim-open_after : (k : Key) → claims k jobs ≡ true → open_at s' k ≡ true
  claim-open_after k taken =
      let before : open_at s k ≡ true =
        is_claimable-is_open now lease (view k s.jobs) (c.claimable k taken) in
      ground (arith, taken, c.effect k, before)

Suits-closed :
    (status : JobStatus) (st : RowStatus) → Suits status st → is_open_status status ≡ false
Suits-closed queued st h = absurd h
Suits-closed claimed st h = absurd h
Suits-closed done st h = refl
Suits-closed dead st h = refl

Suits-is_closing :
    (status : JobStatus) (st : RowStatus) → Suits status st → is_closing status ≡ true
Suits-is_closing queued st h = absurd h
Suits-is_closing claimed st h = absurd h
Suits-is_closing done st h = refl
Suits-is_closing dead st h = refl

explained-closed :
    {F : Type 0} (job : ClaimedJob) (o : Outcome) (before after : Option (Row F))
    → Explains job o before after
    → is_open_status (job_outcome o) ≡ false
explained-closed job (closed status) before after (row, _, e) = Suits-closed status row.status e
explained-closed job skipped_duplicate before after h = refl

explained-is_closing :
    {F : Type 0} (job : ClaimedJob) (o : Outcome) (before after : Option (Row F))
    → Explains job o before after
    → is_closing (job_outcome o) ≡ true
explained-is_closing job (closed status) before after (row, _, e) =
    Suits-is_closing status row.status e
explained-is_closing job skipped_duplicate before after h = refl

explained-is_some :
    {F : Type 0} (job : ClaimedJob) (o : Outcome) (before after : Option (Row F))
    → Explains job o before after
    → is_some after ≡ true
explained-is_some job (closed status) before after (row, e, _) = rw e refl
explained-is_some job skipped_duplicate before after (_, (_, e, _)) = rw e refl

module _ {F : Type 0} (job : ClaimedJob) (o : Outcome) (s s' : Store F)
    (p : IsProcessed job o s s') where
  job_outcome-closed : is_open_status (job_outcome o) ≡ false
  job_outcome-closed = explained-closed job o _ _ p.explained

  job_outcome-is_closing : is_closing (job_outcome o) ≡ true
  job_outcome-is_closing = explained-is_closing job o _ _ p.explained

  -- Processing loses no job.
  pub processed-exists :
      (k : Key) → is_some (view k s.jobs) ≡ true → is_some (view k s'.jobs) ≡ true
  processed-exists k =
      own_or_other (λ x. is_some (view x s.jobs) ≡ true → is_some (view x s'.jobs) ≡ true) job.key k
        (λ h. ground (arith, p.terminal, h)) (λ n h. rw (p.other_jobs k n) h)

  -- The job that was processed is done or dead, if there is one.
  pub processed-is_closed :
      is_some (view job.key s.jobs) ≡ true → is_closed (view job.key s'.jobs) ≡ true
  processed-is_closed h = ground (arith, p.terminal, job_outcome-is_closing, h)

  -- Processing leaves closed jobs closed.
  pub processed-stays :
      (k : Key) → is_closed (view k s.jobs) ≡ true → is_closed (view k s'.jobs) ≡ true
  processed-stays k =
      own_or_other (λ x. is_closed (view x s.jobs) ≡ true → is_closed (view x s'.jobs) ≡ true)
        job.key k (λ h. processed-is_closed (ground (arith, h))) (λ n h. rw (p.other_jobs k n) h)

  -- If closed jobs had results, they have results after it.
  pub processed-results :
      (k : Key)
      → (is_closed (view k s.jobs) ≡ true → is_some (get_result k s) ≡ true)
      → is_closed (view k s'.jobs) ≡ true
      → is_some (get_result k s') ≡ true
  processed-results k =
      own_or_other
        (λ x.
          (is_closed (view x s.jobs) ≡ true → is_some (get_result x s) ≡ true)
          → is_closed (view x s'.jobs) ≡ true
          → is_some (get_result x s') ≡ true)
        job.key k (λ h c. explained-is_some job o _ _ p.explained)
        (λ n h c. rw (p.other_results k n) (h (rw (p.other_jobs k n) at c)))

  -- The job that was processed is not open any more.
  pub processed-closed : open_at s' job.key ≡ false
  processed-closed = ground (arith, p.terminal, job_outcome-closed)

  -- Processing opens no job.
  pub processed-open : (k : Key) → open_at s' k ≡ true → open_at s k ≡ true
  processed-open k h = elim (Bool-cases (job.key == k)) [
    | inl here ↦
        let same : job.key ≡ k = (key_beq_iff job.key k).0 here in
        absurd (ground (arith, ap (open_at s') same, processed-closed, h))
    | inr there ↦
        ground
          (arith, p.other_jobs k (λ e. absurd (ground (arith, (key_beq_iff job.key k).1 e))), h)
  ]
