-- ===== src/Queue/Postgres/Claims.antt =====
-- queue.py, PgJobQueue.claim: the rows that a claim takes, and what becomes of all rows.
use sb_poc.Prelude.{
  ℕ, zero, suc, ◌≤◌, String, ℤ, pos, Bool, true, false, ◌&&◌, not, none, some, List, [], ◌∷◌,
  lookup, UniqueKeys, map_option, ◌≡◌, refl, ok, if◌then◌else◌, arith, All, length, length-take-le,
  take, keep_if, All-sort_by, Bool-cases, inl, inr,
}
use sb_poc.Queue.{
  Key, Key_eq, key_beq_iff, ClaimedJob, JobView, is_claimable, is_claimable_at, claims, claim_view,
  claimed_job, IsClaim,
}
use sb_poc.Queue.Postgres.{
  Job, Jobs, view, older, claimable, contains, mark_claimed, returning, claim_unlocked,
}

-- A row of the table that the claim may take.
record IsFree (now : ℕ) (lease : ℤ) (locked : Key → Bool) (jobs : Jobs) (p : Key × Job)
    : Type 0 where
  stored : lookup p.0 jobs ≡ some p.1
  open_for : is_claimable now lease p.1.shown ≡ true
  unlocked : locked p.0 ≡ false

module _ (P : Key × Job → Type 0) where
  pub All-take : (n : ℕ) (ps : Jobs) → All P ps → All P (take n ps)
  All-take zero ps h = tt
  All-take (suc n) [] h = tt
  All-take (suc n) (p ∷ ps) h = (h.0, All-take n ps h.1)

unfoldable pub Stored : Jobs → Key × Job → Type 0
Stored jobs p = lookup p.0 jobs ≡ some p.1

Stored-behind :
    (k : Key) (j : Job) (jobs ps : Jobs)
    → lookup k jobs ≡ none
    → All (Stored jobs) ps
    → All (Stored ((k, j) ∷ jobs)) ps
unfolding lookup Stored
Stored-behind k j jobs [] e h = tt
Stored-behind k j jobs (p ∷ ps) e h =
    (ground (arith, key_beq_iff k p.0, h.0), Stored-behind k j jobs ps e h.1)

-- With distinct keys, each row is the one that is found by its key.
pub All-Stored : (jobs : Jobs) → UniqueKeys jobs → All (Stored jobs) jobs
unfolding Stored lookup
All-Stored [] u = tt
All-Stored ((k, j) ∷ jobs) u =
    (ground (arith, key_beq_iff k k), Stored-behind k j jobs jobs u.0 (All-Stored jobs u.1))

module _ (now : ℕ) (lease : ℤ) (locked : Key → Bool) (jobs : Jobs) where
  candidates-IsFree :
      (ps : Jobs)
      → All (Stored jobs) ps
      → All
          (IsFree now lease locked jobs)
          (keep_if (λ p. is_claimable now lease p.1.shown && not (locked p.0)) ps)
  candidates-IsFree [] h = tt
  candidates-IsFree (p ∷ ps) h =
      elim (Bool-cases (is_claimable now lease p.1.shown && not (locked p.0))) [
        | inl e ↦ rw e (
          record {
            stored = unfold Stored in h.0;
            open_for = ground arith;
            unlocked = ground arith;
          },
          candidates-IsFree ps h.1,
        )
        | inr e ↦ rw e (candidates-IsFree ps h.1)
      ]

  claimable-IsFree :
      (n : ℕ)
      → UniqueKeys jobs
      → All (IsFree now lease locked jobs) (claimable now lease locked n jobs)
  unfolding claimable
  claimable-IsFree n u = All-take (IsFree now lease locked jobs) n _ (
      All-sort_by older (IsFree now lease locked jobs) _
        (candidates-IsFree jobs (All-Stored jobs u)))

  length-claimable : (n : ℕ) → length (claimable now lease locked n jobs) ≤ n
  unfolding claimable
  length-claimable n = length-take-le n _

  contains-free :
      (k : Key) (ps : Jobs)
      → All (IsFree now lease locked jobs) ps
      → contains k ps ≡ true
      → (is_claimable_at now lease (view k jobs) ≡ true) × (locked k ≡ false)
  contains-free k [] h e = absurd (cc)
  contains-free k (p ∷ ps) h e =
      ground
        (arith, key_beq_iff p.0 k, h.0.stored, h.0.open_for, h.0.unlocked, contains-free k ps h.1)

pub claims-returning : (now : ℕ) (k : Key) (ps : Jobs) → claims k (returning now ps) ≡ contains k ps
claims-returning now k [] = refl
claims-returning now k (p ∷ ps) = rw (claims-returning now k ps)

length-returning : (now : ℕ) (ps : Jobs) → length (returning now ps) ≡ length ps
length-returning now [] = refl
length-returning now (p ∷ ps) = rw (length-returning now ps)

mark_claimed-effect :
    (now : ℕ) (w : String) (k : Key) (chosen jobs : Jobs)
    → view k (mark_claimed now w chosen jobs)
      ≡ (if contains k chosen then map_option (claim_view now) (view k jobs) else view k jobs)
unfolding mark_claimed lookup
mark_claimed-effect now w k chosen [] = ground arith
mark_claimed-effect now w k chosen ((j, x) ∷ jobs) =
    ground (arith, key_beq_iff j k, mark_claimed-effect now w k chosen jobs)

-- Every chosen row is among the chosen ones.
contains-All :
    (ps qs : Jobs)
    → ((k : Key) → contains k qs ≡ true → contains k ps ≡ true)
    → All (λ q. contains q.0 ps ≡ true) qs
contains-All ps [] h = tt
contains-All ps (q ∷ qs) h =
    (h q.0 (ground (arith, key_beq_iff q.0 q.0)), contains-All ps qs (λ k e. h k (ground arith)))

returning-All :
    (now : ℕ) (lease : ℤ) (locked : Key → Bool) (w : String) (jobs chosen ps : Jobs)
    → All (IsFree now lease locked jobs) ps
    → All (λ q. contains q.0 chosen ≡ true) ps
    → All
        (λ j.
          (v : JobView) × (view j.key (mark_claimed now w chosen jobs) ≡ some v)
          × (j ≡ claimed_job j.key v))
        (returning now ps)
returning-All now lease locked w jobs chosen [] f c = tt
returning-All now lease locked w jobs chosen (p ∷ ps) f c = (
  (
    claim_view now p.1.shown,
    ground (arith, mark_claimed-effect now w p.0 chosen jobs, c.0, f.0.stored),
    refl,
  ),
  returning-All now lease locked w jobs chosen ps f.1 c.1,
)

lookup-mark_claimed-none :
    (now : ℕ) (w : String) (k : Key) (chosen jobs : Jobs)
    → lookup k jobs ≡ none
    → lookup k (mark_claimed now w chosen jobs) ≡ none
unfolding mark_claimed lookup
lookup-mark_claimed-none now w k chosen [] h = refl
lookup-mark_claimed-none now w k chosen ((j, x) ∷ jobs) h =
    ground (arith, lookup-mark_claimed-none now w k chosen jobs)

-- A claim keeps the keys distinct.
pub UniqueKeys-mark_claimed :
    (now : ℕ) (w : String) (chosen jobs : Jobs)
    → UniqueKeys jobs
    → UniqueKeys (mark_claimed now w chosen jobs)
unfolding mark_claimed lookup
UniqueKeys-mark_claimed now w chosen [] u = tt
UniqueKeys-mark_claimed now w chosen ((k, j) ∷ jobs) u = (
  lookup-mark_claimed-none now w k chosen jobs u.0,
  UniqueKeys-mark_claimed now w chosen jobs u.1,
)

-- A claim on the jobs table, whose keys are distinct, takes jobs that were queued or whose lease has
-- run out, marks each as claimed with one more delivery, hands out what it has marked and leaves every
-- other job alone. It takes no more jobs than the batch size, and none that another transaction has
-- locked, and keeps the keys distinct.
pub claim_unlocked-IsClaim :
    (locked : Key → Bool) (now n : ℕ) (lease : ℤ) (worker_id : String) (s : Jobs)
    → UniqueKeys s
    → (jobs : List ClaimedJob) × (s' : Jobs) × (claim_unlocked locked now worker_id (pos n) lease s
        ≡ ok (jobs, s'))
      × IsClaim view now lease s s' jobs
      × (length jobs ≤ n)
      × ((k : Key) → claims k jobs ≡ true → locked k ≡ false)
      × UniqueKeys s'
unfolding claim_unlocked
claim_unlocked-IsClaim locked now n lease worker_id s u =
    let chosen = claimable now lease locked n s in
    let free = claimable-IsFree now lease locked s n u in
    (
      returning now chosen,
      mark_claimed now worker_id chosen s,
      refl,
      record {
        claimable = λ k h.
            (contains-free now lease locked s k chosen free
              (rw (claims-returning now k chosen) at h)).0;
        effect =
            λ k. rw (claims-returning now k chosen) (mark_claimed-effect now worker_id k chosen s);
        handed_out =
            returning-All now lease locked worker_id s chosen chosen free
              (contains-All chosen chosen (λ k e. e));
      },
      omega (arith, length-returning now chosen, length-claimable now lease locked s n),
      λ k h.
          (contains-free now lease locked s k chosen free
            (rw (claims-returning now k chosen) at h)).1,
      UniqueKeys-mark_claimed now worker_id chosen s u,
    )
