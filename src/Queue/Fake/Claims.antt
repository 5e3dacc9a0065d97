-- ===== src/Queue/Fake/Claims.antt =====
-- queue.py, FakeQueue.claim: what a claim takes and what it leaves.
use Prim.Native.Nat.{max}
use sb_poc.Prelude.{
  ℕ, suc, ◌+◌, ◌≤◌, ℤ, pos, at_least, true, none, some, List, [], ◌∷◌, lookup, UniqueKeys,
  map_option, ◌≡◌, refl, ok, if◌then◌else◌, arith, length, Bool-cases, inl, inr, All, String,
}
use sb_poc.Queue.{
  Key, Key_eq, key_beq_iff, ClaimedJob, JobView, is_claimable, claims, is_claimable_at, claim_view,
  claimed_job, IsClaim,
}
use sb_poc.Queue.Fake.{FakeQueue, claim_from, claim}

module _ (now : ℕ) (batch lease : ℤ) where
  claim_from-claimable :
      (taken : ℕ) (s : FakeQueue) (k : Key)
      → UniqueKeys s
      → claims k (claim_from now batch lease taken s).0 ≡ true
      → is_claimable_at now lease (lookup k s) ≡ true
  unfolding claim_from lookup
  claim_from-claimable taken [] k u h = cc
  claim_from-claimable taken ((j, v) ∷ s) k u h = ground (
    arith,
    key_beq_iff j k,
    claim_from-claimable (suc taken) s k u.1,
    claim_from-claimable taken s k u.1,
  )

  claim_from-effect :
      (taken : ℕ) (s : FakeQueue) (k : Key)
      → UniqueKeys s
      → lookup k (claim_from now batch lease taken s).1 ≡ (
          if claims k (claim_from now batch lease taken s).0
          then map_option (claim_view now) (lookup k s)
          else lookup k s)
  unfolding claim_from lookup
  claim_from-effect taken [] k u = refl
  claim_from-effect taken ((j, v) ∷ s) k u = ground (
    arith,
    key_beq_iff j k,
    claim_from-effect (suc taken) s k u.1,
    claim_from-effect taken s k u.1,
    claim_from-claimable taken s k u.1,
  )

abbrev HandedOut : FakeQueue → ClaimedJob → Type 0
HandedOut s j = (v : JobView) × (lookup j.key s ≡ some v) × (j ≡ claimed_job j.key v)

-- A row in front hides nothing that was handed out.
behind :
    (k : Key) (w : JobView) (s : FakeQueue) (jobs : List ClaimedJob)
    → lookup k s ≡ none
    → All (HandedOut s) jobs
    → All (HandedOut ((k, w) ∷ s)) jobs
unfolding lookup
behind k w s [] e h = tt
behind k w s (j ∷ js) e h =
    ((h.0.0, ground (arith, key_beq_iff k j.key, h.0.1), h.0.2), behind k w s js e h.1)

module _ (now : ℕ) (batch lease : ℤ) where
  claim_from-absent :
      (taken : ℕ) (s : FakeQueue) (k : Key)
      → UniqueKeys s
      → lookup k s ≡ none
      → lookup k (claim_from now batch lease taken s).1 ≡ none
  claim_from-absent taken s k u e = ground (arith, claim_from-effect now batch lease taken s k u)

  claim_from-All :
      (taken : ℕ) (s : FakeQueue)
      → UniqueKeys s
      → All
          (HandedOut (claim_from now batch lease taken s).1)
          (claim_from now batch lease taken s).0
  unfolding claim_from lookup
  claim_from-All taken [] u = tt
  claim_from-All taken ((j, v) ∷ s) u = elim (Bool-cases (at_least taken batch)) [
    | inl e ↦ rw e tt
    | inr e ↦ elim (Bool-cases (is_claimable now lease v)) [
      | inl e' ↦
          rw (e, e')
            (
              (claim_view now v, ground (arith, key_beq_iff j j), refl),
              behind j (claim_view now v) (claim_from now batch lease (suc taken) s).1
                  (claim_from now batch lease (suc taken) s).0
                  (claim_from-absent (suc taken) s j u.1 u.0) (claim_from-All (suc taken) s u.1),
            )
      | inr e' ↦
          rw (e, e')
            (behind j v (claim_from now batch lease taken s).1
              (claim_from now batch lease taken s).0 (claim_from-absent taken s j u.1 u.0)
              (claim_from-All taken s u.1))
    ]
  ]

  pub claim_from-UniqueKeys :
      (taken : ℕ) (s : FakeQueue) → UniqueKeys s → UniqueKeys (claim_from now batch lease taken s).1
  unfolding claim_from
  claim_from-UniqueKeys taken [] u = tt
  claim_from-UniqueKeys taken ((j, v) ∷ s) u = elim (Bool-cases (at_least taken batch)) [
    | inl e ↦ rw e u
    | inr e ↦ elim (Bool-cases (is_claimable now lease v)) [
      | inl e' ↦
          rw (e, e')
            (claim_from-absent (suc taken) s j u.1 u.0, claim_from-UniqueKeys (suc taken) s u.1)
      | inr e' ↦ rw (e, e') (claim_from-absent taken s j u.1 u.0, claim_from-UniqueKeys taken s u.1)
    ]
  ]

  pub claim_from-IsClaim :
      (s : FakeQueue)
      → UniqueKeys s
      → IsClaim lookup now lease s
          (claim_from now batch lease 0 s).1
          (claim_from now batch lease 0 s).0
  claim_from-IsClaim s u = record {
    claimable = λ k h. claim_from-claimable now batch lease 0 s k u h;
    effect = λ k. claim_from-effect now batch lease 0 s k u;
    handed_out = claim_from-All 0 s u;
  }

  claim_from-bounded :
      (b taken : ℕ) (s : FakeQueue)
      → length (claim_from now (pos b) lease taken s).0 + taken ≤ max b taken
  unfolding claim_from
  claim_from-bounded b taken [] = ground arith
  claim_from-bounded b taken ((j, v) ∷ s) =
      ground (arith, claim_from-bounded b (suc taken) s, claim_from-bounded b taken s)

-- A claim on the queue in memory, whose rows have distinct keys, takes jobs that were queued or whose
-- lease has run out, marks each as claimed with one more delivery, hands out what it has marked and
-- leaves every other job alone. It takes no more jobs than the batch size.
pub fake_claim-IsClaim :
    (now b : ℕ) (lease : ℤ) (worker_id : String) (s : FakeQueue)
    → UniqueKeys s
    → (jobs : List ClaimedJob) × (s' : FakeQueue) × (claim now worker_id (pos b) lease s
        ≡ ok (jobs, s'))
      × IsClaim lookup now lease s s' jobs
      × (length jobs ≤ b)
unfolding claim
fake_claim-IsClaim now b lease worker_id s u = (
  (claim_from now (pos b) lease 0 s).0,
  (claim_from now (pos b) lease 0 s).1,
  refl,
  claim_from-IsClaim now (pos b) lease s u,
  omega (arith, claim_from-bounded now (pos b) lease b 0 s),
)
