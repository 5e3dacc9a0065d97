-- ===== src/Tests/Queues.antt =====
-- Sample claims on both queues.
use sb_poc.Prelude.{
  insert_by, sort_by, ℕ, ◌≤◌, ◌≡◌, refl, String, String_eq, ◌==◌, pos, Bool, true, false, List, [],
  ◌∷◌, some, length, UniqueKeys, ok, arith, lookup, sym, ◌∙◌, subst, ok-injective,
}
use sb_poc.Queue.{
  Key, Key_eq, ClaimedJob, claims, IsClaim, fresh, claimed_job, claim_view, is_claimable,
  lease_over,
}
use sb_poc.Queue.Leases.{claims_exclusive}
use sb_poc.Queue.Fake.{FakeQueue, claim, claim_from}
use sb_poc.Queue.Fake.Claims.{fake_claim-IsClaim}
use sb_poc.Queue.Postgres.Oldest.{claim_unlocked_oldest}
use sb_poc.Queue.Postgres.{claimable, mark_claimed, new_job, Jobs, view, claim_unlocked}
use sb_poc.Queue.Postgres.Claims.{claim_unlocked-IsClaim}
use sb_poc.Tests.Samples.{key, other_key, jobs}

pub jobs-UniqueKeys : UniqueKeys jobs
unfolding lookup
jobs-UniqueKeys = (refl, (refl, tt))

abbrev other_locked : Key → Bool
other_locked k = k == other_key

claim_unlocked-IsClaim_example :
    (js : List ClaimedJob) × (s' : Jobs) × (claim_unlocked other_locked 10 "w1"
        (pos 2)
        (pos 300)
        jobs
      ≡ ok (js, s'))
    × IsClaim view 10 (pos 300) jobs s' js
    × (length js ≤ 2)
    × ((k : Key) → claims k js ≡ true → other_locked k ≡ false)
    × UniqueKeys s'
claim_unlocked-IsClaim_example =
    claim_unlocked-IsClaim other_locked 10 2 (pos 300) "w1" jobs jobs-UniqueKeys

abbrev fake_rows : FakeQueue
fake_rows = (key, fresh "acme/c1" "h") ∷ (other_key, fresh "acme/c2" "g") ∷ []

fake_rows-UniqueKeys : UniqueKeys fake_rows
unfolding lookup
fake_rows-UniqueKeys = (refl, (refl, tt))

fake_claim-IsClaim_example :
    (js : List ClaimedJob) × (s' : FakeQueue) × (claim 10 "w1" (pos 1) (pos 300) fake_rows
      ≡ ok (js, s'))
    × IsClaim lookup 10 (pos 300) fake_rows s' js
    × (length js ≤ 1)
fake_claim-IsClaim_example = fake_claim-IsClaim 10 1 (pos 300) "w1" fake_rows fake_rows-UniqueKeys

-- Two claims on the queue in memory, the second at a later time.
abbrev first_jobs : List ClaimedJob
first_jobs = claimed_job key (claim_view 10 (fresh "acme/c1" "h")) ∷ []

abbrev first_rows : FakeQueue
first_rows = (key, claim_view 10 (fresh "acme/c1" "h")) ∷ (other_key, fresh "acme/c2" "g") ∷ []

first_rows-UniqueKeys : UniqueKeys first_rows
unfolding lookup
first_rows-UniqueKeys = (refl, (refl, tt))

first_claim : claim 10 "w1" (pos 1) (pos 300) fake_rows ≡ ok (first_jobs, first_rows)
unfolding claim claim_from is_claimable
first_claim = refl

abbrev second_jobs : List ClaimedJob
second_jobs = claimed_job other_key (claim_view 20 (fresh "acme/c2" "g")) ∷ []

abbrev second_rows : FakeQueue
second_rows =
    (key, claim_view 10 (fresh "acme/c1" "h"))
    ∷ (other_key, claim_view 20 (fresh "acme/c2" "g"))
    ∷ []

second_claim : claim 20 "w2" (pos 1) (pos 300) first_rows ≡ ok (second_jobs, second_rows)
unfolding claim claim_from is_claimable lease_over
second_claim = refl

-- What the theorem says of a claim is so of what the claim returns.
same_claim :
    {now : ℕ} {s s1 s2 : FakeQueue} {r1 r2 : List ClaimedJob} (w : String)
    → claim now w (pos 1) (pos 300) s ≡ ok (r1, s1)
    → claim now w (pos 1) (pos 300) s ≡ ok (r2, s2)
    → IsClaim lookup now (pos 300) s s1 r1
    → IsClaim lookup now (pos 300) s s2 r2
same_claim {now} {s} w e1 e2 c =
    subst (λ p. IsClaim lookup now (pos 300) s p.1 p.0) (ok-injective (sym e1 ∙ e2)) c

first-IsClaim : IsClaim lookup 10 (pos 300) fake_rows first_rows first_jobs
first-IsClaim =
    let (js, s', e, c, _) = fake_claim-IsClaim 10 1 (pos 300) "w1" fake_rows fake_rows-UniqueKeys in
    same_claim "w1" e first_claim c

second-IsClaim : IsClaim lookup 20 (pos 300) first_rows second_rows second_jobs
second-IsClaim =
    let (js, s', e, c, _) =
      fake_claim-IsClaim 20 1 (pos 300) "w2" first_rows first_rows-UniqueKeys in
    same_claim "w2" e second_claim c

in_first : claims key first_jobs ≡ true
in_first = refl

claims_exclusive_example : claims key second_jobs ≡ false
claims_exclusive_example = claims_exclusive key first-IsClaim second-IsClaim (omega arith) in_first

-- The job of the second row was enqueued earlier, at 3.
abbrev oldest_jobs : List ClaimedJob
oldest_jobs = claimed_job other_key (claim_view 10 (fresh "acme/c2" "g")) ∷ []

abbrev oldest_rows : Jobs
oldest_rows =
    (key, new_job 5 "acme/c1" "h")
    ∷ (
      other_key,
      record (new_job 3 "acme/c2" "g") {
        shown = claim_view 10 (fresh "acme/c2" "g");
        claimed_by = some "w1";
      },
    )
    ∷ []

one_claim :
    claim_unlocked (λ k. false) 10 "w1" (pos 1) (pos 300) jobs ≡ ok (oldest_jobs, oldest_rows)
unfolding claim_unlocked claimable mark_claimed sort_by insert_by is_claimable
one_claim = refl

first_row : lookup key jobs ≡ some (new_job 5 "acme/c1" "h")
unfolding lookup
first_row = refl

second_row : lookup other_key jobs ≡ some (new_job 3 "acme/c2" "g")
unfolding lookup
second_row = refl

first_claimable : is_claimable 10 (pos 300) (fresh "acme/c1" "h") ≡ true
unfolding is_claimable
first_claimable = refl

claim_unlocked_oldest_example : 3 ≤ 5
claim_unlocked_oldest_example =
    claim_unlocked_oldest (λ k. false) 10 1 (pos 300) "w1" jobs oldest_rows oldest_jobs
      jobs-UniqueKeys one_claim other_key key (new_job 3 "acme/c2" "g") (new_job 5 "acme/c1" "h")
      refl second_row first_row first_claimable refl refl
