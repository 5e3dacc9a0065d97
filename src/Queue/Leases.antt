-- ===== src/Queue/Leases.antt =====
-- queue.py, claim: two claims, one after the other, and the lease.
use sb_poc.Prelude.{
  ℕ, ◌+◌, ◌*◌, ◌≤◌, ℤ, pos, true, false, Option, none, some, List, ◌≡◌, refl, arith, second,
  map_option, Bool-cases, inl, inr, ltb,
}
use sb_poc.Queue.{
  Key, ClaimedJob, JobView, lease_over, is_claimable, is_claimable_at, claims, claim_view, IsClaim,
}

within_lease : (now now' n : ℕ) → now' ≤ now + n * second → ltb (now + n * second) now' ≡ false
within_lease now now' n h = ground arith

not_claimable :
    (now now' n : ℕ) (o : Option JobView)
    → now' ≤ now + n * second
    → is_claimable_at now' (pos n) (map_option (claim_view now) o) ≡ false
unfolding is_claimable lease_over
not_claimable now now' n none h = refl
not_claimable now now' n (some v) h = within_lease now now' n h

-- A job that one claim has handed out is not handed out by the next claim, by whatever worker, as long
-- as the lease has not run out.
pub claims_exclusive :
    {S : Type 0} {view : Key → S → Option JobView} {now now' n : ℕ} {lease : ℤ} {s s' s'' : S}
    {jobs jobs' : List ClaimedJob} (k : Key)
    → IsClaim view now lease s s' jobs
    → IsClaim view now' (pos n) s' s'' jobs'
    → now' ≤ now + n * second
    → claims k jobs ≡ true
    → claims k jobs' ≡ false
claims_exclusive {view = view} {now} {now'} {n} {s = s} {s' = s'} {jobs' = jobs'} k first second h
      taken =
    elim (Bool-cases (claims k jobs')) [
      | inr e ↦ e
      | inl e ↦
          let marked : view k s' ≡ map_option (claim_view now) (view k s) =
            rw (first.effect k, taken) refl in
          absurd
            (ground (arith, marked, second.claimable k e, not_claimable now now' n (view k s) h))
    ]
