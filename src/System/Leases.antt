-- ===== src/System/Leases.antt =====
-- queue.py: a time at which every claim of the jobs table is over.
use sb_poc.Prelude.{
  second, ℕ, suc, ◌+◌, ◌*◌, ◌≤◌, String_eq, ℤ, pos, negsuc, true, Option, none, some, [], ◌∷◌, ◌==◌,
  ◌≡◌, subst, ℕ_eq, arith, Bool-cases, inl, inr, ◌⊎◌, lookup,
}
use sb_poc.Queue.{Key, Key_eq, JobView, is_claimable, lease_over}
use sb_poc.Queue.Postgres.{Jobs, view}
use sb_poc.Worker.Open.{is_open, is_closed}
use sb_poc.System.Timed.{is_timed}

-- A time at which a claim is over.
abbrev pub claim_end : ℤ → Option ℕ → ℕ
claim_end lease none = 0
claim_end (pos l) (some t) = suc (t + l * second)
claim_end (negsuc n) (some t) = suc t

-- A time at which every claim of the table is over.
pub latest : ℤ → Jobs → ℕ
latest lease [] = 0
latest lease ((k, j) ∷ jobs) = claim_end lease j.claimed_at + latest lease jobs

pub claim_end-le-latest :
    (lease : ℤ) (k : Key) (v : JobView) (jobs : Jobs)
    → view k jobs ≡ some v
    → claim_end lease v.claimed_at ≤ latest lease jobs
unfolding latest lookup
claim_end-le-latest lease k v [] h = absurd (cc)
claim_end-le-latest lease k v ((i, j) ∷ jobs) h = elim (Bool-cases (i == k)) [
  | inl e ↦
      let own : some j.shown ≡ some v = rw e at h in
      let same : j.shown ≡ v = cc in
      subst (λ (x : JobView). claim_end lease x.claimed_at ≤ latest lease ((i, j) ∷ jobs)) same
        (omega arith)
  | inr e ↦ omega (arith, claim_end-le-latest lease k v jobs (rw e at h))
]

pub open-claimable :
    (lease : ℤ) (now : ℕ) (v : JobView)
    → is_open (some v) ≡ true
    → is_timed (some v) ≡ true
    → claim_end lease v.claimed_at ≤ now
    → is_claimable now lease v ≡ true
unfolding is_claimable lease_over
open-claimable (pos l) now v o t h = ground arith
open-claimable (negsuc l) now v o t h = ground arith

pub open_or_closed : (v : JobView) → (is_open (some v) ≡ true) ⊎ (is_closed (some v) ≡ true)
open_or_closed v = ground arith
