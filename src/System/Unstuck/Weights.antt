-- ===== src/System/Unstuck/Weights.antt =====
-- worker.py, max_delivery: how many deliveries the open jobs have left.
use sb_poc.Prelude.{
  ℕ, suc, ◌+◌, ◌-◌, ◌≤◌, ◌<◌, ℤ, pos, negsuc, Bool, true, false, Option, none, some, List, [], ◌∷◌,
  ◌==◌, ◌≡◌, ◌↔◌, ap, ◌⊎◌, inl, inr, exceeds, if◌then◌else◌, map_option, arith, Bool-cases,
  String_eq,
}
use sb_poc.Queue.{Key, Key_eq, key_beq_iff, JobView, is_claimable, is_claimable_at, claim_view}
use sb_poc.Worker.Open.{is_open, is_open_status, among}

-- The deliveries that a job has left before it is closed as dead.
abbrev left : ℤ → ℕ → ℕ
left (pos m) n = suc m - n
left (negsuc m) n = 0

-- What an open job weighs: one more than the deliveries it has left.
abbrev pub weight : ℤ → Option JobView → ℕ
weight allowed none = 0
weight allowed (some v) = if is_open_status v.status then suc (left allowed v.delivery_count) else 0

-- A claim makes no job heavier.
pub weight-claim_view :
    (allowed : ℤ) (now at : ℕ) (lease : ℤ) (o : Option JobView)
    → is_claimable_at at lease o ≡ true
    → weight allowed (map_option (claim_view now) o) ≤ weight allowed o
unfolding is_claimable
weight-claim_view allowed now at lease none h = omega arith
weight-claim_view (pos m) now at lease (some v) h = ground arith
weight-claim_view (negsuc m) now at lease (some v) h = ground arith

-- A claim makes a job lighter if the job is not yet delivered too often.
pub weight-claim_view_less :
    (allowed : ℤ) (now at : ℕ) (lease : ℤ) (v : JobView)
    → is_claimable at lease v ≡ true
    → exceeds (claim_view now v).delivery_count allowed ≡ false
    → weight allowed (some (claim_view now v)) < weight allowed (some v)
unfolding is_claimable
weight-claim_view_less (pos m) now at lease v h e = ground arith
weight-claim_view_less (negsuc m) now at lease v h e = absurd (cc)

pub weight-open :
    (allowed : ℤ) (at : ℕ) (lease : ℤ) (o : Option JobView)
    → is_claimable_at at lease o ≡ true
    → 0 < weight allowed o
unfolding is_claimable
weight-open allowed at lease none h = absurd (cc)
weight-open allowed at lease (some v) h = ground arith

-- An open job weighs something, and nothing else does.
pub weight-is_open :
    (allowed : ℤ) (o : Option JobView) → (is_open o ≡ true) ↔ (0 < weight allowed o)
weight-is_open allowed none = (λ h. absurd (cc), λ h. absurd (omega arith))
weight-is_open allowed (some v) = (λ h. ground arith, λ h. ground arith)

-- What all jobs weigh.
pub total : (Key → ℕ) → List Key → ℕ
total w [] = 0
total w (k ∷ ks) = w k + total w ks

total-le : (v w : Key → ℕ) (ks : List Key) → ((k : Key) → v k ≤ w k) → total v ks ≤ total w ks
unfolding total
total-le v w [] h = omega arith
total-le v w (k ∷ ks) h = omega (arith, h k, total-le v w ks h)

pub total-lt :
    (v w : Key → ℕ) (j : Key) (ks : List Key)
    → ((k : Key) → v k ≤ w k)
    → v j < w j
    → among j ks ≡ true
    → total v ks < total w ks
unfolding total
total-lt v w j [] h less e = absurd (cc)
total-lt v w j (k ∷ ks) h less e = elim (Bool-cases (k == j)) [
  | inl here ↦
      let same : k ≡ j = (key_beq_iff k j).0 here in
      omega (arith, ap v same, ap w same, less, total-le v w ks h)
  | inr there ↦ omega (arith, h k, total-lt v w j ks h less (rw there at e))
]

-- One of the keys passes a test, or none does.
pub any_among :
    (p : Key → Bool) (ks : List Key)
    → ((k : Key) × (p k ≡ true)) ⊎ ((k : Key) → among k ks ≡ true → p k ≡ false)
any_among p [] = inr (λ k h. absurd (cc))
any_among p (j ∷ ks) = elim (Bool-cases (p j)) [
  | inl e ↦ inl (j, e)
  | inr e ↦ elim (any_among p ks) [
    | inl found ↦ inl found
    | inr free ↦ inr (λ k h. elim (Bool-cases (j == k)) [
      | inl here ↦ let same : j ≡ k = (key_beq_iff j k).0 here in cc (ap p same, e)
      | inr there ↦ free k (rw there at h)
    ])
  ]
]
