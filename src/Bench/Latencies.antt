-- ===== src/Bench/Latencies.antt =====
-- scripts/bench.py, percentile and the line of latencies that main prints.
pub mod Indexed
pub mod Ordered
pub mod Shown
use sb_poc.Prelude.{
  ℕ, zero, suc, ◌-◌, ◌≤◌, ℤ, pos, negsuc, Bool, true, false, Option, none, some, List, [], ◌∷◌, ◌≡◌,
  length, get_elem?, ltb, if◌then◌else◌, sort_by, Result, ok, raise, value_error, index_error,
  ◌>>=◌,
}
use sb_poc.Float.{Float, max_exact}

abbrev or_index_error {ℓ} : {A : Type ℓ} → Option A → Result A
or_index_error none = raise index_error
or_index_error (some x) = ok x

-- `data[k]`: a negative index counts from the end.
abbrev pub get_item {ℓ} : {A : Type ℓ} → List A → ℤ → Result A
get_item xs (pos k) = or_index_error (get_elem? xs k)
get_item xs (negsuc k) =
    if ltb k (length xs)
    then or_index_error (get_elem? xs (length xs - suc k))
    else raise index_error

-- `round(x)` of a float that is not infinite: an integer that is nearest to it.
pub record Rounding (f : Float) : Type 0 where
  pub round : f.F → ℤ

-- What is relied on: rounding keeps the order, and a float between two integers is not rounded past them.
pub record RoundingLaws (f : Float) (r : Rounding f) : Type 0 where
  pub round_mono :
      (x y : f.F) (j k : ℕ) → f.le x y ≡ true → r.round x ≡ pos j → r.round y ≡ pos k → j ≤ k
  pub round_between :
      (n : ℕ) (x : f.F)
      → n ≤ max_exact
      → f.le (f.of_ℕ 0) x ≡ true
      → f.le x (f.of_ℕ n) ≡ true
      → (k : ℕ) × (r.round x ≡ pos k) × (k ≤ n)

module _ (f : Float) where
  open f use {F, le}

  -- `max(values)`: the first of the largest ones
  abbrev pub largest_from : F → List F → F
  largest_from m [] = m
  largest_from m (x ∷ xs) = largest_from (if le x m then m else x) xs

  abbrev pub largest : List F → Result F
  largest [] = raise value_error
  largest (x ∷ xs) = ok (largest_from x xs)

module _ (f : Float) (r : Rounding f) where
  open f use {F, div, mul, neg, of_ℕ, le}

  -- `float(n - 1)`
  abbrev pub one_less : ℕ → F
  one_less zero = neg (of_ℕ 1)
  one_less (suc n) = of_ℕ n

  unfoldable pub percentile : List F → ℕ → Result F
  unfolding sort_by
  percentile values p =
      let ordered = sort_by le values in
      do
        share ← div (of_ℕ p) (of_ℕ 100)
        get_item ordered (r.round (mul share (one_less (length ordered))))

  -- The three numbers of the last line of `main`.
  unfoldable pub latencies : List F → Result (F × F × F)
  unfolding percentile
  latencies per_conv_ms = do
    p50 ← percentile per_conv_ms 50
    p95 ← percentile per_conv_ms 95
    top ← largest f per_conv_ms
    ok (p50, p95, top)
