-- ===== src/Bench/Latencies/Shown.antt =====
-- scripts/bench.py, run and main: the latencies of a run that main prints.
use sb_poc.Prelude.{
  ℕ, suc, ◌≤◌, String, ℤ, true, false, Option, some, List, [], ◌∷◌, ◌≡◌, refl, sym, subst, ◌∙◌,
  arith, length, All, Bool-cases, inl, inr, Result, ok,
}
use sb_poc.Float.{Float, FloatLaws, max_exact}
use sb_poc.Metrics.{TurnScore}
use sb_poc.Bench.{Timing, run}
use sb_poc.Bench.Rounds.{turns}
use sb_poc.Bench.Timed.{time_all-counts}
use sb_poc.Bench.Latencies.{Rounding, RoundingLaws, largest_from, largest, latencies}
use sb_poc.Bench.Latencies.Indexed.{Among}
use sb_poc.Bench.Latencies.Ordered.{percentile-IsAt, IsAt-mono, IsAt-Among, IsAt-le}

module _ (f : Float) (laws : FloatLaws f) where
  open f use {F, le}
  open laws use {le_refl, le_trans, le_total}

  largest_from-kept :
      (m x : F) (xs : List F) → le x m ≡ true → largest_from f m (x ∷ xs) ≡ largest_from f m xs
  largest_from-kept m x xs e = rw e refl

  largest_from-passed :
      (m x : F) (xs : List F) → le x m ≡ false → largest_from f m (x ∷ xs) ≡ largest_from f x xs
  largest_from-passed m x xs e = rw e refl

  abbrev AllBelow : F → List F → Type 0
  AllBelow top xs = All (λ x. le x top ≡ true) xs

  largest_from-le : (m : F) (xs : List F) → AllBelow (largest_from f m xs) (m ∷ xs)
  largest_from-le m [] = (le_refl m, tt)
  largest_from-le m (x ∷ xs) = elim (Bool-cases (le x m)) [
    | inl e ↦
        let rest = largest_from-le m xs in
        let top = largest_from f m xs in
        subst (λ t. AllBelow t (m ∷ x ∷ xs)) (sym (largest_from-kept m x xs e))
          (rest.0, (le_trans x m top e rest.0, rest.1))
    | inr e ↦
        let rest = largest_from-le x xs in
        let top = largest_from f x xs in
        subst (λ t. AllBelow t (m ∷ x ∷ xs)) (sym (largest_from-passed m x xs e))
          (le_trans m x top (le_total x m e) rest.0, (rest.0, rest.1))
  ]

  skip_second : (t m x : F) (xs : List F) → Among t (m ∷ xs) → Among t (m ∷ x ∷ xs)
  skip_second t m x xs (inl h) = inl h
  skip_second t m x xs (inr h) = inr (inr h)

  largest_from-Among : (m : F) (xs : List F) → Among (largest_from f m xs) (m ∷ xs)
  largest_from-Among m [] = inl refl
  largest_from-Among m (x ∷ xs) = elim (Bool-cases (le x m)) [
    | inl e ↦
        subst (λ t. Among t (m ∷ x ∷ xs)) (sym (largest_from-kept m x xs e))
          (skip_second (largest_from f m xs) m x xs (largest_from-Among m xs))
    | inr e ↦
        subst (λ t. Among t (m ∷ x ∷ xs)) (sym (largest_from-passed m x xs e))
          (inr (largest_from-Among x xs))
  ]

  -- The largest value is one of the values, and none is larger.
  pub record IsLargest (top : F) (values : List F) : Type 0 where
    pub among : Among top values
    pub above : AllBelow top values

  largest-IsLargest :
      (values : List F) (n : ℕ)
      → length values ≡ suc n
      → (top : F) × (largest f values ≡ ok top) × IsLargest top values
  largest-IsLargest [] n h = absurd (omega arith)
  largest-IsLargest (x ∷ xs) n h = (
    largest_from f x xs,
    refl,
    record { among = largest_from-Among x xs; above = largest_from-le x xs },
  )

  -- The three numbers that are printed for these values.
  pub record AreShown (values : List F) (p50 p95 top : F) : Type 0 where
    pub first : le p50 p95 ≡ true
    pub second : le p95 top ≡ true
    pub median : Among p50 values
    pub tail : Among p95 values
    pub largest : IsLargest top values

  module _ (r : Rounding f) (rounding : RoundingLaws f r) where
    pub latencies-AreShown :
        (values : List F) (n : ℕ)
        → length values ≡ suc n
        → n ≤ max_exact
        → (p50 : F) × (p95 : F) × (top : F) × (latencies f r values ≡ ok (p50, p95, top))
          × AreShown values p50 p95 top
    unfolding latencies
    latencies-AreShown values n long small =
        let (j, x, s, a) = percentile-IsAt f laws r rounding values n long small 50 (omega arith) in
        let (k, y, t, b) = percentile-IsAt f laws r rounding values n long small 95 (omega arith) in
        let (top, e, m) = largest-IsLargest values n long in
        (
          x,
          y,
          top,
          rw (a.is, b.is, e) refl,
          record {
            first =
                IsAt-mono f laws r rounding values n long small 50 95 j k x y s t (omega arith)
                  (omega arith) a b;
            second = IsAt-le f laws r rounding values n long small 95 k y t top b m.above;
            median = IsAt-Among f laws r rounding values n long small 50 j x s a;
            tail = IsAt-Among f laws r rounding values n long small 95 k y t b;
            largest = m;
          },
        )

    module _ (score_texts : List String → Option ℤ → Result (List (TurnScore F)))
        (perf_counter : ℕ → F) (batch_size : ℤ)
        (returns : (texts : List String)
          → (scores : List (TurnScore F)) × (score_texts texts (some batch_size) ≡ ok scores)) where
      -- If the scorer returns for every list of texts, a run over at least one conversation, and at most
      -- 2^53 and one, returns, and so does the line of latencies that is printed for it. Each of the
      -- three latencies is one that was measured, the median is not above the 95th percentile, that is
      -- not above the largest one, and no latency is.
      pub bench_latencies :
          (convs : List (List String)) (n : ℕ)
          → length convs ≡ suc n
          → n ≤ max_exact
          → (t : Timing F) × (p50 : F) × (p95 : F) × (top : F) × (run f score_texts perf_counter
                convs batch_size
              ≡ ok t)
            × (latencies f r t.per_conv_ms ≡ ok (p50, p95, top))
            × AreShown t.per_conv_ms p50 p95 top
      unfolding run
      bench_latencies convs n long small =
          let (last, times, e, same) =
            time_all-counts f score_texts perf_counter batch_size returns 1 convs in
          let (p50, p95, top, shown, ordered) = latencies-AreShown times n (same ∙ long) small in
          (
            record {
              elapsed = f.sub (perf_counter last) (perf_counter 0);
              total_turns = turns convs;
              per_conv_ms = times;
            },
            p50,
            p95,
            top,
            rw e refl,
            shown,
            ordered,
          )
