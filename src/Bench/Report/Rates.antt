-- ===== src/Bench/Report/Rates.antt =====
-- scripts/bench.py, main: when the benchmark reports, and what its numbers say.
use sb_poc.Prelude.{
  ℕ, suc, ◌+◌, ◌*◌, ◌≤◌, String, ℤ, pos, Option, some, List, [], ◌∷◌, ◌≡◌, ◌⊎◌, refl, subst, ◌∙◌,
  true, false, length, Bool-cases, inl, inr, ok, raise, zero_division,
}
use sb_poc.Float.{Float, FloatLaws, max_exact}
use sb_poc.Metrics.{TurnScore}
use sb_poc.Bench.{Timing, run}
use sb_poc.Bench.Rounds.{turns}
use sb_poc.Bench.Timed.{time_all-counts}
use sb_poc.Bench.Latencies.{Rounding, RoundingLaws}
use sb_poc.Bench.Latencies.Shown.{AreShown, latencies-AreShown}
use sb_poc.Bench.Report.{ScoreTexts, Report, report, measure}

module _ (f : Float) (laws : FloatLaws f) where
  open f use {F, sub, div, of_ℕ, le, is_zero}

  rate_nonneg :
      (n : ℕ) (d x : F)
      → le (of_ℕ 0) d ≡ true
      → is_zero d ≡ false
      → div (of_ℕ n) d ≡ ok x
      → le (of_ℕ 0) x ≡ true
  rate_nonneg n d x d0 dz h =
      let (z, hz) = laws.div_total (of_ℕ 0) d dz in
      subst (λ y. le y x ≡ true) (laws.zero-div d z hz)
        (laws.div_mono (of_ℕ 0) (of_ℕ n) d z x d0 (laws.of_ℕ_nonneg n) hz h)

  -- The same number of things in a time that is not longer is a rate at least as high.
  speedup_lem :
      (n : ℕ) (d e p q s : F)
      → le (of_ℕ 0) d ≡ true
      → is_zero d ≡ false
      → le (of_ℕ 0) e ≡ true
      → is_zero e ≡ false
      → le e d ≡ true
      → is_zero p ≡ false
      → div (of_ℕ n) d ≡ ok p
      → div (of_ℕ n) e ≡ ok q
      → div q p ≡ ok s
      → le (of_ℕ 1) s ≡ true
  speedup_lem n d e p q s d0 dz e0 ez ed pz hp hq hs =
      let (one, h1) = laws.div_total p p pz in
      let faster = laws.div_anti (of_ℕ n) e d q p (laws.of_ℕ_nonneg n) e0 ez ed hq hp in
      subst (λ z. le z s ≡ true) (laws.div_self p one h1)
        (laws.div_mono p q p one s (rate_nonneg n d p d0 dz hp) faster h1 hs)

  -- Why a benchmark over two runs raises.
  pub data NoRate (unbatched batched : Timing F) : Type 0 where
    no_time : is_zero unbatched.elapsed ≡ true → NoRate unbatched batched
    no_batched_time : is_zero batched.elapsed ≡ true → NoRate unbatched batched
    no_rate :
        (q : F)
        → div (of_ℕ unbatched.total_turns) unbatched.elapsed ≡ ok q
        → is_zero q ≡ true
        → NoRate unbatched batched

  -- What the report of two runs over the same conversations says.
  pub record IsReport (conversations : List (List String)) (unbatched batched : Timing F)
      (t : Report F) : Type 0 where
    pub announced : t.total_target_turns ≡ turns conversations
    pub all_unbatched : t.unbatched_turns ≡ t.total_target_turns
    pub all_batched : t.batched_turns ≡ t.total_target_turns
    pub unbatched_rate : div (of_ℕ t.total_target_turns) unbatched.elapsed ≡ ok t.unbatched_tps
    pub batched_rate : div (of_ℕ t.total_target_turns) batched.elapsed ≡ ok t.batched_tps
    pub conversation_rate : div (of_ℕ (length conversations)) batched.elapsed ≡ ok t.conv_per_sec
    pub faster : (le batched.elapsed unbatched.elapsed ≡ false) ⊎ (le (of_ℕ 1) t.speedup ≡ true)
    pub shown : AreShown f laws batched.per_conv_ms t.p50 t.p95 t.max_ms

  module _ (r : Rounding f) (rounding : RoundingLaws f r) (perf_counter : ℕ → F)
      (score_texts : ScoreTexts F)
      (returns : (texts : List String) (size : Option ℤ)
        → (scores : List (TurnScore F)) × (score_texts texts size ≡ ok scores)) where
    -- A run over the conversations, and what it measured.
    pub record IsTimed (clock : ℕ → F) (size : ℤ) (conversations : List (List String))
        (t : Timing F) : Type 0 where
      pub is : run f score_texts clock conversations size ≡ ok t
      pub counts : t.total_turns ≡ turns conversations
      pub times : length t.per_conv_ms ≡ length conversations
      pub forward : le (of_ℕ 0) t.elapsed ≡ true

    pub run-IsTimed :
        (clock : ℕ → F) (size : ℤ) (conversations : List (List String))
        → ((n : ℕ) → le (of_ℕ 0) (sub (clock n) (clock 0)) ≡ true)
        → (t : Timing F) × IsTimed clock size conversations t
    unfolding run
    run-IsTimed clock size conversations on =
        let (last, times, e, same) =
          time_all-counts f score_texts clock size (λ texts. returns texts (some size)) 1
            conversations in
        (
          record {
            elapsed = sub (clock last) (clock 0);
            total_turns = turns conversations;
            per_conv_ms = times;
          },
          record { is = rw e refl; counts = refl; times = same; forward = on last },
        )

    -- What the benchmark makes of two runs: it raises for a reason, or reports.
    abbrev pub Measures : List (List String) → ℤ → List (List String) → Timing F → Timing F → Type 0
    Measures base size conversations unbatched batched =
        ((measure f r perf_counter score_texts base size conversations ≡ raise zero_division)
          × NoRate unbatched batched)
        ⊎ ((t : Report F) × (measure f r perf_counter score_texts base size conversations ≡ ok t)
            × IsReport conversations unbatched batched t)

    module _ (base conversations : List (List String)) (size : ℤ) (u b : Timing F) (n : ℕ)
        (first : IsTimed (λ n. perf_counter (2 + n)) (pos 1) conversations u)
        (second : IsTimed
          (λ n. perf_counter (4 + 2 * length conversations + n))
          size
          conversations
          b)
        (long : length conversations ≡ suc n) (small : n ≤ max_exact) where
      compared :
          (p q s : F)
          → is_zero u.elapsed ≡ false
          → is_zero b.elapsed ≡ false
          → is_zero p ≡ false
          → div (of_ℕ u.total_turns) u.elapsed ≡ ok p
          → div (of_ℕ b.total_turns) b.elapsed ≡ ok q
          → div q p ≡ ok s
          → (le b.elapsed u.elapsed ≡ false) ⊎ (le (of_ℕ 1) s ≡ true)
      compared p q s uz bz pz hp hq hs = elim (Bool-cases (le b.elapsed u.elapsed)) [
        | inr slower ↦ inl slower
        | inl faster ↦ inr (
            speedup_lem (turns conversations) u.elapsed b.elapsed p q s first.forward uz
              second.forward bz faster pz
              (subst (λ k. div (of_ℕ k) u.elapsed ≡ ok p) first.counts hp)
              (subst (λ k. div (of_ℕ k) b.elapsed ≡ ok q) second.counts hq) hs)
      ]

      Measures-rates :
          (p q : F)
          → is_zero u.elapsed ≡ false
          → is_zero b.elapsed ≡ false
          → div (of_ℕ u.total_turns) u.elapsed ≡ ok p
          → div (of_ℕ b.total_turns) b.elapsed ≡ ok q
          → Measures base size conversations u b
      unfolding measure
      Measures-rates p q uz bz hp hq =
          let (scores, warm) = returns ("warm up the model" ∷ []) (some (pos 1)) in
          let (c, hc) = laws.div_total (of_ℕ (length conversations)) b.elapsed bz in
          elim (Bool-cases (is_zero p)) [
            | inl pz ↦ inl (
              rw (warm, first.is, second.is, hp, hq, hc, laws.div_zero q p pz) refl,
              no_rate p hp pz,
            )
            | inr pz ↦
                let (s, hs) = laws.div_total q p pz in
                let (p50, p95, top, shown, a) =
                  latencies-AreShown f laws r rounding b.per_conv_ms n (second.times ∙ long)
                    small in
                inr (
                  report f r perf_counter base conversations u b p q c s (p50, p95, top),
                  rw (warm, first.is, second.is, hp, hq, hc, hs, shown) refl,
                  record {
                    announced = refl;
                    all_unbatched = first.counts;
                    all_batched = second.counts;
                    unbatched_rate = subst (λ k. div (of_ℕ k) u.elapsed ≡ ok p) first.counts hp;
                    batched_rate = subst (λ k. div (of_ℕ k) b.elapsed ≡ ok q) second.counts hq;
                    conversation_rate = hc;
                    faster = compared p q s uz bz pz hp hq hs;
                    shown = a;
                  },
                )
          ]

      pub measure-Measures : Measures base size conversations u b
      unfolding measure
      measure-Measures =
          let (scores, warm) = returns ("warm up the model" ∷ []) (some (pos 1)) in
          elim (Bool-cases (is_zero u.elapsed)) [
            | inl uz ↦ inl (
              rw (warm, first.is, second.is, laws.div_zero (of_ℕ u.total_turns) u.elapsed uz) refl,
              no_time uz,
            )
            | inr uz ↦
                let (p, hp) = laws.div_total (of_ℕ u.total_turns) u.elapsed uz in
                elim (Bool-cases (is_zero b.elapsed)) [
                  | inl bz ↦ inl (
                    rw
                        (
                          warm,
                          first.is,
                          second.is,
                          hp,
                          laws.div_zero (of_ℕ b.total_turns) b.elapsed bz,
                        )
                        refl,
                    no_batched_time bz,
                  )
                  | inr bz ↦
                      let (q, hq) = laws.div_total (of_ℕ b.total_turns) b.elapsed bz in
                      Measures-rates p q uz bz hp hq
                ]
          ]
