-- ===== src/Bench/Timed.antt =====
-- scripts/bench.py, run: what the benchmark counts.
use sb_poc.Prelude.{
  ℕ, suc, String, ℤ, Option, some, List, [], ◌∷◌, ◌≡◌, refl, ap, true, length, at_least, Result, ok,
}
use sb_poc.Json.{Value}
use sb_poc.Text.{Unicode}
use sb_poc.Float.{Float}
use sb_poc.Metrics.{TurnScore}
use sb_poc.Bench.{load_conversations, replicate, Timing, time_all, run}
use sb_poc.Bench.Rounds.{turns, IsRoundRobin, replicate-IsRoundRobin}

module _ (f : Float) (score_texts : List String → Option ℤ → Result (List (TurnScore f.F)))
    (perf_counter : ℕ → f.F) (batch_size : ℤ)
    (returns : (texts : List String)
      → (scores : List (TurnScore f.F)) × (score_texts texts (some batch_size) ≡ ok scores)) where
  open f use {F}

  pub time_all-counts :
      (read : ℕ) (convs : List (List String))
      → (last : ℕ) × (times : List F) × (time_all f score_texts perf_counter batch_size read convs
          ≡ ok (last, turns convs, times))
        × (length times ≡ length convs)
  unfolding time_all
  time_all-counts read [] = (read, [], refl, refl)
  time_all-counts read (texts ∷ convs) =
      let (scores, e) = returns texts in
      let (last, times, e1, same) = time_all-counts (suc (suc read)) convs in
      (
        last,
        f.mul (f.sub (perf_counter (suc read)) (perf_counter read)) (f.of_ℕ 1000) ∷ times,
        rw (e, e1) refl,
        ap suc same,
      )

  -- If the scorer returns for every list of texts, and there is a fixture with a customer turn that is
  -- not blank, the benchmark picks its conversations within as many rounds as turns are asked for. It
  -- takes the fixtures in turn, from the first on, reaches the number of turns, and stops as soon as it
  -- does. A run over them, at any batch size, returns; it counts the turns that were picked, and has one
  -- time for each conversation.
  pub bench_counts :
      (u : Unicode) (files : List (Result Value)) (c : List String) (cs : List (List String))
      (target : ℤ) (fuel : ℕ)
      → load_conversations u files ≡ ok (c ∷ cs)
      → at_least fuel target ≡ true
      → (out : List (List String)) × (t : Timing F) × (replicate fuel (c ∷ cs) target
          ≡ ok (some out))
        × IsRoundRobin (c ∷ cs) target 0 0 out
        × (run f score_texts perf_counter out batch_size ≡ ok t)
        × (t.total_turns ≡ turns out)
        × (length t.per_conv_ms ≡ length out)
  unfolding run
  bench_counts u files c cs target fuel loaded h =
      let (out, e, r) = replicate-IsRoundRobin u files c cs target fuel loaded h in
      let (last, times, e1, same) = time_all-counts 1 out in
      (
        out,
        record {
          elapsed = f.sub (perf_counter last) (perf_counter 0);
          total_turns = turns out;
          per_conv_ms = times;
        },
        e,
        r,
        rw e1 refl,
        refl,
        same,
      )
