-- ===== src/Bench/Report.antt =====
-- scripts/bench.py, main: the two timed runs and the numbers that are printed of them.
pub mod Rates
pub mod Printed
use sb_poc.Prelude.{
  ℕ, ◌+◌, ◌*◌, String, ℤ, pos, Option, none, some, List, [], ◌∷◌, length, Result, ok, raise, ◌>>=◌,
}
use sb_poc.Json.{Value}
use sb_poc.Text.{Unicode}
use sb_poc.Float.{Float}
use sb_poc.Config.{Config}
use sb_poc.Metrics.{TurnScore}
use sb_poc.Sentiment.{or_default}
use sb_poc.Bench.{load_conversations, replicate, Timing, run}
use sb_poc.Bench.Rounds.{turns}
use sb_poc.Bench.Latencies.{Rounding, latencies}

-- The command line of the benchmark.
pub record Args : Type 0 where
  pub target_turns : ℤ
  pub batch_size : Option ℤ

-- The numbers that are printed, in the order of the lines.
pub record Report (F : Type 0) : Type 0 where
  pub model_load : F
  pub conversations : ℕ
  pub total_target_turns : ℕ
  pub base_conversations : ℕ
  pub base_turns : ℕ
  pub unbatched_tps : F
  pub unbatched_elapsed : F
  pub unbatched_turns : ℕ
  pub batched_tps : F
  pub batched_elapsed : F
  pub batched_turns : ℕ
  pub speedup : F
  pub conv_per_sec : F
  pub p50 : F
  pub p95 : F
  pub max_ms : F

-- `scorer.score_texts`
abbrev pub ScoreTexts : Type 0 → Type 0
ScoreTexts F = List String → Option ℤ → Result (List (TurnScore F))

-- What is done with the picked conversations, if the fuel was enough to pick them.
abbrev pub for_picked {ℓ κ} :
    {A : Type ℓ} {B : Type κ} → Option A → (A → Result B) → Result (Option B)
for_picked none next = ok none
for_picked (some a) next = do b ← next a; ok (some b)

module _ (f : Float) (r : Rounding f) (perf_counter : ℕ → f.F) where
  open f use {F, sub, div, of_ℕ}

  -- What `main` prints, by its numbers.
  abbrev pub report :
      List (List String)
      → List (List String)
      → Timing F
      → Timing F
      → F
      → F
      → F
      → F
      → F × F × F
      → Report F
  report base conversations unbatched batched unbatched_tps batched_tps conv_per_sec speedup
        (p50, p95, top) =
      record {
        model_load = sub (perf_counter 1) (perf_counter 0);
        conversations = length conversations;
        total_target_turns = turns conversations;
        base_conversations = length base;
        base_turns = turns base;
        unbatched_tps = unbatched_tps;
        unbatched_elapsed = unbatched.elapsed;
        unbatched_turns = unbatched.total_turns;
        batched_tps = batched_tps;
        batched_elapsed = batched.elapsed;
        batched_turns = batched.total_turns;
        speedup = speedup;
        conv_per_sec = conv_per_sec;
        p50 = p50;
        p95 = p95;
        max_ms = top;
      }

  -- `main` from the two runs on: the clock was read twice before the first, and by each run once at
  -- its start, twice for a conversation, and once at its end.
  unfoldable pub measure :
      ScoreTexts F → List (List String) → ℤ → List (List String) → Result (Report F)
  unfolding run latencies
  measure score_texts base batch_size conversations = do
    warm ← score_texts ("warm up the model" ∷ []) (some (pos 1))
    unbatched ← run f score_texts (λ n. perf_counter (2 + n)) conversations (pos 1)
    batched ←
        run f score_texts (λ n. perf_counter (4 + 2 * length conversations + n)) conversations
          batch_size
    unbatched_tps ← div (of_ℕ unbatched.total_turns) unbatched.elapsed
    batched_tps ← div (of_ℕ batched.total_turns) batched.elapsed
    conv_per_sec ← div (of_ℕ (length conversations)) batched.elapsed
    speedup ← div batched_tps unbatched_tps
    shown ← latencies f r batched.per_conv_ms
    ok (
        report base conversations unbatched batched unbatched_tps batched_tps conv_per_sec speedup
          shown)

  -- `scorer` is what `Scorer(cfg)` gives, and `files` are the fixtures in sorted order.
  unfoldable pub main :
      Unicode
      → Config F
      → Result (ScoreTexts F)
      → List (Result Value)
      → ℕ
      → Args
      → Result (Option (Report F))
  unfolding load_conversations replicate measure
  main u cfg scorer files fuel args = do
    score_texts ← scorer
    base ← load_conversations u files
    picked ← replicate fuel base args.target_turns
    for_picked picked (measure score_texts base (or_default args.batch_size cfg.batch_size))
