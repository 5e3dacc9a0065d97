-- ===== src/Bench/Report/Printed.antt =====
-- scripts/bench.py, main: what the benchmark prints for a number of turns.
use sb_poc.Prelude.{
  ok-injective, ℕ, zero, suc, ◌+◌, ◌*◌, ◌≤◌, String, ℤ, pos, Option, none, some, List, [], ◌∷◌, ◌≡◌,
  ◌⊎◌, refl, ap, ◌∙◌, arith, true, length, at_least, Bool-cases, inl, inr, Result, ok, raise, ◌>>=◌,
  zero_division,
}
use sb_poc.Json.{Value}
use sb_poc.Text.{Unicode}
use sb_poc.Float.{Float, FloatLaws, max_exact}
use sb_poc.Config.{Config}
use sb_poc.Metrics.{TurnScore}
use sb_poc.Sentiment.{or_default}
use sb_poc.Bench.{load_conversations, Timing, conversation_at, replicate_from, replicate, prepend}
use sb_poc.Bench.Rounds.{turns, IsRoundRobin, replicate-IsRoundRobin}
use sb_poc.Bench.Latencies.{Rounding, RoundingLaws}
use sb_poc.Bench.Report.{ScoreTexts, Report, Args, for_picked, measure, main}
use sb_poc.Bench.Report.Rates.{NoRate, IsReport, IsTimed, run-IsTimed, measure-Measures}

prepend_rounds :
    (conv : List String) (rest : Option (List (List String))) (out : List (List String)) (n : ℕ)
    → ((more : List (List String)) → rest ≡ some more → length more ≤ n)
    → prepend conv rest ≡ some out
    → length out ≤ suc n
prepend_rounds conv none out n few h = absurd (cc)
prepend_rounds conv (some more) out n few h = ground (arith, h, few more refl)

-- Every picked conversation took a round.
replicate_from_rounds :
    (convs : List (List String)) (target : ℤ) (fuel i total : ℕ) (out : List (List String))
    → replicate_from convs target fuel i total ≡ some out
    → length out ≤ fuel
unfolding replicate_from
replicate_from_rounds convs target zero i total out h = elim (Bool-cases (at_least total target)) [
  | inl e ↦ ground (arith, e, h)
  | inr e ↦ absurd (ground (arith, e, h))
]
replicate_from_rounds convs target (suc fuel) i total out h =
    elim (Bool-cases (at_least total target)) [
      | inl e ↦ ground (arith, e, h)
      | inr e ↦
          prepend_rounds (conversation_at convs i) _ out fuel
            (replicate_from_rounds convs target fuel (suc i)
              (total + length (conversation_at convs i)))
            (rw e at h)
    ]

replicate_rounds :
    (c : List String) (cs : List (List String)) (target : ℤ) (fuel : ℕ) (out : List (List String))
    → replicate fuel (c ∷ cs) target ≡ ok (some out)
    → length out ≤ fuel
unfolding replicate
replicate_rounds c cs target fuel out h =
    replicate_from_rounds (c ∷ cs) target fuel 0 0 out (ok-injective h)

returned :
    {A B : Type 0} (x : Result A) (a : A) (next : A → Result B) → x ≡ ok a → (x >>= next) ≡ next a
returned x a next h = ap (λ y. y >>= next) h

main_picks :
    (f : Float) (r : Rounding f) (perf_counter : ℕ → f.F) (u : Unicode) (cfg : Config f.F)
    (score_texts : ScoreTexts f.F) (files : List (Result Value)) (fuel : ℕ) (args : Args)
    (base : List (List String)) (picked : Option (List (List String)))
    → load_conversations u files ≡ ok base
    → replicate fuel base args.target_turns ≡ ok picked
    → main f r perf_counter u cfg (ok score_texts) files fuel args
      ≡ for_picked picked
          (measure f r perf_counter score_texts base (or_default args.batch_size cfg.batch_size))
unfolding main
main_picks f r perf_counter u cfg score_texts files fuel args base picked loaded e =
    returned (load_conversations u files) base _ loaded
    ∙ returned (replicate fuel base args.target_turns) picked _ e

some_turns :
    (out : List (List String)) (target : ℕ)
    → at_least (0 + turns out) (pos (suc target)) ≡ true
    → (n : ℕ) × (length out ≡ suc n)
some_turns [] target h = absurd (ground (arith, h))
some_turns (c ∷ out) target h = (length out, refl)

module _ (f : Float) (laws : FloatLaws f) (r : Rounding f) (rounding : RoundingLaws f r)
    (perf_counter : ℕ → f.F)
    (forward : (m n : ℕ) → m ≤ n → f.le (f.of_ℕ 0) (f.sub (perf_counter n) (perf_counter m)) ≡ true)
    (score_texts : ScoreTexts f.F)
    (returns : (texts : List String) (size : Option ℤ)
      → (scores : List (TurnScore f.F)) × (score_texts texts size ≡ ok scores)) where
  open f use {F}

  -- If the clock of the benchmark does not run backwards, the scorer returns for every list of texts,
  -- some fixture has a customer turn that is not blank, and between 1 and 2^53 and one turns are asked
  -- for, then the conversations are picked in turn from the fixtures, they reach the number of turns
  -- and no fewer of them do. Both runs over them return. The benchmark raises `ZeroDivisionError` only
  -- if a run took no time or the rate of the first is rounded to zero; otherwise it reports the turns
  -- of the picked conversations for both runs, with the rates that these times give. The speedup is at
  -- least one unless the batched run took longer, and each of the three latencies is one that the
  -- batched run measured: the median is not above the 95th percentile, that is not above the largest
  -- one, and no latency is.
  pub main_reports :
      (u : Unicode) (cfg : Config F) (files : List (Result Value)) (c : List String)
      (cs : List (List String)) (target : ℕ) (size : Option ℤ)
      → load_conversations u files ≡ ok (c ∷ cs)
      → target ≤ max_exact
      → (out : List (List String)) × (unbatched : Timing F) × (batched : Timing F) × IsRoundRobin
          (c ∷ cs)
          (pos (suc target))
          0
          0
          out
        × IsTimed f laws r rounding perf_counter score_texts returns
            (λ n. perf_counter (2 + n))
            (pos 1)
            out
            unbatched
        × IsTimed f laws r rounding perf_counter score_texts returns
            (λ n. perf_counter (4 + 2 * length out + n))
            (or_default size cfg.batch_size)
            out
            batched
        × (((main f r perf_counter u cfg
                  (ok score_texts)
                  files
                  (suc target)
                  (record { target_turns = pos (suc target); batch_size = size })
                ≡ raise zero_division)
              × NoRate f laws unbatched batched)
            ⊎ ((t : Report F) × (main f r perf_counter u cfg
                    (ok score_texts)
                    files
                    (suc target)
                    (record { target_turns = pos (suc target); batch_size = size })
                  ≡ ok (some t))
                × IsReport f laws out unbatched batched t))
  main_reports u cfg files c cs target size loaded small =
      let (out, picked, round) =
        replicate-IsRoundRobin u files c cs (pos (suc target)) (suc target) loaded (ground arith) in
      let few = replicate_rounds c cs (pos (suc target)) (suc target) out picked in
      let (n, long) = some_turns out target round.enough in
      let (unbatched, first) =
        run-IsTimed f laws r rounding perf_counter score_texts returns (λ n. perf_counter (2 + n))
          (pos 1) out (λ n. forward 2 (2 + n) (omega arith)) in
      let (batched, second) =
        run-IsTimed f laws r rounding perf_counter score_texts returns
          (λ n. perf_counter (4 + 2 * length out + n)) (or_default size cfg.batch_size) out
          (λ n. forward (4 + 2 * length out + 0) (4 + 2 * length out + n) (omega arith)) in
      let ran =
        main_picks f r perf_counter u cfg score_texts files (suc target)
          (record { target_turns = pos (suc target); batch_size = size }) (c ∷ cs) (some out) loaded
          picked in
      (
        out,
        unbatched,
        batched,
        round,
        first,
        second,
        elim (measure-Measures f laws r rounding perf_counter score_texts returns (c ∷ cs) out
            (or_default size cfg.batch_size) unbatched batched n first second long (omega arith)) [
              | inl (e, why) ↦ inl (ran ∙ rw e refl, why)
              | inr (t, e, says) ↦ inr (t, ran ∙ rw e refl, says)
            ],
      )
