-- ===== src/Tests/Benchmarks.antt =====
-- Sample fixtures: a benchmark over them.
use sb_poc.Prelude.{
  ℕ, ◌+◌, ◌*◌, ◌⊎◌, none, raise, zero_division, ◌≤◌, arith, true, negsuc, String, String_eq, ℤ, pos,
  Option, some, List, [], ◌∷◌, ◌≡◌, refl, length, Result, ok,
}
use sb_poc.Json.{Value, null}
use sb_poc.Text.{is_space, lstrip, strip}
use sb_poc.Float.Integers.{integers, integers_laws}
use sb_poc.Metrics.{TurnScore}
use sb_poc.Schema.{parse_conversation, parse_turn, parse_turns, coerce_seq, customer_turns}
use sb_poc.Bench.{bench_texts, load_conversations, Timing}
use sb_poc.Bench.Rounds.{IsRoundRobin}
use sb_poc.Bench.Latencies.{Rounding, RoundingLaws}
use sb_poc.Bench.Report.{Report, main}
use sb_poc.Bench.Report.Rates.{NoRate, IsReport, IsTimed}
use sb_poc.Bench.Report.Printed.{main_reports}
use sb_poc.Tests.Samples.{cfg, ascii, score_all, document}

abbrev fixtures : List (Result Value)
fixtures = ok document ∷ ok null ∷ []

loaded : load_conversations ascii fixtures ≡ ok (("bad" ∷ "fine" ∷ []) ∷ [])
unfolding load_conversations bench_texts parse_conversation parse_turn parse_turns coerce_seq
    customer_turns strip lstrip is_space
loaded = refl

abbrev score_any : List String → Option ℤ → Result (List (TurnScore ℤ))
score_any texts size = score_all texts

abbrev ticks : ℕ → ℤ
ticks n = pos n

abbrev exact : Rounding integers
exact = record { round = λ x. x }

between :
    (n : ℕ) (x : ℤ)
    → integers.le (pos 0) x ≡ true
    → integers.le x (pos n) ≡ true
    → (k : ℕ) × (x ≡ pos k) × (k ≤ n)
between n (pos k) h e = (k, refl, ground arith)
between n (negsuc k) h e = absurd (cc)

exact-RoundingLaws : RoundingLaws integers exact
exact-RoundingLaws = record {
  round_mono = λ x y j k h a b. ground arith;
  round_between = λ n x small h k. between n x h k;
}

always :
    (texts : List String) (size : Option ℤ)
    → (scores : List (TurnScore ℤ)) × (score_any texts size ≡ ok scores)
always texts size = (_, refl)

clock_forward : (m n : ℕ) → m ≤ n → integers.le (pos 0) (integers.sub (ticks n) (ticks m)) ≡ true
clock_forward m n h = ground (arith, h)

main_reports_example :
    (out : List (List String)) × (unbatched : Timing ℤ) × (batched : Timing ℤ) × IsRoundRobin
      (("bad" ∷ "fine" ∷ []) ∷ [])
      (pos 5)
      0
      0
      out
    × IsTimed integers integers_laws exact exact-RoundingLaws ticks score_any always
        (λ n. ticks (2 + n))
        (pos 1)
        out
        unbatched
    × IsTimed integers integers_laws exact exact-RoundingLaws ticks score_any always
        (λ n. ticks (4 + 2 * length out + n))
        (pos 2)
        out
        batched
    × (((main integers exact ticks ascii cfg
              (ok score_any)
              fixtures
              5
              (record { target_turns = pos 5; batch_size = none })
            ≡ raise zero_division)
          × NoRate integers integers_laws unbatched batched)
        ⊎ ((t : Report ℤ) × (main integers exact ticks ascii cfg
                (ok score_any)
                fixtures
                5
                (record { target_turns = pos 5; batch_size = none })
              ≡ ok (some t))
            × IsReport integers integers_laws out unbatched batched t))
main_reports_example =
    main_reports integers integers_laws exact exact-RoundingLaws ticks clock_forward score_any
      always ascii cfg fixtures ("bad" ∷ "fine" ∷ []) [] 4 none loaded (omega arith)
