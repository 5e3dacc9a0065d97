-- ===== src/Bench.antt =====
-- scripts/bench.py: the conversations that the benchmark scores.
pub mod Rounds
pub mod Timed
pub mod Latencies
pub mod Report
use sb_poc.Prelude.{
  ℕ, zero, suc, ◌+◌, String, ℤ, Bool, true, false, not, Option, none, some, List, [], ◌∷◌, map,
  keep_if, length, get_elem?, at_least, if◌then◌else◌, Result, ok, raise, system_exit, ◌>>=◌,
}
use Prim.Native.Nat.{◌%◌}
use sb_poc.Json.{Value}
use sb_poc.Text.{Unicode, codes, strip}
use sb_poc.Float.{Float}
use sb_poc.Metrics.{TurnScore}
use sb_poc.Schema.{ParseResult, parsed, rejected, parse_conversation, customer_turns}

-- `bool(text.strip())`
abbrev pub is_blank : List ℕ → Bool
is_blank [] = true
is_blank (c ∷ cs) = false

-- `if texts: conversations.append(texts)`
abbrev pub append_texts : List String → List (List String) → List (List String)
append_texts [] conversations = conversations
append_texts (t ∷ ts) conversations = (t ∷ ts) ∷ conversations

module _ (u : Unicode) where
  -- The texts of the customer turns that are not blank; a rejected document has none.
  unfoldable pub bench_texts : ParseResult → List String
  unfolding customer_turns strip
  bench_texts (rejected r) = []
  bench_texts (parsed c) =
      keep_if (λ t. not (is_blank (strip (codes t)))) (map (λ t. t.text) (customer_turns c))

  -- The fixtures in sorted order, as `json.loads(path.read_text(...))` gives them.
  unfoldable pub load_conversations : List (Result Value) → Result (List (List String))
  unfolding parse_conversation bench_texts
  load_conversations [] = ok []
  load_conversations (file ∷ files) = do
    raw ← file
    conversations ← load_conversations files
    ok (append_texts (bench_texts (parse_conversation u raw)) conversations)

-- `conversations[i % len(conversations)]`, where there is one
abbrev pub conversation_at : List (List String) → ℕ → List String
conversation_at conversations i = elim (get_elem? conversations (i % length conversations)) [
  | none ↦ []
  | some conv ↦ conv
]

abbrev pub prepend : List String → Option (List (List String)) → Option (List (List String))
prepend conv none = none
prepend conv (some out) = some (conv ∷ out)

-- The loop of `replicate` from the round `i` on; `none` says that the fuel is spent.
unfoldable pub replicate_from : List (List String) → ℤ → ℕ → ℕ → ℕ → Option (List (List String))
replicate_from conversations target zero i total = if at_least total target then some [] else none
replicate_from conversations target (suc fuel) i total =
    let conv = conversation_at conversations i in
    let rest = replicate_from conversations target fuel (suc i) (total + length conv) in
    if at_least total target then some [] else prepend conv rest

unfoldable pub replicate : ℕ → List (List String) → ℤ → Result (Option (List (List String)))
unfolding replicate_from
replicate fuel [] target = raise system_exit
replicate fuel (c ∷ cs) target = ok (replicate_from (c ∷ cs) target fuel 0 0)

-- What `run` returns.
pub record Timing (F : Type 0) : Type 0 where
  pub elapsed : F
  pub total_turns : ℕ
  pub per_conv_ms : List F

module _ (f : Float) (score_texts : List String → Option ℤ → Result (List (TurnScore f.F)))
    (perf_counter : ℕ → f.F) where
  open f use {F, sub, mul, of_ℕ}

  -- The loop of `run`; `read` is the number of times that the clock was read, and it gives the time of the start first.
  unfoldable pub time_all : ℤ → ℕ → List (List String) → Result (ℕ × ℕ × List F)
  time_all batch_size read [] = ok (read, 0, [])
  time_all batch_size read (texts ∷ conversations) = do
    scores ← score_texts texts (some batch_size)
    rest ← time_all batch_size (suc (suc read)) conversations
    let (last, turns, times) = rest
    ok (
      last,
      length texts + turns,
      mul (sub (perf_counter (suc read)) (perf_counter read)) (of_ℕ 1000) ∷ times,
    )

  unfoldable pub run : List (List String) → ℤ → Result (Timing F)
  unfolding time_all
  run conversations batch_size = do
    r ← time_all batch_size 1 conversations
    let (last, turns, times) = r
    ok (record {
      elapsed = sub (perf_counter last) (perf_counter 0);
      total_turns = turns;
      per_conv_ms = times;
    })
