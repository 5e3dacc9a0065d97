-- ===== src/Row/Total.antt =====
-- result.py, score_conversation: documents of any shape.
use sb_poc.Prelude.{
  ◌≤◌, ◌≡◌, refl, String, true, false, Option, List, [], ◌∷◌, map, Result, ok, arith, All, length,
  Bool-cases, inl, inr,
}
use sb_poc.Json.{Value, null, bool, int, float, str, arr, obj, Fields}
use sb_poc.Text.{Unicode}
use sb_poc.Float.{Float, FloatLaws, max_exact}
use sb_poc.Float.Sums.{IsNonneg}
use sb_poc.Config.{Config}
use sb_poc.Schema.{
  ParsedTurn, ParsedConversation, Rejection, ParseResult, parsed, rejected, parse_conversation,
  customer_turns,
}
use sb_poc.Schema.Documents.{parse_conversation-Partition}
use sb_poc.Metrics.{
  TurnScore, Overall, Trajectory, scored_pairs, overall_sentiment, sentiment_trajectory,
}
use sb_poc.Metrics.Scores.{Calibrated, overall_sentiment_total}
use sb_poc.Metrics.Slopes.{sentiment_trajectory_total}
use sb_poc.Hashing.{Digest}
use sb_poc.Row.{Row, DateTime, row_of, score_conversation, rejected_row, id_of, hash_of, unusable}
use sb_poc.Row.Customers.{score_parsed-HasMetrics}

module _ (f : Float) (u : Unicode) (d : Digest)
    (score_texts : List String → Result (List (TurnScore f.F))) (cfg : Config f.F) (now : DateTime)
    (g : String → TurnScore f.F) (alone : (xs : List String) → score_texts xs ≡ ok (map g xs)) where
  open f use {F, is_zero}

  -- With a scorer that scores each text by itself, the two metrics in the row of a parsed document are
  -- those of the document's customer turns, in the order of the array. Whether agent turns are scored
  -- too makes no difference to them.
  pub score_conversation-customers :
      (fs : Fields) (c : ParsedConversation) (o : Option (Overall F)) (t : Option (Trajectory F))
      → parse_conversation u (obj fs) ≡ parsed c
      → overall_sentiment f cfg (map (λ x. g x.text) (customer_turns c)) ≡ ok o
      → sentiment_trajectory f cfg (map (λ x. g x.text) (customer_turns c)) ≡ ok t
      → (row : Row F) × (score_conversation f u d score_texts cfg now (obj fs) ≡ ok row)
        × (row.overall_sentiment ≡ o)
        × (row.sentiment_trajectory ≡ t)
  unfolding score_conversation row_of
  score_conversation-customers fs c o t p eo et =
      let (xs, _, _, _, split) = parse_conversation-Partition u fs c p in
      rw p (
        score_parsed-HasMetrics f u d score_texts cfg now g alone (obj fs) c o t split.kept_order eo
          et)

  module _ (laws : FloatLaws f) (recency : IsNonneg f cfg.recency_lambda)
      (divisor : is_zero cfg.trajectory_divisor ≡ false)
      (calibrated : (x : String)
        → (g x).scored ≡ true
        → Calibrated f ((g x).signed, (g x).confidence)) where
    pairs-Calibrated :
        (ts : List ParsedTurn) → All (Calibrated f) (scored_pairs (map (λ x. g x.text) ts))
    unfolding scored_pairs
    pairs-Calibrated [] = tt
    pairs-Calibrated (t ∷ ts) = elim (Bool-cases (g t.text).scored) [
      | inl e ↦ rw e (calibrated t.text e, pairs-Calibrated ts)
      | inr e ↦ rw e (pairs-Calibrated ts)
    ]

    length-pairs :
        (ts : List ParsedTurn) → length (scored_pairs (map (λ x. g x.text) ts)) ≤ length ts
    unfolding scored_pairs
    length-pairs [] = omega arith
    length-pairs (t ∷ ts) = ground (arith, length-pairs ts)

    rejected_total :
        (raw : Value) (r : Rejection)
        → parse_conversation u raw ≡ rejected r
        → (row : Row F) × (score_conversation f u d score_texts cfg now raw ≡ ok row)
    unfolding score_conversation row_of
    rejected_total raw r e = (
      rejected_row cfg now (id_of "tenant_id" raw) (id_of "conversation_id" raw) (hash_of d raw)
          (unusable r.reason) r.detail,
      rw e,
    )

    parsed_total :
        (fs : Fields) (c : ParsedConversation)
        → parse_conversation u (obj fs) ≡ parsed c
        → length (customer_turns c) ≤ max_exact
        → (row : Row F) × (score_conversation f u d score_texts cfg now (obj fs) ≡ ok row)
    parsed_total fs c e small =
        let scores = map (λ x. g x.text) (customer_turns c) in
        let pairs = pairs-Calibrated (customer_turns c) in
        let few : length (scored_pairs scores) ≤ max_exact =
          omega (arith, length-pairs (customer_turns c)) in
        let (o, eo, _) = overall_sentiment_total f laws cfg scores recency pairs few in
        let (t, et, _) = sentiment_trajectory_total f laws cfg scores divisor pairs in
        let (row, er, _, _) = score_conversation-customers fs c o t e eo et in (row, er)

    object_total :
        (fs : Fields) (p : ParseResult)
        → parse_conversation u (obj fs) ≡ p
        → ((c : ParsedConversation) → p ≡ parsed c → length (customer_turns c) ≤ max_exact)
        → (row : Row F) × (score_conversation f u d score_texts cfg now (obj fs) ≡ ok row)
    object_total fs (rejected r) e small = rejected_total (obj fs) r e
    object_total fs (parsed c) e small = parsed_total fs c e (small c refl)

    -- With a recency weight that is not negative, a divisor other than zero and a scorer that returns
    -- calibrated scores for each text by itself, `score_conversation` returns a row for every value
    -- that JSON can hold, as long as a parsed one has at most 2^53 customer turns.
    pub score_conversation_total :
        (raw : Value)
        → ((c : ParsedConversation)
            → parse_conversation u raw ≡ parsed c
            → length (customer_turns c) ≤ max_exact)
        → (row : Row F) × (score_conversation f u d score_texts cfg now raw ≡ ok row)
    unfolding parse_conversation
    score_conversation_total (obj fs) small =
        object_total fs (parse_conversation u (obj fs)) refl small
    score_conversation_total null small = rejected_total null _ refl
    score_conversation_total (bool b) small = rejected_total (bool b) _ refl
    score_conversation_total (int n) small = rejected_total (int n) _ refl
    score_conversation_total (float x) small = rejected_total (float x) _ refl
    score_conversation_total (str s) small = rejected_total (str s) _ refl
    score_conversation_total (arr xs) small = rejected_total (arr xs) _ refl
