-- ===== src/Tests/Scoring.antt =====
-- Sample scores: the two metrics, the batches of the model and the rows.
use sb_poc.Prelude.{
  ◌≤◌, ◌≡◌, refl, String, String_eq, ◌==◌, ℤ, pos, negsuc, true, false, if◌then◌else◌, List, [],
  ◌∷◌, map, Option, none, some, length, All, ok, raise, zero_division, arith, ◌∙◌, traverse, sym,
  ok-injective, put, lookup, subst, ℕ_eq,
}
use sb_poc.Json.{obj}
use sb_poc.Float.{sum, max_exact}
use sb_poc.Float.Integers.{integers, integers_laws}
use sb_poc.Config.{Config}
use sb_poc.Schema.{ParsedConversation, parse_conversation, parsed, customer_turns}
use sb_poc.Metrics.{
  TurnScore, Overall, Trajectory, neutral, recency_confidence_weighted_mean, scored_pairs,
  overall_sentiment, sentiment_trajectory, signed_of, weights_from, weight, mean_score, label_of,
  positions, slope,
}
use sb_poc.Metrics.Scores.{Calibrated, ScoreInRange, overall_sentiment_total}
use sb_poc.Metrics.Slopes.{
  TrajectoryInRange, sentiment_trajectory_total, sentiment_trajectory_raises,
}
use sb_poc.Metrics.Flat.{sentiment_trajectory_flat}
use sb_poc.Sentiment.{Classifier, Scorer, item, unscored, score_row, score_texts, new_scorer}
use sb_poc.Sentiment.Batches.{own_score, score_texts-own_score}
use sb_poc.Row.{Row, DateTime, score_conversation}
use sb_poc.Row.Status.{IsConsistent, score_conversation-IsConsistent}
use sb_poc.Row.Total.{score_conversation-customers, score_conversation_total}
use sb_poc.Tests.Samples.{
  ascii, identity, cfg, noon, good, bad, good-Calibrated, bad-Calibrated, score_one, score_all,
  score_one-Calibrated, fields, document,
}
use sb_poc.Tests.Documents.{sample, parses}

abbrev scores : List (TurnScore ℤ)
scores = bad ∷ unscored ∷ good ∷ []

pairs-Calibrated : All (Calibrated integers) (scored_pairs scores)
unfolding scored_pairs
pairs-Calibrated = (bad-Calibrated, (good-Calibrated, tt))

length-pairs : length (scored_pairs scores) ≡ 2
unfolding scored_pairs
length-pairs = refl

overall_sentiment_total_example :
    (r : Option (Overall ℤ)) × (overall_sentiment integers cfg scores ≡ ok r)
    × ScoreInRange integers (length (scored_pairs scores)) r
overall_sentiment_total_example =
    overall_sentiment_total integers integers_laws cfg scores refl pairs-Calibrated
      (omega (arith, length-pairs))

sentiment_trajectory_total_example :
    (r : Option (Trajectory ℤ)) × (sentiment_trajectory integers cfg scores ≡ ok r)
    × TrajectoryInRange integers cfg (length (scored_pairs scores)) r
sentiment_trajectory_total_example =
    sentiment_trajectory_total integers integers_laws cfg scores refl pairs-Calibrated

abbrev no_divisor : Config ℤ
no_divisor = record cfg { trajectory_divisor = pos 0 }

sentiment_trajectory_raises_example :
    sentiment_trajectory integers no_divisor scores ≡ raise zero_division
sentiment_trajectory_raises_example =
    sentiment_trajectory_raises integers integers_laws no_divisor scores refl pairs-Calibrated
      (omega (arith, length-pairs))

abbrev flat : List (TurnScore ℤ)
flat = good ∷ good ∷ []

flat-Calibrated : All (Calibrated integers) (scored_pairs flat)
unfolding scored_pairs
flat-Calibrated = (good-Calibrated, (good-Calibrated, tt))

flat-same : All (λ p. p.0 ≡ some (pos 1)) (scored_pairs flat)
unfolding scored_pairs
flat-same = (refl, (refl, tt))

length-flat : length (scored_pairs flat) ≡ 2
unfolding scored_pairs
length-flat = refl

flat_mean :
    (ys : List ℤ)
    → traverse signed_of (scored_pairs flat) ≡ ok ys
    → integers.div (sum integers ys) (integers.of_ℕ (length (scored_pairs flat))) ≡ ok (pos 1)
unfolding scored_pairs traverse sum
flat_mean ys h = rw (sym (ok-injective h)) refl

sentiment_trajectory_flat_example :
    (t : Trajectory ℤ) × (sentiment_trajectory integers cfg flat ≡ ok (some t))
    × (integers.is_zero t.value ≡ true)
    × (integers.is_zero t.slope ≡ true)
sentiment_trajectory_flat_example =
    sentiment_trajectory_flat integers integers_laws cfg flat (pos 1) refl
      (omega (arith, length-flat)) flat-Calibrated flat-same flat_mean

-- A model whose probabilities are the same for every text with a signal.
abbrev pub probabilities_of : String → List ℤ
probabilities_of t = if t == "bad" then pos 1 ∷ pos 0 ∷ pos 0 ∷ [] else pos 0 ∷ pos 0 ∷ pos 1 ∷ []

abbrev pub model : Classifier ℤ
model = record {
  probabilities = λ n ts. map probabilities_of ts;
  argmax = λ row. 2;
  id2label = (0, "negative") ∷ (1, "neutral") ∷ (2, "positive") ∷ [];
}

abbrev pub scorer : Scorer
scorer = record {
  label_by_idx = (0, "negative") ∷ (1, "neutral") ∷ (2, "positive") ∷ [];
  idx_by_label = ("negative", 0) ∷ ("neutral", 1) ∷ ("positive", 2) ∷ [];
}

pub loads : new_scorer ascii model ≡ ok scorer
unfolding new_scorer put lookup
loads = refl

abbrev pub model_score : String → TurnScore ℤ
model_score t = record {
  scored = true;
  label = some "positive";
  signed = some (if t == "bad" then negsuc 0 else pos 1);
  confidence = some (if t == "bad" then pos 0 else pos 1);
  reason = none;
}

pub model-score_row :
    (t : String) → score_row integers model scorer 0 2 (probabilities_of t) ≡ ok (model_score t)
unfolding score_row lookup
model-score_row t = ground arith

pub neg_i : item scorer.idx_by_label "negative" ≡ ok 0
unfolding lookup
neg_i = refl

pub pos_i : item scorer.idx_by_label "positive" ≡ ok 2
unfolding lookup
pos_i = refl

score_texts-own_score_example :
    score_texts integers ascii model scorer cfg ("bad" ∷ "..." ∷ "fine" ∷ "ok" ∷ []) none
    ≡ ok (map (own_score ascii model_score) ("bad" ∷ "..." ∷ "fine" ∷ "ok" ∷ []))
score_texts-own_score_example =
    score_texts-own_score integers ascii model scorer cfg 1 0 2 probabilities_of model_score refl
      neg_i pos_i (λ ts. refl) model-score_row ("bad" ∷ "..." ∷ "fine" ∷ "ok" ∷ [])

pub few :
    (c : ParsedConversation)
    → parse_conversation ascii document ≡ parsed c
    → length (customer_turns c) ≤ max_exact
unfolding customer_turns
few c h =
    let e : sample ≡ c = cc (sym parses ∙ h) in
    subst (λ x. length (customer_turns x) ≤ max_exact) e (omega arith)

score_conversation_total_example :
    (row : Row ℤ) × (score_conversation integers ascii identity score_all cfg noon document
      ≡ ok row)
score_conversation_total_example =
    score_conversation_total integers ascii identity score_all cfg noon score_one (λ xs. refl)
      integers_laws refl refl score_one-Calibrated document few

abbrev overall : Option (Overall ℤ)
overall = some (record {
  label = neutral;
  score = pos 0;
  n_customer_turns_scored = 2;
  basis = recency_confidence_weighted_mean;
})

abbrev trajectory : Option (Trajectory ℤ)
trajectory =
    some (record { value = pos 1; slope = pos 1; n_customer_turns_scored = 2; meaningful = false })

eo :
    overall_sentiment integers cfg (map (λ x. score_one x.text) (customer_turns sample))
    ≡ ok overall
unfolding overall_sentiment customer_turns scored_pairs weights_from weight mean_score label_of
eo = refl

et :
    sentiment_trajectory integers cfg (map (λ x. score_one x.text) (customer_turns sample))
    ≡ ok trajectory
unfolding sentiment_trajectory customer_turns scored_pairs positions traverse slope
et = refl

score_conversation-customers_example :
    (row : Row ℤ) × (score_conversation integers ascii identity score_all cfg noon (obj fields)
      ≡ ok row)
    × (row.overall_sentiment ≡ overall)
    × (row.sentiment_trajectory ≡ trajectory)
score_conversation-customers_example =
    score_conversation-customers integers ascii identity score_all cfg noon score_one (λ xs. refl)
      fields sample overall trajectory parses eo et

sample_row :
    (row : Row ℤ) × (score_conversation integers ascii identity score_all cfg noon document
      ≡ ok row)
    × (row.overall_sentiment ≡ overall)
    × (row.sentiment_trajectory ≡ trajectory)
sample_row =
    score_conversation-customers integers ascii identity score_all cfg noon score_one (λ xs. refl)
      fields sample overall trajectory parses eo et

score_conversation-IsConsistent_example : IsConsistent identity document sample_row.0
score_conversation-IsConsistent_example =
    score_conversation-IsConsistent integers ascii identity score_all cfg noon document sample_row.0
      sample_row.1

abbrev pub one_o_clock : DateTime
one_o_clock = record { local = 46800000000; utc_offset = none }
