-- ===== src/Metrics.antt =====
-- src/pipeline/metrics.py: the two metrics of a conversation, over any float arithmetic.
pub mod Flat
pub mod Scores
pub mod Slopes
use sb_poc.Prelude.{
  ℕ, zero, suc, ◌-◌, ℤ, at_least, String, Bool, true, false, Option, none, some, List, [], ◌∷◌,
  Result, ok, raise, type_error, value_error, ◌>>=◌, traverse, length, ltb, nat_eq, if◌then◌else◌,
}
use sb_poc.Float.{Float, sum}
use sb_poc.Config.{Config}

-- `sentiment.TurnScore`, which is what `ScoredLike` asks for
pub record TurnScore (F : Type 0) : Type 0 where
  pub scored : Bool
  pub label : Option String
  pub signed : Option F
  pub confidence : Option F
  pub reason : Option String

pub data Label : Type 0 where
  negative neutral positive : Label

pub data Basis : Type 0 where
  single_turn recency_confidence_weighted_mean : Basis

pub record Overall (F : Type 0) : Type 0 where
  pub label : Label
  pub score : F
  pub n_customer_turns_scored : ℕ
  pub basis : Basis

pub record Trajectory (F : Type 0) : Type 0 where
  pub value : F
  pub slope : F
  pub n_customer_turns_scored : ℕ
  pub meaningful : Bool

module _ {F : Type 0} where
  unfoldable pub scored_pairs : List (TurnScore F) → List (Option F × Option F)
  scored_pairs [] = []
  scored_pairs (t ∷ ts) =
      if t.scored then (t.signed, t.confidence) ∷ scored_pairs ts else scored_pairs ts

  -- Arithmetic on `None` raises `TypeError`.
  abbrev pub number : Option F → Result F
  number none = raise type_error
  number (some x) = ok x

  abbrev pub signed_of : Option F × Option F → Result F
  signed_of p = number p.0

module _ (f : Float) (cfg : Config f.F) where
  open f use {F, add, sub, mul, neg, div, square, exp, tanh, round4, of_ℕ, le, is_zero}

  -- The weight of the turn at position `i` of `n`.
  unfoldable pub weight : ℕ → ℕ → Option F → Result F
  weight n i confidence = do
    decay ← exp (mul (neg cfg.recency_lambda) (of_ℕ (n - 1 - i)))
    conf ← number confidence
    ok (mul decay conf)

  -- the comprehension over `enumerate(scored)`, from position `i` on
  unfoldable pub weights_from : ℕ → ℕ → List (Option F × Option F) → Result (List F)
  weights_from n i [] = ok []
  weights_from n i ((_, confidence) ∷ ps) = do
    w ← weight n i confidence
    ws ← weights_from n (suc i) ps
    ok (w ∷ ws)

  -- `w * signed` for the pairs of `zip(weights, scored, strict=True)`
  unfoldable pub weighted : List F → List (Option F × Option F) → Result (List F)
  weighted [] [] = ok []
  weighted [] (p ∷ ps) = raise value_error
  weighted (w ∷ ws) [] = raise value_error
  weighted (w ∷ ws) (p ∷ ps) = do s ← signed_of p; rest ← weighted ws ps; ok (mul w s ∷ rest)

  -- The score before it is rounded.
  unfoldable pub mean_score : List (Option F × Option F) → List F → Result F
  unfolding weighted sum traverse
  mean_score scored weights =
      if is_zero (sum f weights)
      then (do signed ← traverse signed_of scored; div (sum f signed) (of_ℕ (length scored)))
      else (do products ← weighted weights scored; div (sum f products) (sum f weights))

  unfoldable pub label_of : F → Label
  label_of score =
      if le score (neg cfg.label_threshold)
      then negative
      else if le cfg.label_threshold score
      then positive
      else neutral

  abbrev pub overall_of : ℕ → F → Overall F
  overall_of n score = record {
    label = label_of score;
    score = round4 score;
    n_customer_turns_scored = n;
    basis = if nat_eq n 1 then single_turn else recency_confidence_weighted_mean;
  }

  -- `overall_sentiment` from its second line on
  unfoldable pub overall_of_pairs : List (Option F × Option F) → Result (Option (Overall F))
  overall_of_pairs scored =
      let n = length scored in
      if nat_eq n 0 then ok none else (do
        weights ← weights_from n 0 scored
        score ← mean_score scored weights
        ok (some (overall_of n score)))

  unfoldable pub overall_sentiment : List (TurnScore F) → Result (Option (Overall F))
  unfolding scored_pairs overall_of_pairs
  overall_sentiment turns = overall_of_pairs (scored_pairs turns)

  -- `[i / (n - 1) for i in range(n)]`, for the `left` positions from `i` on
  unfoldable pub positions : ℕ → ℕ → ℕ → Result (List F)
  positions n i zero = ok []
  positions n i (suc left) = do
    x ← div (of_ℕ i) (of_ℕ (n - 1))
    xs ← positions n (suc i) left
    ok (x ∷ xs)

  -- the terms of the numerator, for the pairs of `zip(xs, ys, strict=True)`
  unfoldable pub cross_terms : F → F → List F → List F → Result (List F)
  cross_terms x_mean y_mean [] [] = ok []
  cross_terms x_mean y_mean [] (y ∷ ys) = raise value_error
  cross_terms x_mean y_mean (x ∷ xs) [] = raise value_error
  cross_terms x_mean y_mean (x ∷ xs) (y ∷ ys) = do
    rest ← cross_terms x_mean y_mean xs ys
    ok (mul (sub x x_mean) (sub y y_mean) ∷ rest)

  unfoldable pub square_terms : F → List F → List F
  square_terms x_mean [] = []
  square_terms x_mean (x ∷ xs) = square (sub x x_mean) ∷ square_terms x_mean xs

  -- The least-squares slope.
  unfoldable pub slope : ℕ → List F → List F → Result F
  unfolding cross_terms square_terms sum
  slope n xs ys = do
    x_mean ← div (sum f xs) (of_ℕ n)
    y_mean ← div (sum f ys) (of_ℕ n)
    terms ← cross_terms x_mean y_mean xs ys
    div (sum f terms) (sum f (square_terms x_mean xs))

  -- `sentiment_trajectory` from its second line on
  unfoldable pub trajectory_of_pairs : List (Option F × Option F) → Result (Option (Trajectory F))
  trajectory_of_pairs scored =
      let n = length scored in
      if ltb n 2 then ok none else (do
        xs ← positions n 0 n
        ys ← traverse signed_of scored
        beta ← slope n xs ys
        ratio ← div beta cfg.trajectory_divisor
        ok (
            some (record {
              value = round4 (tanh ratio);
              slope = round4 beta;
              n_customer_turns_scored = n;
              meaningful = at_least n cfg.meaningful_min_turns;
            })))

  unfoldable pub sentiment_trajectory : List (TurnScore F) → Result (Option (Trajectory F))
  unfolding scored_pairs trajectory_of_pairs
  sentiment_trajectory turns = trajectory_of_pairs (scored_pairs turns)
