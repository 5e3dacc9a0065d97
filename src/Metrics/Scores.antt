-- ===== src/Metrics/Scores.antt =====
-- metrics.py, overall_sentiment: its null case and the range of its score.
use sb_poc.Prelude.{
  ℕ, suc, ◌-◌, ◌≤◌, ◌<◌, ◌≡◌, refl, ap, subst, true, false, Option, none, some, List, [], ◌∷◌,
  arith, All, ok, traverse, length, nat_eq, Bool-cases, inl, inr,
}
use sb_poc.Float.{Float, FloatLaws, sum, max_exact}
use sb_poc.Float.Sums.{Within, IsNonneg, ones, sum-Within, sum-IsNonneg, sum-ones, div-Within}
use sb_poc.Config.{Config}
use sb_poc.Metrics.{
  TurnScore, Overall, scored_pairs, signed_of, weight, weights_from, weighted, mean_score,
  overall_of, overall_of_pairs, overall_sentiment,
}

module _ (f : Float) where
  open f use {F, neg, of_ℕ, le}

  -- A scored turn as the model returns it: a signed score in [-1, 1] and a confidence of at least 0.
  pub record Calibrated (p : Option F × Option F) : Type 0 where
    pub signed : F
    pub confidence : F
    pub has_signed : p.0 ≡ some signed
    pub has_confidence : p.1 ≡ some confidence
    pub above : le (neg (of_ℕ 1)) signed ≡ true
    pub below : le signed (of_ℕ 1) ≡ true
    pub nonneg : le (of_ℕ 0) confidence ≡ true

  -- What is said of a metric that is not null: its score is in [-1, 1], and it counts `n` turns.
  abbrev pub ScoreInRange : ℕ → Option (Overall F) → Type 0
  ScoreInRange n none = n ≡ 0
  ScoreInRange n (some m) =
      (le (neg (of_ℕ 1)) m.score ≡ true)
      × (le m.score (of_ℕ 1) ≡ true)
      × (m.n_customer_turns_scored ≡ n)
      × (0 < n)

pub nat_eq-suc : (n : ℕ) → nat_eq (suc n) 0 ≡ false
nat_eq-suc n = ground arith

module _ (f : Float) (laws : FloatLaws f) (cfg : Config f.F) where
  open f use {F, mul, div, neg, exp, round4, of_ℕ, le, is_zero}

  weight_total :
      (n i : ℕ) (p : Option F × Option F)
      → IsNonneg f cfg.recency_lambda
      → Calibrated f p
      → (w : F) × (weight f cfg n i p.1 ≡ ok w) × IsNonneg f w
  unfolding weight
  weight_total n i p l c =
      let down = laws.le_trans _ _ _ (laws.neg_anti _ _ l) laws.neg-zero in
      let arg =
        laws.mul_nonpos (neg cfg.recency_lambda) (of_ℕ (n - 1 - i)) down (laws.of_ℕ_nonneg _) in
      let (decay, e) = laws.exp_total _ arg in
      (
        mul decay c.confidence,
        rw (e, c.has_confidence),
        laws.mul_nonneg decay c.confidence (laws.exp_nonneg _ decay e) c.nonneg,
      )

  weights_from_total :
      (n i : ℕ) (ps : List (Option F × Option F))
      → IsNonneg f cfg.recency_lambda
      → All (Calibrated f) ps
      → (ws : List F) × (weights_from f cfg n i ps ≡ ok ws)
        × All (IsNonneg f) ws
        × (length ws ≡ length ps)
  unfolding weights_from
  weights_from_total n i [] l c = ([], refl, tt, refl)
  weights_from_total n i (p ∷ ps) l c =
      let (w, e, h) = weight_total n i p l c.0 in
      let (ws, e', h', len) = weights_from_total n (suc i) ps l c.1 in
      (w ∷ ws, rw (e, e'), (h, h'), ap suc len)

  weighted_total :
      (ws : List F) (ps : List (Option F × Option F))
      → length ws ≡ length ps
      → All (IsNonneg f) ws
      → All (Calibrated f) ps
      → (qs : List F) × (weighted f cfg ws ps ≡ ok qs) × Within f ws qs
  unfolding weighted
  weighted_total [] [] e h c = ([], refl, tt)
  weighted_total [] (p ∷ ps) e h c = absurd (omega arith)
  weighted_total (w ∷ ws) [] e h c = absurd (omega arith)
  weighted_total (w ∷ ws) (p ∷ ps) e h c =
      let (qs, r, within) = weighted_total ws ps (omega arith) h.1 c.1 in
      (
        mul w c.0.signed ∷ qs,
        rw (c.0.has_signed, r),
        (
          subst (λ x. le x (mul w c.0.signed) ≡ true) (laws.mul-neg_one w)
              (laws.mul_mono w _ _ h.0 c.0.above),
          subst (λ x. le (mul w c.0.signed) x ≡ true) (laws.mul_one w)
              (laws.mul_mono w _ _ h.0 c.0.below),
          within,
        ),
      )

  pub signed_total :
      (ps : List (Option F × Option F))
      → All (Calibrated f) ps
      → (ss : List F) × (traverse signed_of ps ≡ ok ss) × Within f (ones f (length ps)) ss
  unfolding traverse
  signed_total [] c = ([], refl, tt)
  signed_total (p ∷ ps) c =
      let (ss, r, within) = signed_total ps c.1 in
      (c.0.signed ∷ ss, rw (c.0.has_signed, r), (c.0.above, c.0.below, within))

  mean_score_total :
      (ps : List (Option F × Option F)) (ws : List F) (n : ℕ)
      → length ps ≡ suc n
      → length ps ≤ max_exact
      → length ws ≡ length ps
      → All (IsNonneg f) ws
      → All (Calibrated f) ps
      → (s : F) × (mean_score f cfg ps ws ≡ ok s)
        × (le (neg (of_ℕ 1)) s ≡ true)
        × (le s (of_ℕ 1) ≡ true)
  unfolding mean_score
  mean_score_total ps ws n e small len h c = elim (Bool-cases (is_zero (sum f ws))) [
    | inl z ↦
        let (ss, r, within) = signed_total ps c in
        let bounds = sum-Within f laws (ones f (length ps)) ss within in
        let total = sum-ones f laws (length ps) small in
        let nonzero : is_zero (of_ℕ (length ps)) ≡ false = rw e (laws.of_ℕ_nonzero n) in
        let (q, d) = laws.div_total (sum f ss) (of_ℕ (length ps)) nonzero in
        let lo = subst (λ x. le (neg x) (sum f ss) ≡ true) total bounds.0 in
        let hi = subst (λ x. le (sum f ss) x ≡ true) total bounds.1 in
        let range =
          div-Within f laws (sum f ss) (of_ℕ (length ps)) q (laws.of_ℕ_nonneg _) nonzero lo hi d in
        (q, rw (z, r) d, range.0, range.1)
    | inr nz ↦
        let (qs, r, within) = weighted_total ws ps len h c in
        let bounds = sum-Within f laws ws qs within in
        let (q, d) = laws.div_total (sum f qs) (sum f ws) nz in
        let range =
          div-Within f laws (sum f qs) (sum f ws) q (sum-IsNonneg f laws ws h) nz bounds.0 bounds.1
            d in
        (q, rw (nz, r) d, range.0, range.1)
  ]

  overall_of_pairs_total :
      (ps : List (Option F × Option F))
      → IsNonneg f cfg.recency_lambda
      → All (Calibrated f) ps
      → length ps ≤ max_exact
      → (r : Option (Overall F)) × (overall_of_pairs f cfg ps ≡ ok r) × ScoreInRange f (length ps) r
  unfolding overall_of_pairs
  overall_of_pairs_total [] l c small = (none, refl, refl)
  overall_of_pairs_total (p ∷ ps) l c small =
      let n = length (p ∷ ps) in
      let (ws, e, h, len) = weights_from_total n 0 (p ∷ ps) l c in
      let (s, m, lo, hi) = mean_score_total (p ∷ ps) ws (length ps) refl small len h c in
      (
        some (overall_of f cfg n s),
        rw (nat_eq-suc (length ps), e, m),
        (
          subst (λ x. le x (round4 s) ≡ true) laws.round4-neg_one (laws.round4_mono _ _ lo),
          subst (λ x. le (round4 s) x ≡ true) laws.round4_one (laws.round4_mono _ _ hi),
          refl,
          omega arith,
        ),
      )

  -- With a recency weight that is not negative, on turns as the model scores them, and up to 2^53 of
  -- them, the metric never raises. It is null exactly when no turn is scored, and otherwise counts
  -- the scored turns and has a score between -1 and 1.
  pub overall_sentiment_total :
      (turns : List (TurnScore F))
      → IsNonneg f cfg.recency_lambda
      → All (Calibrated f) (scored_pairs turns)
      → length (scored_pairs turns) ≤ max_exact
      → (r : Option (Overall F)) × (overall_sentiment f cfg turns ≡ ok r)
        × ScoreInRange f (length (scored_pairs turns)) r
  unfolding overall_sentiment
  overall_sentiment_total turns l c small = overall_of_pairs_total (scored_pairs turns) l c small
