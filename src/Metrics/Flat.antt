-- ===== src/Metrics/Flat.antt =====
-- metrics.py: turns with no signal, and turns with equal scores.
use sb_poc.Prelude.{
  ℕ, ◌≤◌, ◌≡◌, refl, subst, true, false, Option, some, List, [], ◌∷◌, ◌++◌, arith, All, ok,
  >>=-eq-ok, ok-injective, traverse, length, at_least,
}
use sb_poc.Float.{Float, FloatLaws, sum}
use sb_poc.Float.Sums.{sum-is_zero}
use sb_poc.Config.{Config}
use sb_poc.Metrics.{
  TurnScore, Trajectory, scored_pairs, signed_of, cross_terms, slope, overall_sentiment,
  sentiment_trajectory, trajectory_of_pairs,
}
use sb_poc.Metrics.Scores.{Calibrated}
use sb_poc.Metrics.Slopes.{few, slope_of_pairs_total}

scored_pairs-unscored :
    {F : Type 0} (xs : List (TurnScore F)) (t : TurnScore F) (ys : List (TurnScore F))
    → t.scored ≡ false
    → scored_pairs (xs ++ t ∷ ys) ≡ scored_pairs (xs ++ ys)
unfolding scored_pairs
scored_pairs-unscored [] t ys h = rw h
scored_pairs-unscored (x ∷ xs) t ys h = rw (scored_pairs-unscored xs t ys h)

module _ (f : Float) (cfg : Config f.F) where
  open f use {F}

  -- A turn with no signal, wherever it stands among the customer turns, changes neither metric: it
  -- does not count and does not shift the positions of the others.
  pub metrics_unscored :
      (xs : List (TurnScore F)) (t : TurnScore F) (ys : List (TurnScore F))
      → t.scored ≡ false
      → (overall_sentiment f cfg (xs ++ t ∷ ys) ≡ overall_sentiment f cfg (xs ++ ys))
        × (sentiment_trajectory f cfg (xs ++ t ∷ ys) ≡ sentiment_trajectory f cfg (xs ++ ys))
  unfolding overall_sentiment sentiment_trajectory
  metrics_unscored xs t ys h =
      (rw (scored_pairs-unscored xs t ys h), rw (scored_pairs-unscored xs t ys h))

module _ (f : Float) (laws : FloatLaws f) (cfg : Config f.F) where
  open f use {F, sub, mul, div, tanh, round4, of_ℕ, is_zero}

  cross_terms-flat :
      (a s : F) (xs ys ts : List F)
      → All (λ y. y ≡ s) ys
      → cross_terms f cfg a s xs ys ≡ ok ts
      → All (λ t. is_zero t ≡ true) ts
  unfolding cross_terms
  cross_terms-flat a s [] [] ts h e = subst (All (λ t. is_zero t ≡ true)) (ok-injective e) tt
  cross_terms-flat a s [] (y ∷ ys) ts h e = cc
  cross_terms-flat a s (x ∷ xs) [] ts h e = cc
  cross_terms-flat a s (x ∷ xs) (y ∷ ys) ts h e =
      let (us, r, last) = >>=-eq-ok (cross_terms f cfg a s xs ys) _ e in
      let zero_now : is_zero (mul (sub x a) (sub y s)) ≡ true =
        rw h.0 (laws.mul-is_zero _ _ (laws.sub_self s)) in
      subst (All (λ t. is_zero t ≡ true)) (ok-injective last)
        (zero_now, cross_terms-flat a s xs ys us h.1 r)

  slope-flat :
      (n : ℕ) (s b : F) (xs ys : List F)
      → All (λ y. y ≡ s) ys
      → div (sum f ys) (of_ℕ n) ≡ ok s
      → slope f cfg n xs ys ≡ ok b
      → is_zero b ≡ true
  unfolding slope
  slope-flat n s b xs ys h m e =
      let (xm, dx, r) = >>=-eq-ok (div (sum f xs) (of_ℕ n)) _ e in
      let (ts, et, last) = >>=-eq-ok (cross_terms f cfg xm s xs ys) _ (rw m at r) in
      laws.div-is_zero (sum f ts) _ b (sum-is_zero f laws ts (cross_terms-flat xm s xs ys ts h et))
        last

  traverse-flat :
      (s : F) (ps : List (Option F × Option F)) (ys : List F)
      → All (λ p. p.0 ≡ some s) ps
      → traverse signed_of ps ≡ ok ys
      → All (λ y. y ≡ s) ys
  unfolding traverse
  traverse-flat s [] ys h e = subst (All (λ y. y ≡ s)) (ok-injective e) tt
  traverse-flat s (p ∷ ps) ys h e =
      let (us, r, last) = >>=-eq-ok (traverse signed_of ps) _ (rw h.0 at e) in
      subst (All (λ y. y ≡ s)) (ok-injective last) (refl, traverse-flat s ps us h.1 r)

  trajectory_of_pairs-flat :
      (ps : List (Option F × Option F)) (s : F)
      → is_zero cfg.trajectory_divisor ≡ false
      → 2 ≤ length ps
      → All (Calibrated f) ps
      → All (λ p. p.0 ≡ some s) ps
      → ((ys : List F) → traverse signed_of ps ≡ ok ys → div (sum f ys) (of_ℕ (length ps)) ≡ ok s)
      → (t : Trajectory F) × (trajectory_of_pairs f cfg ps ≡ ok (some t))
        × (is_zero t.value ≡ true)
        × (is_zero t.slope ≡ true)
  unfolding trajectory_of_pairs
  trajectory_of_pairs-flat [] s nz two c h m = absurd (omega arith)
  trajectory_of_pairs-flat (p ∷ []) s nz two c h m = absurd (omega arith)
  trajectory_of_pairs-flat (p ∷ p' ∷ ps) s nz two c h m =
      let n = length (p ∷ p' ∷ ps) in
      let (xs, ys, b, ex, ey, eb) =
        slope_of_pairs_total f laws cfg (length ps) (p ∷ p' ∷ ps) refl c in
      let (t, et) = laws.div_total b cfg.trajectory_divisor nz in
      let b_zero = slope-flat n s b xs ys (traverse-flat s (p ∷ p' ∷ ps) ys h ey) (m ys ey) eb in
      let t_zero = laws.tanh-is_zero t (laws.div-is_zero b _ t b_zero et) in
      (
        record {
          value = round4 (tanh t);
          slope = round4 b;
          n_customer_turns_scored = n;
          meaningful = at_least n cfg.meaningful_min_turns;
        },
        rw (few (length ps), ex, ey, eb, et),
        laws.round4-is_zero _ t_zero,
        laws.round4-is_zero b b_zero,
      )

  -- Two or more scored turns with one and the same signed score `s`, whose computed mean is `s` too,
  -- have a trajectory with value and slope zero: it is not null.
  pub sentiment_trajectory_flat :
      (turns : List (TurnScore F)) (s : F)
      → is_zero cfg.trajectory_divisor ≡ false
      → 2 ≤ length (scored_pairs turns)
      → All (Calibrated f) (scored_pairs turns)
      → All (λ p. p.0 ≡ some s) (scored_pairs turns)
      → ((ys : List F)
          → traverse signed_of (scored_pairs turns) ≡ ok ys
          → div (sum f ys) (of_ℕ (length (scored_pairs turns))) ≡ ok s)
      → (t : Trajectory F) × (sentiment_trajectory f cfg turns ≡ ok (some t))
        × (is_zero t.value ≡ true)
        × (is_zero t.slope ≡ true)
  unfolding sentiment_trajectory
  sentiment_trajectory_flat turns s nz two c h m =
      trajectory_of_pairs-flat (scored_pairs turns) s nz two c h m
