-- ===== src/Metrics/Slopes.antt =====
-- metrics.py, sentiment_trajectory: its null case, its exceptions and the range of its value.
use sb_poc.Prelude.{
  ℕ, zero, suc, ◌+◌, ◌-◌, ◌≤◌, ◌<◌, ◌≡◌, refl, sym, ap, subst, true, false, Option, none, some,
  List, [], ◌∷◌, arith, All, ok, raise, zero_division, traverse, length, at_least, ltb, Bool-cases,
  inl, inr,
}
use sb_poc.Float.{Float, FloatLaws, sum}
use sb_poc.Float.Sums.{Within, IsNonneg, Has, ones, sum-nonzero}
use sb_poc.Config.{Config}
use sb_poc.Metrics.{
  TurnScore, Trajectory, scored_pairs, signed_of, positions, cross_terms, square_terms, slope,
  trajectory_of_pairs, sentiment_trajectory,
}
use sb_poc.Metrics.Scores.{Calibrated, signed_total}

-- What is said of a trajectory over `n` scored turns: it is null below two turns, and otherwise its
-- value is in [-1, 1] and it is flagged by the configured number of turns.
abbrev pub TrajectoryInRange : (f : Float) → Config f.F → ℕ → Option (Trajectory f.F) → Type 0
TrajectoryInRange f cfg n none = n < 2
TrajectoryInRange f cfg n (some t) =
    (2 ≤ n)
    × (f.le (f.neg (f.of_ℕ 1)) t.value ≡ true)
    × (f.le t.value (f.of_ℕ 1) ≡ true)
    × (t.n_customer_turns_scored ≡ n)
    × (t.meaningful ≡ at_least n cfg.meaningful_min_turns)

pub few : (n : ℕ) → ltb (suc (suc n)) 2 ≡ false
few n = ground arith

module _ (f : Float) (laws : FloatLaws f) (cfg : Config f.F) where
  open f use {F, sub, mul, div, neg, square, tanh, round4, of_ℕ, le, is_zero}

  Within-length : (n : ℕ) (ss : List F) → Within f (ones f n) ss → length ss ≡ n
  Within-length zero [] h = refl
  Within-length zero (s ∷ ss) h = absurd h
  Within-length (suc n) [] h = absurd h
  Within-length (suc n) (s ∷ ss) h = ap suc (Within-length n ss h.2)

  -- the positions from `i` on end at 1
  positions_total :
      (n i left k : ℕ)
      → n - 1 ≡ suc k
      → i + suc left ≡ n
      → (xs : List F) × (positions f cfg n i (suc left) ≡ ok xs)
        × (length xs ≡ suc left)
        × Has f (of_ℕ 1) xs
  unfolding positions
  positions_total n i zero k e h =
      let nonzero : is_zero (of_ℕ (n - 1)) ≡ false = rw e (laws.of_ℕ_nonzero k) in
      let (q, d) = laws.div_total (of_ℕ i) (of_ℕ (n - 1)) nonzero in
      let last : i ≡ n - 1 = omega arith in
      (
        q ∷ [],
        rw d,
        refl,
        inl (
            sym (
              laws.div_self (of_ℕ (n - 1)) q
                (subst (λ j. div (of_ℕ j) (of_ℕ (n - 1)) ≡ ok q) last d))),
      )
  positions_total n i (suc left) k e h =
      let nonzero : is_zero (of_ℕ (n - 1)) ≡ false = rw e (laws.of_ℕ_nonzero k) in
      let (q, d) = laws.div_total (of_ℕ i) (of_ℕ (n - 1)) nonzero in
      let (xs, r, len, m) = positions_total n (suc i) left k e (omega arith) in
      (q ∷ xs, rw (d, positions, r), ap suc len, inr m)

  square_terms-IsNonneg : (m : F) (xs : List F) → All (IsNonneg f) (square_terms f cfg m xs)
  unfolding square_terms
  square_terms-IsNonneg m [] = tt
  square_terms-IsNonneg m (x ∷ xs) = (laws.square_nonneg _, square_terms-IsNonneg m xs)

  Has-square_terms :
      (m x : F) (xs : List F) → Has f x xs → Has f (square (sub x m)) (square_terms f cfg m xs)
  unfolding square_terms
  Has-square_terms m x [] h = absurd h
  Has-square_terms m x (y ∷ ys) (inl e) = inl (ap (λ z. square (sub z m)) e)
  Has-square_terms m x (y ∷ ys) (inr h) = inr (Has-square_terms m x ys h)

  -- The positions span 0 to 1, so they are not all at their mean.
  square_terms_nonzero :
      (m : F) (xs : List F)
      → Has f (of_ℕ 0) xs
      → Has f (of_ℕ 1) xs
      → is_zero (sum f (square_terms f cfg m xs)) ≡ false
  square_terms_nonzero m xs h0 h1 = elim (Bool-cases (is_zero (square (sub (of_ℕ 0) m)))) [
    | inr z ↦
        sum-nonzero f laws _ (square_terms f cfg m xs) (square_terms-IsNonneg m xs)
          (Has-square_terms m (of_ℕ 0) xs h0) z
    | inl z ↦
        sum-nonzero f laws _ (square_terms f cfg m xs) (square_terms-IsNonneg m xs)
          (Has-square_terms m (of_ℕ 1) xs h1) (laws.square_apart m z)
  ]

  cross_terms_total :
      (a b : F) (xs ys : List F)
      → length xs ≡ length ys
      → (ts : List F) × (cross_terms f cfg a b xs ys ≡ ok ts)
  unfolding cross_terms
  cross_terms_total a b [] [] e = ([], refl)
  cross_terms_total a b [] (y ∷ ys) e = absurd (omega arith)
  cross_terms_total a b (x ∷ xs) [] e = absurd (omega arith)
  cross_terms_total a b (x ∷ xs) (y ∷ ys) e =
      let (ts, r) = cross_terms_total a b xs ys (omega arith) in
      (mul (sub x a) (sub y b) ∷ ts, rw r)

  slope_total :
      (n : ℕ) (xs ys : List F)
      → length xs ≡ length ys
      → Has f (of_ℕ 0) xs
      → Has f (of_ℕ 1) xs
      → (b : F) × (slope f cfg (suc n) xs ys ≡ ok b)
  unfolding slope
  slope_total n xs ys e h0 h1 =
      let nonzero = laws.of_ℕ_nonzero n in
      let (xm, dx) = laws.div_total (sum f xs) (of_ℕ (suc n)) nonzero in
      let (ym, dy) = laws.div_total (sum f ys) (of_ℕ (suc n)) nonzero in
      let (ts, r) = cross_terms_total xm ym xs ys e in
      let (b, d) =
        laws.div_total (sum f ts) (sum f (square_terms f cfg xm xs))
          (square_terms_nonzero xm xs h0 h1) in
      (b, rw (dx, slope, dy, r, d))

  pub slope_of_pairs_total :
      (n : ℕ) (ps : List (Option F × Option F))
      → length ps ≡ suc (suc n)
      → All (Calibrated f) ps
      → (xs : List F) × (ys : List F) × (b : F) × (positions f cfg (suc (suc n)) 0 (suc (suc n))
          ≡ ok xs)
        × (traverse signed_of ps ≡ ok ys)
        × (slope f cfg (suc (suc n)) xs ys ≡ ok b)
  unfolding positions
  slope_of_pairs_total n ps len c =
      let m = suc (suc n) in
      let one_less : m - 1 ≡ suc n = omega arith in
      let nonzero : is_zero (of_ℕ (m - 1)) ≡ false = rw one_less (laws.of_ℕ_nonzero n) in
      let (q, d) = laws.div_total (of_ℕ 0) (of_ℕ (m - 1)) nonzero in
      let (xs, r, xs_len, has_one) = positions_total m 1 n n one_less (omega arith) in
      let (ys, s, within) = signed_total f laws cfg ps c in
      let ys_len = Within-length (length ps) ys within in
      let (b, e) =
        slope_total (suc n) (q ∷ xs) ys (omega arith) (inl (sym (laws.zero-div _ q d)))
          (inr has_one) in
      (q ∷ xs, ys, b, rw (d, positions, r), s, e)

  trajectory_of_pairs_total :
      (ps : List (Option F × Option F))
      → is_zero cfg.trajectory_divisor ≡ false
      → All (Calibrated f) ps
      → (r : Option (Trajectory F)) × (trajectory_of_pairs f cfg ps ≡ ok r)
        × TrajectoryInRange f cfg (length ps) r
  unfolding trajectory_of_pairs
  trajectory_of_pairs_total [] nz c = (none, refl, omega arith)
  trajectory_of_pairs_total (p ∷ []) nz c = (none, refl, omega arith)
  trajectory_of_pairs_total (p ∷ p' ∷ ps) nz c =
      let (xs, ys, b, ex, ey, eb) = slope_of_pairs_total (length ps) (p ∷ p' ∷ ps) refl c in
      let (t, et) = laws.div_total b cfg.trajectory_divisor nz in
      (
        some (record {
          value = round4 (tanh t);
          slope = round4 b;
          n_customer_turns_scored = length (p ∷ p' ∷ ps);
          meaningful = at_least (length (p ∷ p' ∷ ps)) cfg.meaningful_min_turns;
        }),
        rw (few (length ps), ex, ey, eb, et),
        (
          omega arith,
          subst (λ x. le x (round4 (tanh t)) ≡ true) laws.round4-neg_one
              (laws.round4_mono _ _ (laws.tanh_lower t)),
          subst (λ x. le (round4 (tanh t)) x ≡ true) laws.round4_one
              (laws.round4_mono _ _ (laws.tanh_upper t)),
          refl,
          refl,
        ),
      )

  trajectory_of_pairs_raises :
      (ps : List (Option F × Option F))
      → is_zero cfg.trajectory_divisor ≡ true
      → All (Calibrated f) ps
      → 2 ≤ length ps
      → trajectory_of_pairs f cfg ps ≡ raise zero_division
  unfolding trajectory_of_pairs
  trajectory_of_pairs_raises [] z c h = absurd (omega arith)
  trajectory_of_pairs_raises (p ∷ []) z c h = absurd (omega arith)
  trajectory_of_pairs_raises (p ∷ p' ∷ ps) z c h =
      let (xs, ys, b, ex, ey, eb) = slope_of_pairs_total (length ps) (p ∷ p' ∷ ps) refl c in
      rw (few (length ps), ex, ey, eb, laws.div_zero b cfg.trajectory_divisor z)

  -- On turns as the model scores them and with a divisor other than zero, the trajectory never raises:
  -- the sum of squares that it divides by is not zero. It is null exactly below two scored turns, and
  -- otherwise its value is between -1 and 1 and its flag compares the number of scored turns with the
  -- configured minimum.
  pub sentiment_trajectory_total :
      (turns : List (TurnScore F))
      → is_zero cfg.trajectory_divisor ≡ false
      → All (Calibrated f) (scored_pairs turns)
      → (r : Option (Trajectory F)) × (sentiment_trajectory f cfg turns ≡ ok r)
        × TrajectoryInRange f cfg (length (scored_pairs turns)) r
  unfolding sentiment_trajectory
  sentiment_trajectory_total turns nz c = trajectory_of_pairs_total (scored_pairs turns) nz c

  -- A configured divisor of zero makes every trajectory over two or more scored turns raise
  -- `ZeroDivisionError`.
  pub sentiment_trajectory_raises :
      (turns : List (TurnScore F))
      → is_zero cfg.trajectory_divisor ≡ true
      → All (Calibrated f) (scored_pairs turns)
      → 2 ≤ length (scored_pairs turns)
      → sentiment_trajectory f cfg turns ≡ raise zero_division
  unfolding sentiment_trajectory
  sentiment_trajectory_raises turns z c h = trajectory_of_pairs_raises (scored_pairs turns) z c h
