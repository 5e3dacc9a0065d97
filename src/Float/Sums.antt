-- ===== src/Float/Sums.antt =====
-- Sums and quotients of floats, from the laws of monotone rounding.
use sb_poc.Prelude.{
  ℕ, zero, suc, ◌+◌, ◌≤◌, ◌≡◌, sym, ap, ◌∙◌, true, false, List, [], ◌∷◌, arith, All, ok, subst, ◌⊎◌,
  inl, inr, Bool-cases,
}
use sb_poc.Float.{Float, FloatLaws, add_all, sum, max_exact}

module _ (f : Float) where
  open f use {F, neg, of_ℕ, le}

  -- `-w <= q <= w`, element by element
  abbrev pub Within : List F → List F → Type 0
  Within [] [] = Unit
  Within [] (q ∷ qs) = ⊥
  Within (w ∷ ws) [] = ⊥
  Within (w ∷ ws) (q ∷ qs) = (le (neg w) q ≡ true) × (le q w ≡ true) × Within ws qs

  abbrev pub IsNonneg : F → Type 0
  IsNonneg x = le (of_ℕ 0) x ≡ true

  abbrev pub Has : F → List F → Type 0
  Has x [] = ⊥
  Has x (y ∷ ys) = (◌≡◌ {A = F} x y) ⊎ Has x ys

  Has-All : (x : F) (ys : List F) → All IsNonneg ys → Has x ys → IsNonneg x
  Has-All x [] h m = absurd m
  Has-All x (y ∷ ys) h (inl e) = rw e h.0
  Has-All x (y ∷ ys) h (inr m) = Has-All x ys h.1 m

  abbrev pub ones : ℕ → List F
  ones zero = []
  ones (suc n) = of_ℕ 1 ∷ ones n

module _ (f : Float) (laws : FloatLaws f) where
  open f use {F, add, div, neg, of_ℕ, le, is_zero}
  open laws use {le_trans, add_mono, add_zero, neg-zero, neg-add, le_refl}

  add_all-Within :
      (a b : F) (ws qs : List F)
      → le (neg a) b ≡ true
      → le b a ≡ true
      → Within f ws qs
      → (le (neg (add_all f a ws)) (add_all f b qs) ≡ true)
        × (le (add_all f b qs) (add_all f a ws) ≡ true)
  unfolding add_all
  add_all-Within a b [] [] lo hi h = (lo, hi)
  add_all-Within a b [] (q ∷ qs) lo hi h = absurd h
  add_all-Within a b (w ∷ ws) [] lo hi h = absurd h
  add_all-Within a b (w ∷ ws) (q ∷ qs) lo hi h =
      add_all-Within (add a w) (add b q) ws qs
        (le_trans _ _ _ (neg-add a w) (add_mono _ _ _ _ lo h.0)) (add_mono _ _ _ _ hi h.1) h.2

  -- A sum of terms stays within the sum of their bounds.
  pub sum-Within :
      (ws qs : List F)
      → Within f ws qs
      → (le (neg (sum f ws)) (sum f qs) ≡ true) × (le (sum f qs) (sum f ws) ≡ true)
  unfolding sum
  sum-Within ws qs h = add_all-Within (of_ℕ 0) (of_ℕ 0) ws qs neg-zero (le_refl _) h

  pub add-IsNonneg : (a b : F) → IsNonneg f a → IsNonneg f b → IsNonneg f (add a b)
  add-IsNonneg a b p q = le_trans _ _ _ (add_zero (of_ℕ 0)) (add_mono _ _ _ _ p q)

  add_all-IsNonneg :
      (a : F) (ws : List F) → IsNonneg f a → All (IsNonneg f) ws → IsNonneg f (add_all f a ws)
  unfolding add_all
  add_all-IsNonneg a [] p h = p
  add_all-IsNonneg a (w ∷ ws) p h = add_all-IsNonneg (add a w) ws (add-IsNonneg a w p h.0) h.1

  pub sum-IsNonneg : (ws : List F) → All (IsNonneg f) ws → IsNonneg f (sum f ws)
  unfolding sum
  sum-IsNonneg ws h = add_all-IsNonneg (of_ℕ 0) ws (le_refl _) h

  add_all-ones : (k n : ℕ) → k + n ≤ max_exact → add_all f (of_ℕ k) (ones f n) ≡ of_ℕ (k + n)
  unfolding add_all
  add_all-ones k zero h = ap of_ℕ (omega arith)
  add_all-ones k (suc n) h =
      ap (λ a. add_all f a (ones f n)) (sym (laws.of_ℕ-suc k (omega arith)))
      ∙ add_all-ones (suc k) n (omega arith)
      ∙ ap of_ℕ (omega arith)

  -- The sum of `n` ones is `n`, exactly.
  pub sum-ones : (n : ℕ) → n ≤ max_exact → sum f (ones f n) ≡ of_ℕ n
  unfolding sum
  sum-ones n h = add_all-ones 0 n (omega arith) ∙ ap of_ℕ (omega arith)

  -- A quotient whose numerator is within the denominator lies between -1 and 1.
  pub div-Within :
      (a d q : F)
      → IsNonneg f d
      → is_zero d ≡ false
      → le (neg d) a ≡ true
      → le a d ≡ true
      → div a d ≡ ok q
      → (le (neg (of_ℕ 1)) q ≡ true) × (le q (of_ℕ 1) ≡ true)
  div-Within a d q p z lo hi e =
      let (t, top) = laws.div_total d d z in
      let (b, bottom) = laws.div_total (neg d) d z in
      (
        le_trans _ _ _ (laws.div-neg_self d b bottom) (laws.div_mono (neg d) a d b q p lo bottom e),
        subst (λ x. le q x ≡ true) (laws.div_self d t top) (laws.div_mono a d d q t p hi e top),
      )

  add_all-ge : (a : F) (ws : List F) → All (IsNonneg f) ws → le a (add_all f a ws) ≡ true
  unfolding add_all
  add_all-ge a [] h = le_refl a
  add_all-ge a (w ∷ ws) h =
      let step =
        subst (λ x. le a x ≡ true) (laws.add_comm w a)
          (le_trans _ _ _ (add_zero a) (add_mono _ _ _ _ h.0 (le_refl a))) in
      le_trans _ _ _ step (add_all-ge (add a w) ws h.1)

  add_all-ge_mem :
      (a x : F) (ws : List F)
      → IsNonneg f a
      → All (IsNonneg f) ws
      → Has f x ws
      → le x (add_all f a ws) ≡ true
  unfolding add_all
  add_all-ge_mem a x [] p h m = absurd m
  add_all-ge_mem a x (w ∷ ws) p h (inl e) = rw e (
      le_trans _ _ _ (le_trans _ _ _ (add_zero w) (add_mono _ _ _ _ p (le_refl w)))
        (add_all-ge (add a w) ws h.1))
  add_all-ge_mem a x (w ∷ ws) p h (inr m) =
      add_all-ge_mem (add a w) x ws (add-IsNonneg a w p h.0) h.1 m

  -- A sum of nonnegative terms is not zero if one of them is not.
  pub sum-nonzero :
      (x : F) (ws : List F)
      → All (IsNonneg f) ws
      → Has f x ws
      → is_zero x ≡ false
      → is_zero (sum f ws) ≡ false
  unfolding sum
  sum-nonzero x ws h m z = elim (Bool-cases (is_zero (sum f ws))) [
    | inr e ↦ unfold sum in e
    | inl e ↦
        let below = add_all-ge_mem (of_ℕ 0) x ws (le_refl _) h m in
        let s = add_all f (of_ℕ 0) ws in
        let at_zero : le s (of_ℕ 0) ≡ true = ground (arith, laws.is_zero_lem s) in
        let x_zero = le_trans _ _ _ below at_zero in
        let x_pos = Has-All f x ws h m in absurd (ground (arith, laws.is_zero_lem x))
  ]

  add_all-is_zero :
      (a : F) (ws : List F)
      → is_zero a ≡ true
      → All (λ w. is_zero w ≡ true) ws
      → is_zero (add_all f a ws) ≡ true
  unfolding add_all
  add_all-is_zero a [] z h = z
  add_all-is_zero a (w ∷ ws) z h = add_all-is_zero (add a w) ws (laws.add-is_zero a w z h.0) h.1

  pub is_zero-zero : is_zero (of_ℕ 0) ≡ true
  is_zero-zero = rw (laws.is_zero_lem, le_refl (of_ℕ 0))

  -- A sum of zeros is zero.
  pub sum-is_zero : (ws : List F) → All (λ w. is_zero w ≡ true) ws → is_zero (sum f ws) ≡ true
  unfolding sum
  sum-is_zero ws h = add_all-is_zero (of_ℕ 0) ws is_zero-zero h
