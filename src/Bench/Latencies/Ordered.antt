-- ===== src/Bench/Latencies/Ordered.antt =====
-- scripts/bench.py, percentile: a percentile is an element of the sorted values, and a larger one is no
-- smaller.
use sb_poc.Prelude.{
  ℕ, zero, suc, ◌+◌, ◌-◌, ◌≤◌, ◌<◌, pos, true, some, List, ◌≡◌, refl, subst, ◌∙◌, arith, length,
  get_elem?, All, Sortable, sort_by, sort_by-Ascending, All-sort_by, ok,
}
use sb_poc.Float.{Float, FloatLaws, max_exact}
use sb_poc.Bench.Latencies.{Rounding, RoundingLaws, percentile}
use sb_poc.Bench.Latencies.Indexed.{
  element, All-element, Among, All-Among, length-sort_by, Ascending-element,
}

module _ (f : Float) (laws : FloatLaws f) (r : Rounding f) (rounding : RoundingLaws f r) where
  open f use {F, add, mul, div, of_ℕ, le}
  open laws use {le_refl, le_trans}

  of_ℕ-suc_le : (n : ℕ) → n < max_exact → le (of_ℕ n) (of_ℕ (suc n)) ≡ true
  of_ℕ-suc_le n h = rw (laws.of_ℕ-suc n h) (
      le_trans (of_ℕ n) (add (of_ℕ 0) (of_ℕ n)) (add (of_ℕ n) (of_ℕ 1)) (laws.add_zero (of_ℕ n)) (
        rw (laws.add_comm (of_ℕ 0) (of_ℕ n)) (
          laws.add_mono (of_ℕ n) (of_ℕ n) (of_ℕ 0) (of_ℕ 1) (le_refl (of_ℕ n))
            (laws.of_ℕ_nonneg 1))))

  of_ℕ_mono : (m n : ℕ) → m + n ≤ max_exact → le (of_ℕ n) (of_ℕ (m + n)) ≡ true
  of_ℕ_mono zero n h = subst (λ k. le (of_ℕ n) (of_ℕ k) ≡ true) (omega arith) (le_refl (of_ℕ n))
  of_ℕ_mono (suc m) n h =
      subst (λ k. le (of_ℕ n) (of_ℕ k) ≡ true) (omega arith)
        (le_trans (of_ℕ n) (of_ℕ (m + n)) (of_ℕ (suc (m + n))) (of_ℕ_mono m n (omega arith))
          (of_ℕ-suc_le (m + n) (omega arith)))

  of_ℕ-le : (m n : ℕ) → m ≤ n → n ≤ max_exact → le (of_ℕ m) (of_ℕ n) ≡ true
  of_ℕ-le m n h small =
      subst (λ k. le (of_ℕ m) (of_ℕ k) ≡ true) (omega arith) (of_ℕ_mono (n - m) m (omega arith))

  -- The share that is asked for, of a hundred.
  record IsShare (p : ℕ) (x : F) : Type 0 where
    is : div (of_ℕ p) (of_ℕ 100) ≡ ok x
    nonneg : le (of_ℕ 0) x ≡ true
    most : le x (of_ℕ 1) ≡ true

  share : (p : ℕ) → p ≤ 100 → (x : F) × IsShare p x
  share p h =
      let hundred = of_ℕ 100 in
      let (x, e) = laws.div_total (of_ℕ p) hundred (laws.of_ℕ_nonzero 99) in
      let (z, ez) = laws.div_total (of_ℕ 0) hundred (laws.of_ℕ_nonzero 99) in
      let (w, ew) = laws.div_total hundred hundred (laws.of_ℕ_nonzero 99) in
      (
        x,
        record {
          is = e;
          nonneg =
              subst (λ y. le y x ≡ true) (laws.zero-div hundred z ez)
                (laws.div_mono (of_ℕ 0) (of_ℕ p) hundred z x (laws.of_ℕ_nonneg 100)
                  (laws.of_ℕ_nonneg p) ez e);
          most =
              subst (λ y. le x y ≡ true) (laws.div_self hundred w ew)
                (laws.div_mono (of_ℕ p) hundred hundred x w (laws.of_ℕ_nonneg 100)
                  (of_ℕ-le p 100 h (omega arith)) e ew);
        },
      )

  share_mono : (p q : ℕ) (x y : F) → p ≤ q → q ≤ 100 → IsShare p x → IsShare q y → le x y ≡ true
  share_mono p q x y h small a b =
      laws.div_mono (of_ℕ p) (of_ℕ q) (of_ℕ 100) x y (laws.of_ℕ_nonneg 100)
        (of_ℕ-le p q h (omega arith)) a.is b.is

  mul_mono_left : (x y w : F) → le (of_ℕ 0) w ≡ true → le x y ≡ true → le (mul x w) (mul y w) ≡ true
  mul_mono_left x y w h k = rw (laws.mul_comm x w, laws.mul_comm y w) (laws.mul_mono w x y h k)

  -- The position of a percentile among `n + 1` values.
  position :
      (n p : ℕ) (x : F)
      → n ≤ max_exact
      → IsShare p x
      → (k : ℕ) × (r.round (mul x (of_ℕ n)) ≡ pos k) × (k ≤ n)
  position n p x small s =
      rounding.round_between n (mul x (of_ℕ n)) small
        (laws.mul_nonneg x (of_ℕ n) s.nonneg (laws.of_ℕ_nonneg n))
        (subst (λ y. le (mul x (of_ℕ n)) y ≡ true)
          (laws.mul_comm (of_ℕ 1) (of_ℕ n) ∙ laws.mul_one (of_ℕ n))
          (mul_mono_left x (of_ℕ 1) (of_ℕ n) (laws.of_ℕ_nonneg n) s.most))

  Sortable-le : Sortable le
  Sortable-le = record { total = laws.le_total; trans = le_trans }

  module _ (values : List F) (n : ℕ) (long : length values ≡ suc n) (small : n ≤ max_exact) where
    abbrev ordered : List F
    ordered = sort_by le values

    -- The percentile is the element at the position `k` of the sorted values.
    pub record IsAt (p k : ℕ) (x s : F) : Type 0 where
      pub is : percentile f r values p ≡ ok x
      there : get_elem? ordered k ≡ some x
      share_is : IsShare p s
      rounds : r.round (mul s (of_ℕ n)) ≡ pos k
      inside : k ≤ n

    pub percentile-IsAt : (p : ℕ) → p ≤ 100 → (k : ℕ) × (x : F) × (s : F) × IsAt p k x s
    unfolding percentile
    percentile-IsAt p h =
        let (s, is_share) = share p h in
        let (k, rounds, inside) = position n p s small is_share in
        let size : length ordered ≡ suc n = length-sort_by le values ∙ long in
        let (x, there) = element ordered k (omega (arith, size, inside)) in
        (
          k,
          x,
          s,
          record {
            is = rw (is_share.is, size, rounds, there) refl;
            there = there;
            share_is = is_share;
            rounds = rounds;
            inside = inside;
          },
        )

    pub IsAt-mono :
        (p q j k : ℕ) (x y s t : F) → p ≤ q → q ≤ 100 → IsAt p j x s → IsAt q k y t → le x y ≡ true
    IsAt-mono p q j k x y s t h hundred a b =
        Ascending-element le le_refl ordered j k x y
          (rounding.round_mono (mul s (of_ℕ n)) (mul t (of_ℕ n)) j k
            (mul_mono_left s t (of_ℕ n) (laws.of_ℕ_nonneg n)
              (share_mono p q s t h hundred a.share_is b.share_is))
            a.rounds b.rounds)
          (sort_by-Ascending le Sortable-le values) a.there b.there

    pub IsAt-Among : (p k : ℕ) (x s : F) → IsAt p k x s → Among x values
    IsAt-Among p k x s a =
        All-element (λ y. Among y values) ordered k x
          (All-sort_by le (λ y. Among y values) values (All-Among values)) a.there

    pub IsAt-le :
        (p k : ℕ) (x s m : F) → IsAt p k x s → All (λ y. le y m ≡ true) values → le x m ≡ true
    IsAt-le p k x s m a h =
        All-element (λ y. le y m ≡ true) ordered k x (All-sort_by le (λ y. le y m ≡ true) values h)
          a.there
