-- ===== src/Float.antt =====
-- Python's floats, their arithmetic and the functions of `math`, as an interface. The numbers are the
-- doubles other than NaN and the infinities.
pub mod Integers
pub mod Sums
use sb_poc.Prelude.{
  ℕ, suc, ◌<◌, ◌≤◌, ◌≡◌, Bool, true, false, ◌&&◌, List, [], ◌∷◌, Result, ok, raise, zero_division,
}

pub record Float : Type 1 where
  pub F : Type 0
  pub add : F → F → F
  pub sub : F → F → F
  pub mul : F → F → F
  pub neg : F → F
  -- `x / y` raises `ZeroDivisionError`
  pub div : F → F → Result F
  -- `x ** 2`
  pub square : F → F
  -- `math.exp` raises `OverflowError`
  pub exp : F → Result F
  pub tanh : F → F
  -- `round(x, 4)`
  pub round4 : F → F
  pub of_ℕ : ℕ → F
  -- `x <= y`
  pub le : F → F → Bool
  -- `x == 0`
  pub is_zero : F → Bool

module _ (f : Float) where
  open f use {F, add, of_ℕ}

  pub add_all : F → List F → F
  add_all acc [] = acc
  add_all acc (x ∷ xs) = add_all (add acc x) xs

  -- `sum(xs)`: additions from the left, starting from 0
  unfoldable pub sum : List F → F
  unfolding add_all
  sum xs = add_all (of_ℕ 0) xs

-- Integers up to this one are floats.
abbrev pub max_exact : ℕ
max_exact = 9007199254740992

-- What IEEE 754 and Python's documentation say of these operations, as far as no result overflows:
-- rounding to the nearest is monotone and symmetric, so an order survives each operation, and no law
-- of exact arithmetic, such as associativity, is assumed.
pub record FloatLaws (f : Float) : Type 0 where
  pub le_refl : (x : f.F) → f.le x x ≡ true
  pub le_trans : (x y z : f.F) → f.le x y ≡ true → f.le y z ≡ true → f.le x z ≡ true
  pub le_total : (x y : f.F) → f.le x y ≡ false → f.le y x ≡ true
  pub is_zero_lem : (x : f.F) → f.is_zero x ≡ (f.le x (f.of_ℕ 0) && f.le (f.of_ℕ 0) x)
  pub add_mono :
      (a b c d : f.F) → f.le a b ≡ true → f.le c d ≡ true → f.le (f.add a c) (f.add b d) ≡ true
  pub add_comm : (a b : f.F) → f.add a b ≡ f.add b a
  pub add_zero : (a : f.F) → f.le a (f.add (f.of_ℕ 0) a) ≡ true
  pub neg-zero : f.le (f.neg (f.of_ℕ 0)) (f.of_ℕ 0) ≡ true
  pub neg-add : (a b : f.F) → f.le (f.neg (f.add a b)) (f.add (f.neg a) (f.neg b)) ≡ true
  pub neg_anti : (a b : f.F) → f.le a b ≡ true → f.le (f.neg b) (f.neg a) ≡ true
  pub mul_mono :
      (w a b : f.F)
      → f.le (f.of_ℕ 0) w ≡ true
      → f.le a b ≡ true
      → f.le (f.mul w a) (f.mul w b) ≡ true
  pub mul_comm : (a b : f.F) → f.mul a b ≡ f.mul b a
  pub mul_one : (w : f.F) → f.mul w (f.of_ℕ 1) ≡ w
  pub mul-neg_one : (w : f.F) → f.mul w (f.neg (f.of_ℕ 1)) ≡ f.neg w
  pub mul_nonneg :
      (a b : f.F)
      → f.le (f.of_ℕ 0) a ≡ true
      → f.le (f.of_ℕ 0) b ≡ true
      → f.le (f.of_ℕ 0) (f.mul a b) ≡ true
  pub mul_nonpos :
      (a b : f.F)
      → f.le a (f.of_ℕ 0) ≡ true
      → f.le (f.of_ℕ 0) b ≡ true
      → f.le (f.mul a b) (f.of_ℕ 0) ≡ true
  pub div_zero : (a d : f.F) → f.is_zero d ≡ true → f.div a d ≡ raise zero_division
  pub div_total : (a d : f.F) → f.is_zero d ≡ false → (q : f.F) × (f.div a d ≡ ok q)
  pub div_mono :
      (a b d p q : f.F)
      → f.le (f.of_ℕ 0) d ≡ true
      → f.le a b ≡ true
      → f.div a d ≡ ok p
      → f.div b d ≡ ok q
      → f.le p q ≡ true
  pub div_anti :
      (a d e p q : f.F)
      → f.le (f.of_ℕ 0) a ≡ true
      → f.le (f.of_ℕ 0) d ≡ true
      → f.is_zero d ≡ false
      → f.le d e ≡ true
      → f.div a d ≡ ok p
      → f.div a e ≡ ok q
      → f.le q p ≡ true
  pub zero-div : (d q : f.F) → f.div (f.of_ℕ 0) d ≡ ok q → q ≡ f.of_ℕ 0
  pub div_self : (d q : f.F) → f.div d d ≡ ok q → q ≡ f.of_ℕ 1
  pub div-neg_self : (d q : f.F) → f.div (f.neg d) d ≡ ok q → f.le (f.neg (f.of_ℕ 1)) q ≡ true
  pub exp_nonneg : (x y : f.F) → f.exp x ≡ ok y → f.le (f.of_ℕ 0) y ≡ true
  pub exp_total : (x : f.F) → f.le x (f.of_ℕ 0) ≡ true → (y : f.F) × (f.exp x ≡ ok y)
  pub tanh_upper : (x : f.F) → f.le (f.tanh x) (f.of_ℕ 1) ≡ true
  pub tanh_lower : (x : f.F) → f.le (f.neg (f.of_ℕ 1)) (f.tanh x) ≡ true
  pub round4_mono : (a b : f.F) → f.le a b ≡ true → f.le (f.round4 a) (f.round4 b) ≡ true
  pub round4_one : f.round4 (f.of_ℕ 1) ≡ f.of_ℕ 1
  pub round4-neg_one : f.round4 (f.neg (f.of_ℕ 1)) ≡ f.neg (f.of_ℕ 1)
  pub of_ℕ_nonneg : (n : ℕ) → f.le (f.of_ℕ 0) (f.of_ℕ n) ≡ true
  pub of_ℕ_nonzero : (n : ℕ) → f.is_zero (f.of_ℕ (suc n)) ≡ false
  pub of_ℕ-suc : (n : ℕ) → n < max_exact → f.of_ℕ (suc n) ≡ f.add (f.of_ℕ n) (f.of_ℕ 1)
  pub square_nonneg : (x : f.F) → f.le (f.of_ℕ 0) (f.square x) ≡ true
  -- What a computed zero, of either sign, does to a result.
  pub sub_self : (x : f.F) → f.is_zero (f.sub x x) ≡ true
  pub mul-is_zero : (a b : f.F) → f.is_zero b ≡ true → f.is_zero (f.mul a b) ≡ true
  pub add-is_zero :
      (a b : f.F) → f.is_zero a ≡ true → f.is_zero b ≡ true → f.is_zero (f.add a b) ≡ true
  pub div-is_zero : (a d q : f.F) → f.is_zero a ≡ true → f.div a d ≡ ok q → f.is_zero q ≡ true
  pub tanh-is_zero : (x : f.F) → f.is_zero x ≡ true → f.is_zero (f.tanh x) ≡ true
  pub round4-is_zero : (x : f.F) → f.is_zero x ≡ true → f.is_zero (f.round4 x) ≡ true
  -- No number is so near to both 0 and 1 that the squares of both distances vanish.
  pub square_apart :
      (m : f.F)
      → f.is_zero (f.square (f.sub (f.of_ℕ 0) m)) ≡ true
      → f.is_zero (f.square (f.sub (f.of_ℕ 1) m)) ≡ false
