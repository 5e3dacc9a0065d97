-- ===== src/Float/Integers.antt =====
-- The integers as an instance of the float arithmetic; division rounds down.
use native.Mathlib.Nat.{
  mul-le-mul_left, le-div_iff_mul-le, div-mul-le_self, le_trans, div_self, div-eq_of_lt, mul_comm,
}
use sb_poc.Prelude.{
  ℕ, zero, suc, ◌+◌, ◌-◌, ◌*◌, ◌/◌, ◌≤◌, ◌≡◌, refl, ap, Bool, true, false, arith, ℤ, pos, negsuc,
  leb, if◌then◌else◌, Result, ok, raise, zero_division,
}
use sb_poc.Float.{Float, FloatLaws}

abbrev sub_ℕ : ℕ → ℕ → ℤ
sub_ℕ a b = if leb b a then pos (a - b) else negsuc (b - a - 1)

abbrev negate : ℤ → ℤ
negate (pos zero) = pos 0
negate (pos (suc n)) = negsuc n
negate (negsuc n) = pos (suc n)

abbrev add_int : ℤ → ℤ → ℤ
add_int (pos a) (pos b) = pos (a + b)
add_int (pos a) (negsuc b) = sub_ℕ a (suc b)
add_int (negsuc a) (pos b) = sub_ℕ b (suc a)
add_int (negsuc a) (negsuc b) = negsuc (suc (a + b))

abbrev mul_int : ℤ → ℤ → ℤ
mul_int (pos a) (pos b) = pos (a * b)
mul_int (pos a) (negsuc b) = negate (pos (a * suc b))
mul_int (negsuc a) (pos b) = negate (pos (suc a * b))
mul_int (negsuc a) (negsuc b) = pos (suc a * suc b)

abbrev le_int : ℤ → ℤ → Bool
le_int (pos a) (pos b) = leb a b
le_int (pos a) (negsuc b) = false
le_int (negsuc a) (pos b) = true
le_int (negsuc a) (negsuc b) = leb b a

abbrev is_zero_int : ℤ → Bool
is_zero_int (pos zero) = true
is_zero_int _ = false

abbrev div_pos : ℤ → ℕ → ℤ
div_pos (pos a) d = pos (a / suc d)
div_pos (negsuc a) d = negsuc (a / suc d)

abbrev div_int : ℤ → ℤ → Result ℤ
div_int a (pos zero) = raise zero_division
div_int a (pos (suc d)) = ok (div_pos a d)
div_int a (negsuc d) = ok (div_pos (negate a) d)

abbrev clamp : ℤ → ℤ
clamp (pos zero) = pos 0
clamp (pos (suc n)) = pos 1
clamp (negsuc n) = negsuc 0

abbrev pub integers : Float
integers = record {
  F = ℤ;
  add = add_int;
  sub = λ a b. add_int a (negate b);
  mul = mul_int;
  neg = negate;
  div = div_int;
  square = λ a. mul_int a a;
  exp = λ a. ok (pos 1);
  tanh = clamp;
  round4 = λ a. a;
  of_ℕ = pos;
  le = le_int;
  is_zero = is_zero_int;
}

add_mono_lem :
    (a b c d : ℤ)
    → le_int a b ≡ true
    → le_int c d ≡ true
    → le_int (add_int a c) (add_int b d) ≡ true
add_mono_lem a b c d h k = ground arith

neg-add_lem : (a b : ℤ) → le_int (negate (add_int a b)) (add_int (negate a) (negate b)) ≡ true
neg-add_lem a b = ground arith

neg_anti_lem : (a b : ℤ) → le_int a b ≡ true → le_int (negate b) (negate a) ≡ true
neg_anti_lem a b h = ground arith

leb→le : (a b : ℕ) → leb a b ≡ true → a ≤ b
leb→le a b h = ground arith

le→leb : (a b : ℕ) → a ≤ b → leb a b ≡ true
le→leb a b h = ground arith

suc_mono : (a b : ℕ) → a ≤ b → suc a ≤ suc b
suc_mono a b h = omega arith

div_le : (a b d : ℕ) → leb a b ≡ true → leb (a / suc d) (b / suc d) ≡ true
div_le a b d h = le→leb _ _ (
    (le-div_iff_mul-le {k = suc d} (omega arith)).1
      (le_trans (div-mul-le_self a (suc d)) (leb→le a b h)))

mul_mono_lem :
    (w a b : ℤ)
    → le_int (pos 0) w ≡ true
    → le_int a b ≡ true
    → le_int (mul_int w a) (mul_int w b) ≡ true
mul_mono_lem (negsuc w) a b h k = cc
mul_mono_lem (pos w) (pos a) (pos b) h k = le→leb (w * a) (w * b) (mul-le-mul_left w (leb→le a b k))
mul_mono_lem (pos w) (pos a) (negsuc b) h k = cc
mul_mono_lem (pos zero) (negsuc a) (pos b) h k = ground arith
mul_mono_lem (pos (suc w)) (negsuc a) (pos b) h k = ground arith
mul_mono_lem (pos zero) (negsuc a) (negsuc b) h k = ground arith
mul_mono_lem (pos (suc w)) (negsuc a) (negsuc b) h k =
    ground (arith, mul-le-mul_left {m = suc b} {n = suc a} (suc w) (suc_mono b a (leb→le b a k)))

mul_comm_lem : (a b : ℤ) → mul_int a b ≡ mul_int b a
mul_comm_lem (pos a) (pos b) = ap pos (mul_comm a b)
mul_comm_lem (pos a) (negsuc b) = ap (λ n. negate (pos n)) (mul_comm a (suc b))
mul_comm_lem (negsuc a) (pos b) = ap (λ n. negate (pos n)) (mul_comm (suc a) b)
mul_comm_lem (negsuc a) (negsuc b) = ap pos (mul_comm (suc a) (suc b))

mul_one_lem : (w : ℤ) → mul_int w (pos 1) ≡ w
mul_one_lem w = ground arith

mul-neg_one_lem : (w : ℤ) → mul_int w (negsuc 0) ≡ negate w
mul-neg_one_lem w = ground arith

mul_nonneg_lem :
    (a b : ℤ)
    → le_int (pos 0) a ≡ true
    → le_int (pos 0) b ≡ true
    → le_int (pos 0) (mul_int a b) ≡ true
mul_nonneg_lem a b h k = ground arith

mul_nonpos_lem :
    (a b : ℤ)
    → le_int a (pos 0) ≡ true
    → le_int (pos 0) b ≡ true
    → le_int (mul_int a b) (pos 0) ≡ true
mul_nonpos_lem a b h k = ground arith

div_total_lem : (a d : ℤ) → is_zero_int d ≡ false → (q : ℤ) × (div_int a d ≡ ok q)
div_total_lem a (pos zero) h = absurd (cc)
div_total_lem a (pos (suc d)) h = (div_pos a d, refl)
div_total_lem a (negsuc d) h = (div_pos (negate a) d, refl)

div_zero_lem : (a d : ℤ) → is_zero_int d ≡ true → div_int a d ≡ raise zero_division
div_zero_lem a d h = ground arith

div_mono_lem :
    (a b d p q : ℤ)
    → le_int (pos 0) d ≡ true
    → le_int a b ≡ true
    → div_int a d ≡ ok p
    → div_int b d ≡ ok q
    → le_int p q ≡ true
div_mono_lem a b (pos zero) p q h k e e' = cc
div_mono_lem a b (negsuc d) p q h k e e' = cc
div_mono_lem (pos a) (pos b) (pos (suc d)) p q h k e e' = ground (arith, div_le a b d)
div_mono_lem (negsuc a) (pos b) (pos (suc d)) p q h k e e' = ground arith
div_mono_lem (pos a) (negsuc b) (pos (suc d)) p q h k e e' = cc
div_mono_lem (negsuc a) (negsuc b) (pos (suc d)) p q h k e e' = ground (arith, div_le b a d)

div_smaller : (a d e : ℕ) → leb (suc d) (suc e) ≡ true → leb (a / suc e) (a / suc d) ≡ true
div_smaller a d e h = le→leb _ _ (
    (le-div_iff_mul-le {k = suc d} (omega arith)).1 (
      le_trans (mul-le-mul_left (a / suc e) (leb→le (suc d) (suc e) h))
        (div-mul-le_self a (suc e))))

div_anti_lem :
    (a d e p q : ℤ)
    → le_int (pos 0) a ≡ true
    → le_int (pos 0) d ≡ true
    → is_zero_int d ≡ false
    → le_int d e ≡ true
    → div_int a d ≡ ok p
    → div_int a e ≡ ok q
    → le_int q p ≡ true
div_anti_lem (negsuc a) d e p q ha hd hz h e1 e2 = cc
div_anti_lem (pos a) (negsuc d) e p q ha hd hz h e1 e2 = cc
div_anti_lem (pos a) (pos zero) e p q ha hd hz h e1 e2 = cc
div_anti_lem (pos a) (pos (suc d)) (negsuc e) p q ha hd hz h e1 e2 = cc
div_anti_lem (pos a) (pos (suc d)) (pos zero) p q ha hd hz h e1 e2 = cc
div_anti_lem (pos a) (pos (suc d)) (pos (suc e)) p q ha hd hz h e1 e2 =
    ground (arith, div_smaller a d e h)

div_self_lem : (d q : ℤ) → div_int d d ≡ ok q → q ≡ pos 1
div_self_lem (pos zero) q e = cc
div_self_lem (pos (suc d)) q e = ground (arith, div_self {n = suc d} (omega arith))
div_self_lem (negsuc d) q e = ground (arith, div_self {n = suc d} (omega arith))

div-neg_self_lem : (d q : ℤ) → div_int (negate d) d ≡ ok q → le_int (negsuc 0) q ≡ true
div-neg_self_lem (pos zero) q e = cc
div-neg_self_lem (pos (suc d)) q e = ground (arith, div-eq_of_lt {n = d} {m = suc d} (omega arith))
div-neg_self_lem (negsuc d) q e = ground (arith, div-eq_of_lt {n = d} {m = suc d} (omega arith))

zero-div_lem : (d q : ℤ) → div_int (pos 0) d ≡ ok q → q ≡ pos 0
zero-div_lem d q e = ground arith

div-is_zero_lem : (a d q : ℤ) → is_zero_int a ≡ true → div_int a d ≡ ok q → is_zero_int q ≡ true
div-is_zero_lem a d q z e = ground arith

square_nonneg_lem : (x : ℤ) → le_int (pos 0) (mul_int x x) ≡ true
square_nonneg_lem x = ground arith

square_apart_lem :
    (m : ℤ)
    → is_zero_int (mul_int (add_int (pos 0) (negate m)) (add_int (pos 0) (negate m))) ≡ true
    → is_zero_int (mul_int (add_int (pos 1) (negate m)) (add_int (pos 1) (negate m))) ≡ false
square_apart_lem (pos zero) h = refl
square_apart_lem (pos (suc n)) h = ground arith
square_apart_lem (negsuc n) h = ground arith

pub integers_laws : FloatLaws integers
integers_laws = record {
  le_refl = λ x. ground arith;
  le_trans = λ x y z h k. ground arith;
  le_total = λ x y h. ground arith;
  is_zero_lem = λ x. ground arith;
  add_mono = add_mono_lem;
  add_comm = λ a b. ground arith;
  add_zero = λ a. ground arith;
  neg-zero = refl;
  neg-add = neg-add_lem;
  neg_anti = neg_anti_lem;
  mul_mono = mul_mono_lem;
  mul_comm = mul_comm_lem;
  mul_one = mul_one_lem;
  mul-neg_one = mul-neg_one_lem;
  mul_nonneg = mul_nonneg_lem;
  mul_nonpos = mul_nonpos_lem;
  div_zero = div_zero_lem;
  div_total = div_total_lem;
  div_mono = div_mono_lem;
  div_anti = div_anti_lem;
  zero-div = zero-div_lem;
  div_self = div_self_lem;
  div-neg_self = div-neg_self_lem;
  exp_nonneg = λ x y e. ground arith;
  exp_total = λ x h. (pos 1, refl);
  tanh_upper = λ x. ground arith;
  tanh_lower = λ x. ground arith;
  round4_mono = λ a b h. h;
  round4_one = refl;
  round4-neg_one = refl;
  of_ℕ_nonneg = λ n. ground arith;
  of_ℕ_nonzero = λ n. refl;
  of_ℕ-suc = λ n h. ground arith;
  square_nonneg = square_nonneg_lem;
  sub_self = λ x. ground arith;
  mul-is_zero = λ a b z. ground arith;
  add-is_zero = λ a b z z'. ground arith;
  div-is_zero = div-is_zero_lem;
  tanh-is_zero = λ x z. ground arith;
  round4-is_zero = λ x z. z;
  square_apart = square_apart_lem;
}
