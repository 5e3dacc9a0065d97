-- ===== src/Text/Printed.antt =====
-- The decimal text of a count is read back as the count.
use Prim.Native.Char.{code}
use Prim.Native.String.{◌++◌ as ◌⧺◌}
use text.Mathlib.TextLemmas.{nil-append, cons-append}
use sb_poc.Prelude.{
  ℕ, zero, suc, ◌+◌, ◌-◌, ◌*◌, ◌/◌, ◌<◌, String, ◌≡◌, ◌≢◌, refl, ap, subst, ◌∙◌, ◌==◌, ℕ_eq,
  nat_eq_iff, Bool, true, ◌&&◌, List, [], ◌∷◌, ◌++◌, ltb, leb, arith, inl, inr, Bool-cases,
}
use Prim.Native.Nat.{◌%◌}
use sb_poc.Text.{codes, digit_text, show_fuel, show}

pub codes-append : (s t : String) → codes (s ⧺ t) ≡ codes s ++ codes t
codes-append String.[] t = ap codes (nil-append t)
codes-append (String.◌∷◌ c s) t =
    ap codes (cons-append c s t) ∙ ap (◌∷◌ (code c)) (codes-append s t)

-- What is checked for each number below a bound.
abbrev pub AllBelow : (ℕ → Type 0) → ℕ → Type 0
AllBelow P zero = Unit
AllBelow P (suc n) = P n × AllBelow P n

pub all_below : (P : ℕ → Type 0) (n d : ℕ) → AllBelow P n → d < n → P d
all_below P zero d a h = absurd (omega arith)
all_below P (suc n) d a h = elim (Bool-cases (n == d)) [
  | inl e ↦ subst P ((nat_eq_iff n d).0 e) a.0
  | inr e ↦ all_below P n d a.1 (ground arith)
]

pub codes-digit_text : (d : ℕ) → d < 10 → codes (digit_text d) ≡ (48 + d) ∷ []
codes-digit_text d h = all_below (λ k. codes (digit_text k) ≡ (48 + k) ∷ []) 10 d (ground arith) h

-- The number that decimal digits stand for, behind those that are read already.
unfoldable pub number : ℕ → List ℕ → ℕ
number acc [] = acc
number acc (c ∷ cs) = number (acc * 10 + (c - 48)) cs

number-append : (acc : ℕ) (cs ds : List ℕ) → number acc (cs ++ ds) ≡ number (number acc cs) ds
unfolding number
number-append acc [] ds = refl
number-append acc (c ∷ cs) ds = number-append (acc * 10 + (c - 48)) cs ds

number-show_fuel : (f n : ℕ) → n < f → number 0 (codes (show_fuel f n)) ≡ n
unfolding show_fuel number
number-show_fuel zero n h = absurd (omega arith)
number-show_fuel (suc f) n h = elim (Bool-cases (ltb n 10)) [
  | inl small ↦ rw small (rw (codes-digit_text n (ground arith)) (omega arith))
  | inr large ↦ rw large (
      rw
        (
          codes-append,
          number-append,
          codes-digit_text (n % 10) (omega arith),
          number-show_fuel f (n / 10) (ground arith),
        )
        (omega arith))
]

pub number-show : (n : ℕ) → number 0 (codes (show n)) ≡ n
unfolding show
number-show n = number-show_fuel (suc n) n (omega arith)

unfoldable pub is_digit : ℕ → Bool
is_digit c = leb 48 c && leb c 57

-- Nothing but digits.
unfoldable pub all_digits : List ℕ → Bool
unfolding is_digit
all_digits [] = true
all_digits (c ∷ cs) = is_digit c && all_digits cs

all_digits-append :
    (cs ds : List ℕ) → all_digits cs ≡ true → all_digits ds ≡ true → all_digits (cs ++ ds) ≡ true
unfolding all_digits
all_digits-append [] ds h k = k
all_digits-append (c ∷ cs) ds h k = ground (arith, all_digits-append cs ds)

all_digits-show_fuel : (f n : ℕ) → all_digits (codes (show_fuel f n)) ≡ true
unfolding show_fuel all_digits
all_digits-show_fuel zero n = refl
all_digits-show_fuel (suc f) n = elim (Bool-cases (ltb n 10)) [
  | inl small ↦ rw small (rw (codes-digit_text n (ground arith)) (ground arith))
  | inr large ↦ rw large (
      rw (codes-append, codes-digit_text (n % 10) (omega arith))
        (all_digits-append (codes (show_fuel f (n / 10))) ((48 + n % 10) ∷ [])
          (all_digits-show_fuel f (n / 10)) (ground arith)))
]

pub all_digits-show : (n : ℕ) → all_digits (codes (show n)) ≡ true
unfolding show
all_digits-show n = all_digits-show_fuel (suc n) n

pub show-ne-nil : (n : ℕ) → codes (show n) ≢ []
unfolding show show_fuel number
show-ne-nil zero h = cc
show-ne-nil (suc n) h =
    let none_read : number 0 (codes (show (suc n))) ≡ 0 = ap (number 0) h in
    absurd (omega (arith, number-show (suc n)))
