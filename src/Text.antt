-- ===== src/Text.antt =====
-- The parts of Python's text handling that the pipeline uses: code points, `str.strip`, `int(text)`
-- and the printing of a count.
pub mod Printed
pub mod Stripped
use Prim.Native.Char.{code}
use Prim.Native.String.{◌++◌ as ◌⧺◌}
use mathlib.Core.List.{reverse}
use sb_poc.Prelude.{
  ℕ, zero, suc, ◌+◌, ◌*◌, ◌/◌, String, ℤ, pos, negsuc, Bool, true, false, ◌||◌, ◌&&◌, Option, none,
  some, List, [], ◌∷◌, ◌==◌, ℕ_eq, if◌then◌else◌, ltb, leb, length, map_option, keep_if, not,
}
use Prim.Native.Nat.{◌%◌}

-- The Unicode character database that Python's `re` and `int` consult.
pub record Unicode : Type 0 where
  -- the value of a decimal digit of any script
  pub decimal : ℕ → Option ℕ
  -- `str.isalnum` of one character
  pub is_alnum : ℕ → Bool
  -- `str.lower`
  pub lower : String → String

-- The code points of a text.
abbrev pub codes : String → List ℕ
codes String.[] = []
codes (String.◌∷◌ c s) = code c ∷ codes s

-- `str.isspace` of one character: the characters that `str.strip` removes.
unfoldable pub is_space : ℕ → Bool
is_space c =
    (leb 9 c && leb c 13)
    || (leb 28 c && leb c 32)
    || c == 0x85
    || c == 0xa0
    || c == 0x1680
    || (leb 0x2000 c && leb c 0x200a)
    || c == 0x2028
    || c == 0x2029
    || c == 0x202f
    || c == 0x205f
    || c == 0x3000

unfoldable pub lstrip : List ℕ → List ℕ
unfolding is_space
lstrip [] = []
lstrip (c ∷ cs) = if is_space c then lstrip cs else c ∷ cs

-- `text.strip()`
unfoldable pub strip : List ℕ → List ℕ
unfolding lstrip
strip cs = reverse (lstrip (reverse (lstrip cs)))

module _ (u : Unicode) where
  open u use {decimal}

  -- The digits of an integer literal: an underscore may stand between two digits. `after_digit` says
  -- that the last character was a digit.
  unfoldable pub digits : ℕ → Bool → List ℕ → Option ℕ
  digits acc after_digit [] = if after_digit then some acc else none
  digits acc after_digit (c ∷ cs) =
      let between = digits acc false cs in
      let next = λ (d : ℕ). digits (acc * 10 + d) true cs in
      if c == b'_'
      then (if after_digit then between else none)
      else elim (decimal c) [ none ↦ none | some d ↦ next d ]

  -- Python refuses to read more than 4300 digits.
  abbrev max_digits : ℕ
  max_digits = 4300

  unfoldable pub unsigned : List ℕ → Option ℕ
  unfolding digits
  unsigned cs =
      if ltb max_digits (length (keep_if (λ c. not (c == b'_')) cs))
      then none
      else digits 0 false cs

abbrev pub negate : ℕ → ℤ
negate zero = pos 0
negate (suc n) = negsuc n

module _ (u : Unicode) where
  -- `int(text)` on a stripped text; `none` is a `ValueError`.
  unfoldable pub int_of : List ℕ → Option ℤ
  unfolding unsigned
  int_of [] = none
  int_of (c ∷ cs) =
      if c == b'-'
      then map_option negate (unsigned u cs)
      else if c == b'+'
      then map_option pos (unsigned u cs)
      else map_option pos (unsigned u (c ∷ cs))

abbrev digit_text : ℕ → String
digit_text zero = "0"
digit_text (suc zero) = "1"
digit_text (suc (suc zero)) = "2"
digit_text (suc (suc (suc zero))) = "3"
digit_text (suc (suc (suc (suc zero)))) = "4"
digit_text (suc (suc (suc (suc (suc zero))))) = "5"
digit_text (suc (suc (suc (suc (suc (suc zero)))))) = "6"
digit_text (suc (suc (suc (suc (suc (suc (suc zero))))))) = "7"
digit_text (suc (suc (suc (suc (suc (suc (suc (suc zero)))))))) = "8"
digit_text _ = "9"

show_fuel : ℕ → ℕ → String
show_fuel zero n = ""
show_fuel (suc f) n =
    let rest = show_fuel f (n / 10) in if ltb n 10 then digit_text n else rest ⧺ digit_text (n % 10)

-- `f"{n}"`: a number has at most as many digits as its value.
unfoldable pub show : ℕ → String
unfolding show_fuel
show n = show_fuel (suc n) n
