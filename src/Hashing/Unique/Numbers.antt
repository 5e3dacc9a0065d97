-- ===== src/Hashing/Unique/Numbers.antt =====
-- hashing.py, json.dumps: the texts of numbers, which end where a comma or a bracket stands.
use sb_poc.Prelude.{
  ℕ, suc, ℤ, pos, negsuc, ◌≡◌, ◌≢◌, refl, sym, ap, ◌∙◌, Bool, true, false, not, ◌&&◌, ◌||◌, List,
  [], ◌∷◌, ◌++◌, ◌==◌, ℕ_eq, if◌then◌else◌, arith,
}
use sb_poc.Text.{codes, show, negate}
use sb_poc.Text.Printed.{
  number, number-show, codes-append, is_digit, all_digits, all_digits-show, show-ne-nil,
}
use sb_poc.Hashing.{show_int}

-- A character that ends a number, a boolean or a null.
unfoldable pub is_end : ℕ → Bool
is_end c = c == b',' || c == b']' || c == b'}'

-- Where another element, the end of the array or object, or the end of the text stands.
unfoldable pub at_end : List ℕ → Bool
unfolding is_end
at_end [] = true
at_end (c ∷ cs) = is_end c

unfoldable pub no_end : List ℕ → Bool
unfolding is_end
no_end [] = true
no_end (c ∷ cs) = not (is_end c) && no_end cs

-- A text without such a character is told from what stands behind it.
pub no_end_unique :
    (cs ds r q : List ℕ)
    → no_end cs ≡ true
    → no_end ds ≡ true
    → at_end r ≡ true
    → at_end q ≡ true
    → cs ++ r ≡ ds ++ q
    → (cs ≡ ds) × (r ≡ q)
unfolding no_end at_end
no_end_unique [] [] r q a b c d h = (refl, h)
no_end_unique [] (x ∷ ds) [] q a b c d h = absurd cc
no_end_unique [] (x ∷ ds) (y ∷ r) q a b c d h = absurd (ground arith)
no_end_unique (x ∷ cs) [] r [] a b c d h = absurd cc
no_end_unique (x ∷ cs) [] r (y ∷ q) a b c d h = absurd (ground arith)
no_end_unique (x ∷ cs) (y ∷ ds) r q a b c d h = ground (arith, no_end_unique cs ds r q)

int_value : List ℕ → ℤ
int_value [] = pos 0
int_value (c ∷ cs) = if c == b'-' then negate (number 0 cs) else pos (number 0 (c ∷ cs))

int_value-all_digits : (cs : List ℕ) → all_digits cs ≡ true → int_value cs ≡ pos (number 0 cs)
unfolding int_value all_digits is_digit number
int_value-all_digits [] h = refl
int_value-all_digits (c ∷ cs) h = ground arith

codes-negative : (n : ℕ) → codes (show_int (negsuc n)) ≡ b'-' ∷ codes (show (suc n))
codes-negative n = rw codes-append refl

int_value-show_int : (z : ℤ) → int_value (codes (show_int z)) ≡ z
unfolding int_value
int_value-show_int (pos n) =
    int_value-all_digits (codes (show n)) (all_digits-show n) ∙ ap pos (number-show n)
int_value-show_int (negsuc n) = rw codes-negative (rw number-show refl)

pub show_int-injective : (y z : ℤ) → codes (show_int y) ≡ codes (show_int z) → y ≡ z
show_int-injective y z h = sym (int_value-show_int y) ∙ ap int_value h ∙ int_value-show_int z

-- The characters of an integer.
unfoldable pub is_integer : List ℕ → Bool
unfolding is_digit
is_integer [] = true
is_integer (c ∷ cs) = (is_digit c || c == b'-') && is_integer cs

-- The first character of a number: `NaN` and `Infinity` are floats.
unfoldable pub starts_number : List ℕ → Bool
unfolding is_digit
starts_number [] = false
starts_number (c ∷ cs) = is_digit c || c == b'-' || c == b'N' || c == b'I'

is_integer-all_digits : (cs : List ℕ) → all_digits cs ≡ true → is_integer cs ≡ true
unfolding is_integer all_digits
is_integer-all_digits [] h = refl
is_integer-all_digits (c ∷ cs) h = ground (arith, is_integer-all_digits cs)

pub is_integer-show_int : (z : ℤ) → is_integer (codes (show_int z)) ≡ true
unfolding is_integer
is_integer-show_int (pos n) = is_integer-all_digits (codes (show n)) (all_digits-show n)
is_integer-show_int (negsuc n) =
    rw codes-negative (is_integer-all_digits (codes (show (suc n))) (all_digits-show (suc n)))

pub no_end-is_integer : (cs : List ℕ) → is_integer cs ≡ true → no_end cs ≡ true
unfolding no_end is_integer is_digit
no_end-is_integer [] h = refl
no_end-is_integer (c ∷ cs) h = ground (arith, no_end-is_integer cs)

starts_number-is_integer : (cs : List ℕ) → is_integer cs ≡ true → cs ≢ [] → starts_number cs ≡ true
unfolding is_integer starts_number
starts_number-is_integer [] h k = absurd (k refl)
starts_number-is_integer (c ∷ cs) h k = ground arith

pub starts_number-show_int : (z : ℤ) → starts_number (codes (show_int z)) ≡ true
unfolding starts_number
starts_number-show_int (pos n) =
    starts_number-is_integer (codes (show n)) (is_integer-show_int (pos n)) (show-ne-nil n)
starts_number-show_int (negsuc n) = rw codes-negative refl

-- The text of a float: it starts as a number, holds something that no integer holds, and no end.
unfoldable pub is_float : List ℕ → Bool
unfolding no_end is_integer starts_number
is_float cs = starts_number cs && not (is_integer cs) && no_end cs
