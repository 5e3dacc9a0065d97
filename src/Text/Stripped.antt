-- ===== src/Text/Stripped.antt =====
-- Python's int(text) and str.strip: a printed integer is read back, and a text without blanks is kept.
use mathlib.Core.List.{reverse, reverse_aux, append-nil}
use sb_poc.Prelude.{
  ℕ, suc, ◌+◌, ◌-◌, ◌*◌, ◌<◌, ◌≤◌, ℤ, pos, negsuc, Bool, true, false, ◌&&◌, not, some, List, [],
  ◌∷◌, ◌++◌, ◌==◌, ◌≡◌, ◌≢◌, refl, ap, subst, ◌∙◌, ℕ_eq, ltb, length, map_option, keep_if, arith,
}
use sb_poc.Text.{Unicode, codes, is_space, lstrip, strip, digits, unsigned, int_of, negate, show}
use sb_poc.Hashing.{show_int}
use sb_poc.Text.Printed.{
  number, is_digit, all_digits, number-show, all_digits-show, show-ne-nil, codes-append,
}

-- No character is a blank.
abbrev pub no_blanks : List ℕ → Bool
no_blanks [] = true
no_blanks (c ∷ cs) = not (is_space c) && no_blanks cs

lstrip-no_blanks : (cs : List ℕ) → no_blanks cs ≡ true → lstrip cs ≡ cs
unfolding lstrip
lstrip-no_blanks [] h = refl
lstrip-no_blanks (c ∷ cs) h = ground (arith, h)

-- The decimal digits of ASCII have their values.
pub record DigitLaws (u : Unicode) : Type 0 where
  pub decimal_ascii : (d : ℕ) → d < 10 → u.decimal (48 + d) ≡ some d

all_digits-no_blanks : (cs : List ℕ) → all_digits cs ≡ true → no_blanks cs ≡ true
unfolding all_digits is_digit is_space
all_digits-no_blanks [] h = refl
all_digits-no_blanks (c ∷ cs) h = ground (arith, h, all_digits-no_blanks cs)

keep-all_digits : (cs : List ℕ) → all_digits cs ≡ true → keep_if (λ c. not (c == b'_')) cs ≡ cs
unfolding all_digits is_digit
keep-all_digits [] h = refl
keep-all_digits (c ∷ cs) h = ground (arith, h, keep-all_digits cs)

module _ (u : Unicode) (laws : DigitLaws u) where
  decimal-digit : (c : ℕ) → is_digit c ≡ true → u.decimal c ≡ some (c - 48)
  unfolding is_digit
  decimal-digit c h =
      subst (λ x. u.decimal x ≡ some (c - 48)) (ground (arith, h))
        (laws.decimal_ascii (c - 48) (ground (arith, h)))

  digits-cons :
      (acc : ℕ) (after_digit : Bool) (c : ℕ) (cs : List ℕ)
      → is_digit c ≡ true
      → digits u acc after_digit (c ∷ cs) ≡ digits u (acc * 10 + (c - 48)) true cs
  unfolding digits is_digit
  digits-cons acc after_digit c cs h =
      let plain : (c == b'_') ≡ false = ground (arith, h) in rw (plain, decimal-digit c h) refl

  digits-number :
      (acc : ℕ) (cs : List ℕ) → all_digits cs ≡ true → digits u acc true cs ≡ some (number acc cs)
  unfolding number all_digits digits
  digits-number acc [] h = refl
  digits-number acc (c ∷ cs) h =
      digits-cons acc true c cs (ground (arith, h))
      ∙ digits-number (acc * 10 + (c - 48)) cs (ground (arith, h))

  -- Digits, and no more of them than Python reads.
  unsigned-number :
      (cs : List ℕ)
      → cs ≢ []
      → all_digits cs ≡ true
      → length cs ≤ 4300
      → unsigned u cs ≡ some (number 0 cs)
  unfolding unsigned number all_digits
  unsigned-number [] some_there h short = absurd (some_there refl)
  unsigned-number (c ∷ cs) some_there h short =
      let few : ltb 4300 (length (keep_if (λ c. not (c == b'_')) (c ∷ cs))) ≡ false =
        rw (keep-all_digits (c ∷ cs) h) (ground (arith, short)) in
      rw few (
        digits-cons 0 false c cs (ground (arith, h))
        ∙ digits-number (0 * 10 + (c - 48)) cs (ground (arith, h)))

  unsigned-show : (n : ℕ) → length (codes (show n)) ≤ 4300 → unsigned u (codes (show n)) ≡ some n
  unsigned-show n short =
      unsigned-number (codes (show n)) (show-ne-nil n) (all_digits-show n) short
      ∙ ap some (number-show n)

  first_digit :
      (cs : List ℕ) → all_digits cs ≡ true → cs ≢ [] → int_of u cs ≡ map_option pos (unsigned u cs)
  unfolding int_of all_digits is_digit
  first_digit [] h n = absurd (n refl)
  first_digit (c ∷ cs) h n =
      let no_minus : (c == b'-') ≡ false = ground (arith, h) in
      let no_plus : (c == b'+') ≡ false = ground (arith, h) in rw (no_minus, no_plus) refl

  -- `int(str(n))`
  pub int_of-show_int :
      (z : ℤ) → length (codes (show_int z)) ≤ 4300 → int_of u (codes (show_int z)) ≡ some z
  unfolding int_of
  int_of-show_int (pos n) short =
      first_digit (codes (show n)) (all_digits-show n) (show-ne-nil n)
      ∙ ap (map_option pos) (unsigned-show n short)
  int_of-show_int (negsuc n) short =
      let split : codes (show_int (negsuc n)) ≡ b'-' ∷ codes (show (suc n)) =
        codes-append "-" (show (suc n)) in
      let more : suc (length (codes (show (suc n)))) ≤ 4300 =
        subst (λ cs. length cs ≤ 4300) split short in
      ap (int_of u) split ∙ ap (map_option negate) (unsigned-show (suc n) (omega arith))

reverse_aux-no_blanks :
    (xs r : List ℕ) → no_blanks xs ≡ true → no_blanks r ≡ true → no_blanks (reverse_aux xs r) ≡ true
reverse_aux-no_blanks [] r h k = k
reverse_aux-no_blanks (x ∷ xs) r h k =
    reverse_aux-no_blanks xs (x ∷ r) (ground (arith, h)) (ground (arith, h, k))

reverse_aux_twice :
    {A : Type 0} (xs r s : List A) → reverse_aux (reverse_aux xs r) s ≡ reverse_aux r (xs ++ s)
reverse_aux_twice [] r s = refl
reverse_aux_twice (x ∷ xs) r s = reverse_aux_twice xs (x ∷ r) s

pub strip-no_blanks : (cs : List ℕ) → no_blanks cs ≡ true → strip cs ≡ cs
unfolding strip
strip-no_blanks cs h =
    rw (lstrip-no_blanks cs h, lstrip-no_blanks (reverse cs) (reverse_aux-no_blanks cs [] h refl))
      (reverse_aux_twice cs [] [] ∙ append-nil cs)

pub show_int-no_blanks : (z : ℤ) → no_blanks (codes (show_int z)) ≡ true
unfolding is_space
show_int-no_blanks (pos n) = all_digits-no_blanks (codes (show n)) (all_digits-show n)
show_int-no_blanks (negsuc n) =
    rw (codes-append "-" (show (suc n)))
      (all_digits-no_blanks (codes (show (suc n))) (all_digits-show (suc n)))
