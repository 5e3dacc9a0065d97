-- ===== src/Hashing/Unique/Codes.antt =====
-- hashing.py, json.dumps: the code points of a text in quotes, and how they are read back.
use Prim.Native.Char.{Char, code}
use Prim.Native.String.{◌++◌ as ◌⧺◌}
use mathlib.Core.List.{append_assoc}
use sb_poc.Text.Printed.{codes-append, all_below}
use sb_poc.Prelude.{
  ℕ, ◌+◌, ◌-◌, ◌*◌, ◌<◌, String, ◌≡◌, refl, ap, ap₂, ◌∙◌, Bool, true, false, List, [], ◌∷◌, ◌++◌,
  Option, none, some, ◌==◌, ℕ_eq, ltb, if◌then◌else◌, arith, Bool-cases, inl, inr,
}
use sb_poc.Text.{codes, show}
use sb_poc.Hashing.{hex_digit, control, escape, escape_all, quote}

pub same_first : (c d : ℕ) (r q : List ℕ) → c ∷ r ≡ d ∷ q → c ≡ d
same_first c d r q h = cc

pub same_rest : (c d : ℕ) (r q : List ℕ) → c ∷ r ≡ d ∷ q → r ≡ q
same_rest c d r q h = cc

-- Texts with different first characters are different.
pub apart : {A : Type 0} (c d : ℕ) (r q : List ℕ) → (c == d) ≡ false → c ∷ r ≡ d ∷ q → A
apart c d r q e h = let same : c ≡ d = same_first c d r q h in absurd (ground arith)

hex_code : ℕ → ℕ
hex_code n = if ltb n 10 then 48 + n else 87 + n

escaped_control : ℕ → List ℕ → List ℕ
unfolding hex_code
escaped_control c r =
    if ltb c 16
    then b'\\' ∷ b'u' ∷ 48 ∷ 48 ∷ 48 ∷ hex_code c ∷ r
    else if ltb c 32
    then b'\\' ∷ b'u' ∷ 48 ∷ 48 ∷ 49 ∷ hex_code (c - 16) ∷ r
    else c ∷ r

-- An escaped character, with a rest behind it.
escaped : ℕ → List ℕ → List ℕ
unfolding escaped_control
escaped c r =
    if c == 0x22
    then b'\\' ∷ 0x22 ∷ r
    else if c == 0x5c
    then b'\\' ∷ 0x5c ∷ r
    else if c == 10
    then b'\\' ∷ b'n' ∷ r
    else if c == 13
    then b'\\' ∷ b'r' ∷ r
    else if c == 9
    then b'\\' ∷ b't' ∷ r
    else if c == 12
    then b'\\' ∷ b'f' ∷ r
    else if c == 8
    then b'\\' ∷ b'b' ∷ r
    else escaped_control c r

unescape : ℕ → ℕ
unescape c =
    if c == b'n'
    then 10
    else if c == b'r'
    then 13
    else if c == b't'
    then 9
    else if c == b'f'
    then 12
    else if c == b'b'
    then 8
    else c

hex_value : ℕ → ℕ
hex_value c = if ltb c 58 then c - 48 else c - 87

read_hex : List ℕ → Option (ℕ × List ℕ)
unfolding hex_value
read_hex (a ∷ b ∷ c ∷ d ∷ r) = some ((c - 48) * 16 + hex_value d, r)
read_hex _ = none

read_escape : List ℕ → Option (ℕ × List ℕ)
unfolding read_hex unescape
read_escape [] = none
read_escape (c ∷ r) = if c == b'u' then read_hex r else some (unescape c, r)

-- The first character of a text in quotes, and the rest; `none` at the closing quote.
read : List ℕ → Option (ℕ × List ℕ)
unfolding read_escape
read [] = none
read (c ∷ r) = if c == 0x22 then none else if c == b'\\' then read_escape r else some (c, r)

read-escaped : (c : ℕ) (r : List ℕ) → read (escaped c r) ≡ some (c, r)
unfolding read escaped
read-escaped c r = ground arith

-- A text in quotes from its second character on.
pub body : List ℕ → List ℕ → List ℕ
body [] r = 0x22 ∷ r
body (c ∷ cs) r = escaped c (body cs r)

escaped-injective : (c d : ℕ) (r q : List ℕ) → escaped c r ≡ escaped d q → (c ≡ d) × (r ≡ q)
escaped-injective c d r q h =
    let same : read (escaped c r) ≡ read (escaped d q) = ap read h in
    ground (arith, read-escaped c r, read-escaped d q)

pub body-injective : (cs ds r q : List ℕ) → body cs r ≡ body ds q → (cs ≡ ds) × (r ≡ q)
unfolding body
body-injective [] [] r q h = (refl, cc)
body-injective [] (d ∷ ds) r q h =
    let same : read (0x22 ∷ r) ≡ read (escaped d (body ds q)) = ap read h in
    absurd (unfold read in ground (arith, read-escaped d (body ds q)))
body-injective (c ∷ cs) [] r q h =
    let same : read (escaped c (body cs r)) ≡ read (0x22 ∷ q) = ap read h in
    absurd (unfold read in ground (arith, read-escaped c (body cs r)))
body-injective (c ∷ cs) (d ∷ ds) r q h =
    let first = escaped-injective c d (body cs r) (body ds q) h in
    let rest = body-injective cs ds r q first.1 in (ap₂ ◌∷◌ first.0 rest.0, rest.1)

codes-hex_digit : (n : ℕ) → n < 16 → codes (hex_digit n) ≡ hex_code n ∷ []
unfolding hex_digit hex_code show
codes-hex_digit n h = all_below (λ k. codes (hex_digit k) ≡ hex_code k ∷ []) 16 n (ground arith) h

codes-if :
    (b : Bool) (s t : String) (r : List ℕ)
    → codes (if b then s else t) ++ r ≡ (if b then codes s ++ r else (codes t ++ r))
codes-if true s t r = refl
codes-if false s t r = refl

codes-first_half :
    (n : ℕ) (r : List ℕ)
    → n < 16
    → codes ("\\u000" ⧺ hex_digit n) ++ r ≡ b'\\' ∷ b'u' ∷ 48 ∷ 48 ∷ 48 ∷ hex_code n ∷ r
codes-first_half n r h = rw codes-append (rw (codes-hex_digit n h) refl)

codes-second_half :
    (n : ℕ) (r : List ℕ)
    → n < 16
    → codes ("\\u001" ⧺ hex_digit n) ++ r ≡ b'\\' ∷ b'u' ∷ 48 ∷ 48 ∷ 49 ∷ hex_code n ∷ r
codes-second_half n r h = rw codes-append (rw (codes-hex_digit n h) refl)

codes-control : (c : Char) (r : List ℕ) → codes (control c) ++ r ≡ escaped_control (code c) r
unfolding control escaped_control
codes-control c r = elim (Bool-cases (ltb (code c) 16)) [
  | inl e ↦ rw e (codes-first_half (code c) r (ground arith))
  | inr e ↦ rw e (elim (Bool-cases (ltb (code c) 32)) [
    | inl e' ↦ rw e' (codes-second_half (code c - 16) r (ground arith))
    | inr e' ↦ rw e' refl
  ])
]

codes-escape_lem : (c : Char) (r : List ℕ) → codes (escape c) ++ r ≡ escaped (code c) r
unfolding escape escaped control escaped_control
codes-escape_lem c r =
    rw (codes-if, codes-if, codes-if, codes-if, codes-if, codes-if, codes-if)
      (rw (codes-control c r) refl)

codes-escape_all : (s : String) (r : List ℕ) → codes (escape_all s) ++ (0x22 ∷ r) ≡ body (codes s) r
unfolding escape_all body
codes-escape_all String.[] r = refl
codes-escape_all (String.◌∷◌ c s) r = rw codes-append (
    rw append_assoc (
      codes-escape_lem c (codes (escape_all s) ++ (0x22 ∷ r))
      ∙ ap (escaped (code c)) (codes-escape_all s r)))

pub codes-quote : (s : String) (r : List ℕ) → codes (quote s) ++ r ≡ 0x22 ∷ body (codes s) r
unfolding quote
codes-quote s r =
    rw (codes-append, codes-append) (rw append_assoc (ap (◌∷◌ 0x22) (codes-escape_all s r)))
