-- ===== src/Hashing/Unique/Kinds.antt =====
-- hashing.py, json.dumps: the first character of a text tells the kind of value.
use sb_poc.Prelude.{
  ℕ, ◌<◌, ◌≢◌, ◌≡◌, refl, sym, ap, ◌∙◌, true, false, ◌||◌, List, [], ◌∷◌, ◌++◌, ◌==◌, ℕ_eq,
  if◌then◌else◌, arith,
}
use sb_poc.Json.{Value, null, bool, int, float, str, arr, obj}
use sb_poc.Text.{codes}
use sb_poc.Text.Printed.{is_digit}
use sb_poc.Hashing.{dumps, show_int}
use sb_poc.Hashing.Unique.Numbers.{is_float, starts_number, starts_number-show_int}
use sb_poc.Hashing.Unique.Texts.{IsJson, printed, printed_str, printed_arr, printed_obj}

unfoldable pub kind : Value → ℕ
kind null = 0
kind (bool b) = 1
kind (int n) = 2
kind (float x) = 2
kind (str s) = 3
kind (arr xs) = 4
kind (obj fs) = 5

-- The kind of value that starts with a character; 6 for the brackets that close.
kind_of : List ℕ → ℕ
unfolding is_digit
kind_of [] = 6
kind_of (c ∷ r) =
    if c == b'n'
    then 0
    else if c == b't' || c == b'f'
    then 1
    else if is_digit c || c == b'-' || c == b'N' || c == b'I'
    then 2
    else if c == 0x22
    then 3
    else if c == b'['
    then 4
    else if c == b'{'
    then 5
    else 6

kind_of-starts_number : (cs r : List ℕ) → starts_number cs ≡ true → kind_of (cs ++ r) ≡ 2
unfolding kind_of starts_number
kind_of-starts_number [] r h = cc
kind_of-starts_number (c ∷ cs) r h = ground arith

kind_of-printed : (v : Value) (r : List ℕ) → IsJson v → kind_of (printed v r) ≡ kind v
unfolding kind_of kind dumps IsJson is_float
kind_of-printed null r h = refl
kind_of-printed (bool true) r h = refl
kind_of-printed (bool false) r h = refl
kind_of-printed (int n) r h =
    kind_of-starts_number (codes (show_int n)) r (starts_number-show_int n)
kind_of-printed (float x) r h = kind_of-starts_number (codes x) r (ground arith)
kind_of-printed (str s) r h = rw printed_str refl
kind_of-printed (arr xs) r h = rw printed_arr refl
kind_of-printed (obj fs) r h = rw printed_obj refl

pub kind_unique :
    (v w : Value) (r q : List ℕ) → IsJson v → IsJson w → printed v r ≡ printed w q → kind v ≡ kind w
kind_unique v w r q a b h = sym (kind_of-printed v r a) ∙ ap kind_of h ∙ kind_of-printed w q b

kind-lt : (v : Value) → kind v < 6
unfolding kind
kind-lt null = omega arith
kind-lt (bool b) = omega arith
kind-lt (int n) = omega arith
kind-lt (float x) = omega arith
kind-lt (str s) = omega arith
kind-lt (arr xs) = omega arith
kind-lt (obj fs) = omega arith

-- No value starts with a bracket that closes.
pub printed_ne_close : (v : Value) (r q : List ℕ) → IsJson v → printed v r ≢ b']' ∷ q
unfolding kind_of
printed_ne_close v r q a h =
    let same : kind_of (printed v r) ≡ 6 = ap kind_of h in
    absurd (omega (arith, kind_of-printed v r a, kind-lt v))
