-- ===== src/Hashing/Order.antt =====
-- hashing.py, sort_keys: the order of the keys and the insertion into a sorted list.
use Prim.Native.String.{String}
use text.Mathlib.TextEquality.{Char-path}
use sb_poc.Prelude.{
  insert_by, ℕ, ◌≡◌, ◌≢◌, refl, ap₂, true, false, List, [], ◌∷◌, arith, Bool-cases, inl, inr, ◌⊎◌,
}
use sb_poc.Text.{codes}
use sb_poc.Hashing.{lex_le, key_le, Entry, by_key}

pub lex_le_total : (a b : List ℕ) → lex_le a b ≡ false → lex_le b a ≡ true
unfolding lex_le
lex_le_total [] b h = cc
lex_le_total (c ∷ cs) [] h = refl
lex_le_total (c ∷ cs) (d ∷ ds) h = ground (arith, lex_le_total cs ds)

pub lex_le_antisymm : (a b : List ℕ) → lex_le a b ≡ true → lex_le b a ≡ true → a ≡ b
unfolding lex_le
lex_le_antisymm [] [] h k = refl
lex_le_antisymm [] (d ∷ ds) h k = cc
lex_le_antisymm (c ∷ cs) [] h k = cc
lex_le_antisymm (c ∷ cs) (d ∷ ds) h k = ground (arith, lex_le_antisymm cs ds)

lex_le_trans : (a b c : List ℕ) → lex_le a b ≡ true → lex_le b c ≡ true → lex_le a c ≡ true
unfolding lex_le
lex_le_trans [] b c h k = refl
lex_le_trans (x ∷ xs) [] c h k = cc
lex_le_trans (x ∷ xs) (y ∷ ys) [] h k = cc
lex_le_trans (x ∷ xs) (y ∷ ys) (z ∷ zs) h k = ground (arith, lex_le_trans xs ys zs)

pub codes-injective : (s t : String) → codes s ≡ codes t → s ≡ t
codes-injective String.[] String.[] h = refl
codes-injective String.[] (String.◌∷◌ d t) h = cc
codes-injective (String.◌∷◌ c s) String.[] h = cc
codes-injective (String.◌∷◌ c s) (String.◌∷◌ d t) h =
    ap₂ String.◌∷◌ (Char-path c d (cc)) (codes-injective s t (cc))

-- Of two different keys one comes before the other, and not the other way round.
key_le_cases :
    (s t : String)
    → s ≢ t
    → ((key_le s t ≡ true) × (key_le t s ≡ false)) ⊎ ((key_le s t ≡ false) × (key_le t s ≡ true))
key_le_cases s t h = elim (Bool-cases (key_le s t)) [
  | inr e ↦ inr (e, lex_le_total (codes s) (codes t) e)
  | inl e ↦ elim (Bool-cases (key_le t s)) [
    | inr e' ↦ inl (e, e')
    | inl e' ↦ absurd (h (codes-injective s t (lex_le_antisymm (codes s) (codes t) e e')))
  ]
]

pub key_le_trans : (r s t : String) → key_le r s ≡ true → key_le s t ≡ true → key_le r t ≡ true
key_le_trans r s t h k = lex_le_trans (codes r) (codes s) (codes t) h k

-- Two entries with different keys may be inserted in either order.
pub insert_by_comm :
    (a b : Entry) (l : List Entry)
    → a.0 ≢ b.0
    → insert_by by_key a (insert_by by_key b l) ≡ insert_by by_key b (insert_by by_key a l)
unfolding insert_by
insert_by_comm a b [] h = ground (arith, key_le_cases a.0 b.0 h)
insert_by_comm a b (x ∷ xs) h = ground (
  arith,
  key_le_cases a.0 b.0 h,
  key_le_trans a.0 b.0 x.0,
  key_le_trans b.0 a.0 x.0,
  insert_by_comm a b xs h,
)
