-- ===== src/Bench/Latencies/Indexed.antt =====
-- scripts/bench.py, percentile: elements of a sorted list by their positions.
use sb_poc.Prelude.{
  ℕ, zero, suc, ◌≤◌, ◌<◌, Bool, true, some, List, [], ◌∷◌, ◌≡◌, refl, sym, subst, ap, ◌∙◌, ◌⊎◌, inl,
  inr, arith, length, get_elem?, All, Ascending, insert_by, sort_by,
}

some-injective {ℓ} : {A : Type ℓ} {a b : A} → some a ≡ some b → a ≡ b
some-injective h = cc

module _ {ℓ} {A : Type ℓ} where
  pub element : (xs : List A) (k : ℕ) → k < length xs → (x : A) × (get_elem? xs k ≡ some x)
  element [] k h = absurd (omega arith)
  element (x ∷ xs) zero h = (x, refl)
  element (x ∷ xs) (suc k) h = element xs k (omega arith)

  pub All-element {κ} :
      (P : A → Type κ) (xs : List A) (k : ℕ) (x : A) → All P xs → get_elem? xs k ≡ some x → P x
  All-element P [] k x a e = absurd (cc)
  All-element P (y ∷ xs) zero x a e = subst P (some-injective e) a.0
  All-element P (y ∷ xs) (suc k) x a e = All-element P xs k x a.1 e

  All-map {κ ρ} :
      {P : A → Type κ} {Q : A → Type ρ} (xs : List A) → ((x : A) → P x → Q x) → All P xs → All Q xs
  All-map [] h a = tt
  All-map (x ∷ xs) h a = (h x a.0, All-map xs h a.1)

  module _ (le : A → A → Bool) where
    length-insert_by : (x : A) (ys : List A) → length (insert_by le x ys) ≡ suc (length ys)
    unfolding insert_by
    length-insert_by x [] = refl
    length-insert_by x (y ∷ ys) = ground (arith, length-insert_by x ys)

    pub length-sort_by : (xs : List A) → length (sort_by le xs) ≡ length xs
    unfolding sort_by
    length-sort_by [] = refl
    length-sort_by (x ∷ xs) = length-insert_by x (sort_by le xs) ∙ ap suc (length-sort_by xs)

    -- Later elements of a sorted list are not smaller.
    pub Ascending-element :
        ((x : A) → le x x ≡ true)
        → (xs : List A) (j k : ℕ) (x y : A) → j ≤ k
        → Ascending le xs
        → get_elem? xs j ≡ some x
        → get_elem? xs k ≡ some y
        → le x y ≡ true
    Ascending-element same [] j k x y h a e e' = absurd (cc)
    Ascending-element same (z ∷ zs) zero zero x y h a e e' =
        subst (λ w. le x w ≡ true) (some-injective (sym e ∙ e')) (same x)
    Ascending-element same (z ∷ zs) zero (suc k) x y h a e e' =
        subst (λ w. le w y ≡ true) (some-injective e)
          (All-element (λ w. le z w ≡ true) zs k y a.0 e')
    Ascending-element same (z ∷ zs) (suc j) zero x y h a e e' = absurd (omega arith)
    Ascending-element same (z ∷ zs) (suc j) (suc k) x y h a e e' =
        Ascending-element same zs j k x y (omega arith) a.1 e e'

module _ {A : Type 0} where
  -- The element is one of the list.
  abbrev pub Among : A → List A → Type 0
  Among x [] = ⊥
  Among x (y ∷ ys) = (x ≡ y) ⊎ Among x ys

  pub All-Among : (xs : List A) → All (λ x. Among x xs) xs
  All-Among [] = tt
  All-Among (x ∷ xs) = (inl refl, All-map xs (λ y a. inr a) (All-Among xs))
