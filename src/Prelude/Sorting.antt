-- ===== src/Prelude/Sorting.antt =====
-- Sorting by a Boolean order: `sorted`, `sort_keys` and ORDER BY. Elements that may stand in either order keep
-- the order of the list.
use mathlib.Core.Path.{◌≡◌}
use mathlib.Core.Logic.{inl, inr}
use mathlib.Core.Bool.{Bool, true, false}
use mathlib.Core.List.{List, [], ◌∷◌}
use sb_poc.Prelude.Tests.{Bool-cases, if◌then◌else◌}
use sb_poc.Prelude.Lists.{All}

module _ {ℓ} {A : Type ℓ} (le : A → A → Bool) where
  unfoldable pub insert_by : A → List A → List A
  insert_by x [] = x ∷ []
  insert_by x (y ∷ ys) = if le x y then x ∷ y ∷ ys else y ∷ insert_by x ys

  unfoldable pub sort_by : List A → List A
  unfolding insert_by
  sort_by [] = []
  sort_by (x ∷ xs) = insert_by x (sort_by xs)

  pub All-insert_by {κ} :
      (P : A → Type κ) (x : A) (ys : List A) → P x → All P ys → All P (insert_by x ys)
  unfolding insert_by
  All-insert_by P x [] h a = (h, tt)
  All-insert_by P x (y ∷ ys) h a = elim (Bool-cases (le x y)) [
    | inl first ↦ rw first (h, a)
    | inr later ↦ rw later (a.0, All-insert_by P x ys h a.1)
  ]

  pub All-sort_by {κ} : (P : A → Type κ) (xs : List A) → All P xs → All P (sort_by xs)
  unfolding sort_by
  All-sort_by P [] a = tt
  All-sort_by P (x ∷ xs) a = All-insert_by P x (sort_by xs) a.0 (All-sort_by P xs a.1)

  -- Each element may stand before those behind it.
  abbrev pub Ascending : List A → Type ℓ
  Ascending [] = Unit
  Ascending (x ∷ xs) = All (λ y. le x y ≡ true) xs × Ascending xs

  -- Any two elements may stand in one order, and the order is transitive.
  pub record Sortable : Type ℓ where
    pub total : (x y : A) → le x y ≡ false → le y x ≡ true
    pub trans : (x y z : A) → le x y ≡ true → le y z ≡ true → le x z ≡ true

  module _ (o : Sortable) where
    All-before :
        (x y : A) (zs : List A)
        → le x y ≡ true
        → All (λ z. le y z ≡ true) zs
        → All (λ z. le x z ≡ true) zs
    All-before x y [] h a = tt
    All-before x y (z ∷ zs) h a = (o.trans x y z h a.0, All-before x y zs h a.1)

    insert_by-Ascending : (x : A) (ys : List A) → Ascending ys → Ascending (insert_by x ys)
    unfolding insert_by
    insert_by-Ascending x [] a = (tt, tt)
    insert_by-Ascending x (y ∷ ys) a = elim (Bool-cases (le x y)) [
      | inl first ↦ rw first ((first, All-before x y ys first a.0), a)
      | inr later ↦ rw later (
        All-insert_by (λ z. le y z ≡ true) x ys (o.total x y later) a.0,
        insert_by-Ascending x ys a.1,
      )
    ]

    pub sort_by-Ascending : (xs : List A) → Ascending (sort_by xs)
    unfolding sort_by
    sort_by-Ascending [] = tt
    sort_by-Ascending (x ∷ xs) = insert_by-Ascending x (sort_by xs) (sort_by-Ascending xs)
