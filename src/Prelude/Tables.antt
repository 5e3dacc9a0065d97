-- ===== src/Prelude/Tables.antt =====
-- A table with one row for a key, in insertion order: a Python dict, and a database table with its
-- primary key.
use mathlib.Core.Path.{◌≡◌, refl}
use mathlib.Core.Option.{Option, none, some}
use mathlib.Core.List.{List, [], ◌∷◌}
use native.Mathlib.Omega.{arith}
use mathlib.Core.Logic.{inl, inr}
use sb_poc.Prelude.Tests.{Bool-cases, Eq, ◌==◌, if◌then◌else◌}

abbrev pub Table {ℓ κ} : Type ℓ → Type κ → Type (ℓ ⊔ κ)
Table K V = List (K × V)

abbrev pub map_option {ℓ κ} : {A : Type ℓ} {B : Type κ} → (A → B) → Option A → Option B
map_option f none = none
map_option f (some a) = some (f a)

module _ {ℓ κ} {K : Type ℓ} {V : Type κ} ⦃e : Eq K⦄ where
  unfoldable pub lookup : K → Table K V → Option V
  lookup k [] = none
  lookup k ((j, v) ∷ t) = if j == k then some v else lookup k t

  -- `t[k] = v`: a row that is there keeps its place
  unfoldable pub put : K → V → Table K V → Table K V
  put k v [] = (k, v) ∷ []
  put k v ((j, w) ∷ t) = if j == k then (j, v) ∷ t else (j, w) ∷ put k v t

  -- `UPDATE ... WHERE key = k`: nothing happens if there is no such row
  unfoldable pub update : K → (V → V) → Table K V → Table K V
  update k f [] = []
  update k f ((j, v) ∷ t) = if j == k then (j, f v) ∷ t else (j, v) ∷ update k f t

  -- No key has two rows.
  abbrev pub UniqueKeys : Table K V → Type (ℓ ⊔ κ)
  UniqueKeys [] = Unit
  UniqueKeys ((k, v) ∷ t) = (lookup k t ≡ none) × UniqueKeys t

  pub lookup-put :
      (k j : K) (v : V) (t : Table K V)
      → lookup j (put k v t) ≡ (if k == j then some v else lookup j t)
  unfolding lookup put
  lookup-put k j v [] = refl
  lookup-put k j v ((i, w) ∷ t) =
      ground (arith, e.beq_iff k j, e.beq_iff i k, e.beq_iff i j, lookup-put k j v t)

  pub lookup-update :
      (k j : K) (f : V → V) (t : Table K V)
      → lookup j (update k f t) ≡ (if k == j then map_option f (lookup j t) else lookup j t)
  unfolding lookup update
  lookup-update k j f [] = ground arith
  lookup-update k j f ((i, w) ∷ t) =
      ground (arith, e.beq_iff k j, e.beq_iff i k, e.beq_iff i j, lookup-update k j f t)

  pub UniqueKeys-update :
      (k : K) (f : V → V) (t : Table K V) → UniqueKeys t → UniqueKeys (update k f t)
  unfolding lookup update
  UniqueKeys-update k f [] u = tt
  UniqueKeys-update k f ((j, v) ∷ t) u = elim (Bool-cases (j == k)) [
    | inl here ↦ rw here u
    | inr there ↦ rw there (ground (arith, lookup-update k j f t, u.0), UniqueKeys-update k f t u.1)
  ]

  pub UniqueKeys-put : (k : K) (v : V) (t : Table K V) → UniqueKeys t → UniqueKeys (put k v t)
  unfolding lookup put
  UniqueKeys-put k v [] u = (refl, tt)
  UniqueKeys-put k v ((j, w) ∷ t) u = elim (Bool-cases (j == k)) [
    | inl here ↦ rw here u
    | inr there ↦ rw there (
      ground (arith, lookup-put k j v t, u.0, e.beq_iff j k, e.beq_iff k j),
      UniqueKeys-put k v t u.1,
    )
  ]
