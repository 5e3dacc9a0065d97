-- ===== src/Cli/Sorted.antt =====
-- cli.py, results: ORDER BY on a table with distinct keys.
use sb_poc.Prelude.{
  insert_by, sort_by, Sortable, Ascending, sort_by-Ascending, Bool, true, false, none, some, [],
  ◌∷◌, ◌==◌, ◌≡◌, refl, ◌∙◌, arith, Eq, Table, lookup, UniqueKeys, Bool-cases, inl, inr,
  if◌then◌else◌,
}
use sb_poc.Cli.{on_keys}

-- An order of all keys.
pub record TotalOrder {K : Type 0} (le : K → K → Bool) : Type 0 where
  pub total : (j k : K) → le j k ≡ false → le k j ≡ true
  pub antisymm : (j k : K) → le j k ≡ true → le k j ≡ true → j ≡ k
  pub trans : (i j k : K) → le i j ≡ true → le j k ≡ true → le i k ≡ true

module _ {K V : Type 0} ⦃e : Eq K⦄ (le : K → K → Bool) where
  lookup-insert_by :
      (j : K) (p : K × V) (t : Table K V)
      → lookup p.0 t ≡ none
      → lookup j (insert_by (on_keys le) p t) ≡ (if p.0 == j then some p.1 else lookup j t)
  unfolding lookup insert_by
  lookup-insert_by j (k, v) [] h = refl
  lookup-insert_by j (k, v) ((i, w) ∷ t) h = ground (
    arith,
    e.beq_iff k j,
    e.beq_iff i k,
    e.beq_iff k i,
    e.beq_iff i j,
    h,
    lookup-insert_by j (k, v) t,
  )

  -- Sorting moves rows and changes none.
  pub lookup-sort_by :
      (j : K) (t : Table K V) → UniqueKeys t → lookup j (sort_by (on_keys le) t) ≡ lookup j t
  unfolding sort_by lookup
  lookup-sort_by j [] u = refl
  lookup-sort_by j ((k, v) ∷ t) u = ground (
    arith,
    lookup-insert_by j (k, v) (sort_by (on_keys le) t) (lookup-sort_by k t u.1 ∙ u.0),
    lookup-sort_by j t u.1,
  )

  insert_by-UniqueKeys :
      (p : K × V) (t : Table K V)
      → lookup p.0 t ≡ none
      → UniqueKeys t
      → UniqueKeys (insert_by (on_keys le) p t)
  unfolding insert_by lookup
  insert_by-UniqueKeys (k, v) [] h u = (refl, tt)
  insert_by-UniqueKeys (k, v) ((i, w) ∷ t) h u = elim (Bool-cases (le k i)) [
    | inl first ↦ rw first (h, u)
    | inr later ↦ rw later (
      ground (arith, lookup-insert_by i (k, v) t, h, u.0, e.beq_iff k i, e.beq_iff i k),
      insert_by-UniqueKeys (k, v) t (ground (arith, h)) u.1,
    )
  ]

  pub sort_by-UniqueKeys : (t : Table K V) → UniqueKeys t → UniqueKeys (sort_by (on_keys le) t)
  unfolding sort_by
  sort_by-UniqueKeys [] u = tt
  sort_by-UniqueKeys ((k, v) ∷ t) u =
      insert_by-UniqueKeys (k, v) (sort_by (on_keys le) t) (lookup-sort_by k t u.1 ∙ u.0)
        (sort_by-UniqueKeys t u.1)

  on_keys-Sortable : TotalOrder le → Sortable (on_keys {K = K} {V = V} le)
  on_keys-Sortable o = record {
    total = λ p q h. o.total p.0 q.0 h;
    trans = λ p q r h k. o.trans p.0 q.0 r.0 h k;
  }

  pub ordered_by_key :
      TotalOrder le → (t : Table K V) → Ascending (on_keys le) (sort_by (on_keys le) t)
  ordered_by_key o t = sort_by-Ascending (on_keys le) (on_keys-Sortable o) t
