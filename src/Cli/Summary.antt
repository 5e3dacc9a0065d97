-- ===== src/Cli/Summary.antt =====
-- cli.py, _cmd_results: the counts by status, and the rows.
use sb_poc.Prelude.{
  insert_by, sort_by, Ascending, length, ℕ, ℕ_eq, zero, suc, ◌+◌, String, String_eq, Bool, true,
  false, Option, none, some, List, [], ◌∷◌, map, ◌==◌, ◌≡◌, refl, ap, ◌∙◌, arith, Table, lookup,
  put, lookup-put, UniqueKeys, UniqueKeys-put, Bool-cases, inl, inr, if◌then◌else◌, eq_iff,
  length-map,
}
use sb_poc.Queue.{Key, Key_eq, key_beq_iff}
use sb_poc.Store.{Store, StoredResult}
use sb_poc.Cli.{
  on_keys, or_zero, group_counts, key_le, statuses, summary, listing, count_line, line_of,
  cmd_results,
}
use sb_poc.Cli.Sorted.{lookup-sort_by, sort_by-UniqueKeys, TotalOrder, ordered_by_key}

-- How often a text stands in a list.
abbrev pub occurrences : String → List String → ℕ
occurrences x [] = 0
occurrences x (y ∷ ys) = if y == x then suc (occurrences x ys) else occurrences x ys

-- The row of a text in a table of counts.
abbrev pub counted : ℕ → Option ℕ
counted zero = none
counted (suc n) = some (suc n)

-- The sum of the counts.
abbrev pub total : Table String ℕ → ℕ
total [] = 0
total (p ∷ ps) = p.1 + total ps

or_zero-counted : (n : ℕ) → or_zero (counted n) ≡ n
or_zero-counted zero = refl
or_zero-counted (suc n) = refl

lookup-group_counts :
    (x : String) (xs : List String) → lookup x (group_counts xs) ≡ counted (occurrences x xs)
unfolding group_counts lookup
lookup-group_counts x [] = refl
lookup-group_counts x (y ∷ ys) =
    lookup-put y x (suc (or_zero (lookup y (group_counts ys)))) (group_counts ys)
    ∙ elim (Bool-cases (y == x)) [
      | inl here ↦
          let same : y ≡ x = (eq_iff y x).0 here in
          let own : or_zero (lookup y (group_counts ys)) ≡ occurrences x ys =
            ap (λ z. or_zero (lookup z (group_counts ys))) same
            ∙ ap or_zero (lookup-group_counts x ys)
            ∙ or_zero-counted (occurrences x ys) in
          rw (here, own) refl
      | inr there ↦ rw there (lookup-group_counts x ys)
    ]

group_counts-UniqueKeys : (xs : List String) → UniqueKeys (group_counts xs)
unfolding group_counts
group_counts-UniqueKeys [] = tt
group_counts-UniqueKeys (x ∷ xs) = UniqueKeys-put x _ (group_counts xs) (group_counts-UniqueKeys xs)

total-put :
    (x : String) (t : Table String ℕ) → total (put x (suc (or_zero (lookup x t))) t) ≡ suc (total t)
unfolding lookup put
total-put x [] = refl
total-put x ((y, n) ∷ t) = ground (arith, total-put x t)

total-group_counts : (xs : List String) → total (group_counts xs) ≡ length xs
unfolding group_counts
total-group_counts [] = refl
total-group_counts (x ∷ xs) = total-put x (group_counts xs) ∙ ap suc (total-group_counts xs)

module _ (le : String × ℕ → String × ℕ → Bool) where
  total-insert_by : (p : String × ℕ) (t : Table String ℕ) → total (insert_by le p t) ≡ p.1 + total t
  unfolding insert_by
  total-insert_by p [] = refl
  total-insert_by p (q ∷ t) = ground (arith, total-insert_by p t)

  total-sort_by : (t : Table String ℕ) → total (sort_by le t) ≡ total t
  unfolding sort_by
  total-sort_by [] = refl
  total-sort_by (p ∷ t) = omega (arith, total-insert_by p (sort_by le t), total-sort_by t)

-- One line for each status that occurs, with the number of its results, in the order of the statuses.
pub record IsSummary {F : Type 0} (collate : String → String → Bool)
    (rows : Table Key (StoredResult F)) (lines : Table String ℕ) : Type 0 where
  pub counts : (x : String) → lookup x lines ≡ counted (occurrences x (statuses collate rows))
  pub once : UniqueKeys lines
  pub sum : total lines ≡ length rows
  pub ordered : Ascending (on_keys collate) lines

summary-IsSummary :
    {F : Type 0} (collate : String → String → Bool) (rows : Table Key (StoredResult F))
    → TotalOrder collate
    → IsSummary collate rows (summary collate rows)
unfolding summary
summary-IsSummary collate rows o =
    let xs = statuses collate rows in
    let unique = group_counts-UniqueKeys xs in
    record {
      counts = λ x. lookup-sort_by collate x (group_counts xs) unique ∙ lookup-group_counts x xs;
      once = sort_by-UniqueKeys collate (group_counts xs) unique;
      sum =
          total-sort_by (on_keys collate) (group_counts xs)
          ∙ total-group_counts xs
          ∙ length-map _ rows;
      ordered = ordered_by_key collate o (group_counts xs);
    }

module _ (collate : String → String → Bool) (o : TotalOrder collate) where
  key_le_antisymm : (j k : Key) → key_le collate j k ≡ true → key_le collate k j ≡ true → j ≡ k
  key_le_antisymm j k h h1 = (key_beq_iff j k).0 (
      ground (
        arith,
        h,
        h1,
        eq_iff j.tenant_id k.tenant_id,
        eq_iff k.tenant_id j.tenant_id,
        eq_iff j.conversation_id k.conversation_id,
        o.antisymm j.tenant_id k.tenant_id,
        o.antisymm j.conversation_id k.conversation_id,
      ))

  key_le_trans :
      (i j k : Key)
      → key_le collate i j ≡ true
      → key_le collate j k ≡ true
      → key_le collate i k ≡ true
  key_le_trans i j k h h1 = ground (
    arith,
    h,
    h1,
    eq_iff i.tenant_id j.tenant_id,
    eq_iff j.tenant_id k.tenant_id,
    eq_iff i.tenant_id k.tenant_id,
    o.antisymm i.tenant_id j.tenant_id,
    o.trans i.tenant_id j.tenant_id k.tenant_id,
    o.trans i.conversation_id j.conversation_id k.conversation_id,
  )

  key_le-TotalOrder : TotalOrder (key_le collate)
  key_le-TotalOrder = record {
    total = λ j k h. ground (
      arith,
      h,
      eq_iff j.tenant_id k.tenant_id,
      eq_iff k.tenant_id j.tenant_id,
      o.total j.tenant_id k.tenant_id,
      o.total j.conversation_id k.conversation_id,
    );
    antisymm = key_le_antisymm;
    trans = key_le_trans;
  }

-- The rows of the table, each once, ordered by tenant and then by conversation.
pub record IsListing {F : Type 0} (collate : String → String → Bool)
    (rows lines : Table Key (StoredResult F)) : Type 0 where
  pub same_rows : (k : Key) → lookup k lines ≡ lookup k rows
  pub once : UniqueKeys lines
  pub ordered : Ascending (on_keys (key_le collate)) lines

listing-IsListing :
    {F : Type 0} (collate : String → String → Bool) (rows : Table Key (StoredResult F))
    → TotalOrder collate
    → UniqueKeys rows
    → IsListing collate rows (listing collate rows)
unfolding listing
listing-IsListing collate rows o unique =
    let le = key_le collate in
    record {
      same_rows = λ k. lookup-sort_by le k rows unique;
      once = sort_by-UniqueKeys le rows unique;
      ordered = ordered_by_key le (key_le-TotalOrder collate o) rows;
    }

-- If the order of texts in the database is a total order and the results have distinct keys, then the
-- summary has one line for each status that occurs among the results, with their number, its numbers
-- add up to the number of results, and its lines are in the order of the statuses; and without the
-- summary each result has one line, in the order of tenants and then of conversations.
pub cmd_results_lines :
    {F : Type 0} (collate : String → String → Bool) (s : Store F)
    → TotalOrder collate
    → UniqueKeys s.results
    → ((lines : Table String ℕ) × (cmd_results collate true s ≡ map (count_line collate) lines)
        × IsSummary collate s.results lines)
      × ((lines : Table Key (StoredResult F)) × (cmd_results collate false s
            ≡ map (line_of collate) lines)
          × IsListing collate s.results lines)
unfolding cmd_results
cmd_results_lines collate s o unique = (
  (summary collate s.results, refl, summary-IsSummary collate s.results o),
  (listing collate s.results, refl, listing-IsListing collate s.results o unique),
)
