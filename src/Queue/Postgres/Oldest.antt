-- ===== src/Queue/Postgres/Oldest.antt =====
-- queue.py, PgJobQueue.claim: ORDER BY and LIMIT.
use sb_poc.Prelude.{
  insert_by, sort_by, All-sort_by, Ascending, Sortable, sort_by-Ascending, ℕ, zero, suc, ◌≤◌,
  String, ℤ, pos, Bool, true, false, ◌&&◌, ◌||◌, not, some, List, [], ◌∷◌, lookup, UniqueKeys, ◌==◌,
  String_eq, ◌≡◌, refl, sym, subst, ap, ap₂, ◌∙◌, ok, ok-injective, arith, All, take, drop, keep_if,
  Bool-cases, inl, inr,
}
use sb_poc.Queue.{Key, Key_eq, key_beq_iff, ClaimedJob, is_claimable, claims}
use sb_poc.Queue.Postgres.{
  Job, Jobs, older, by_enqueued_at, claimable, contains, returning, claim_unlocked,
}
use sb_poc.Queue.Postgres.Claims.{All-take, Stored, All-Stored, claims-returning}

abbrev Before : Key × Job → Key × Job → Type 0
Before p q = older p q ≡ true

older-Sortable : Sortable older
older-Sortable = record {
  total = λ p q h. ground (arith, h);
  trans = λ p q r h k. ground (arith, h, k);
}

-- What is taken from the front comes before what is left.
take-Before :
    (n : ℕ) (ps : Jobs) → Ascending older ps → All (λ p. All (Before p) (drop n ps)) (take n ps)
take-Before zero ps a = tt
take-Before (suc n) [] a = tt
take-Before (suc n) (p ∷ ps) a = (All-drop n ps a.0, take-Before n ps a.1)
  where
    All-drop : (m : ℕ) (qs : Jobs) → All (Before p) qs → All (Before p) (drop m qs)
    All-drop zero qs b = b
    All-drop (suc m) [] b = b
    All-drop (suc m) (q ∷ qs) b = All-drop m qs b.1

contains-take :
    (k : Key) (n : ℕ) (ps : Jobs)
    → contains k ps ≡ (contains k (take n ps) || contains k (drop n ps))
contains-take k zero ps = refl
contains-take k (suc n) [] = refl
contains-take k (suc n) (p ∷ ps) = ground (arith, contains-take k n ps)

contains-insert_by :
    (k : Key) (p : Key × Job) (qs : Jobs)
    → contains k (insert_by older p qs) ≡ (p.0 == k || contains k qs)
unfolding insert_by
contains-insert_by k p [] = refl
contains-insert_by k p (q ∷ qs) = ground (arith, contains-insert_by k p qs)

pub contains-by_enqueued_at : (k : Key) (ps : Jobs) → contains k (by_enqueued_at ps) ≡ contains k ps
unfolding sort_by
contains-by_enqueued_at k [] = refl
contains-by_enqueued_at k (p ∷ ps) =
    ground (arith, contains-insert_by k p (by_enqueued_at ps), contains-by_enqueued_at k ps)

pub contains-keep_if :
    (k : Key) (j : Job) (test : Key × Job → Bool) (ps : Jobs)
    → lookup k ps ≡ some j
    → test (k, j) ≡ true
    → contains k (keep_if test ps) ≡ true
unfolding lookup
contains-keep_if k j test [] h t = absurd (cc)
contains-keep_if k j test ((i, x) ∷ ps) h t = elim (Bool-cases (i == k)) [
  | inl here ↦
      let same : i ≡ k = (key_beq_iff i k).0 here in
      let own : x ≡ j = ground (arith, here, h) in
      let e : test (i, x) ≡ true = ap₂ (λ a b. test (a, b)) same own ∙ t in
      rw e (ground (arith, here))
  | inr there ↦ ground (arith, contains-keep_if k j test ps (rw there at h) t)
]

-- What holds of all rows holds of the row with a key.
at_key :
    (P : Key × Job → Type 0) (k : Key) (ps : Jobs)
    → All P ps
    → contains k ps ≡ true
    → (j : Job) × P (k, j)
at_key P k [] a h = absurd (cc)
at_key P k ((i, x) ∷ ps) a h = elim (Bool-cases (i == k)) [
  | inl here ↦ (x, subst (λ z. P (z, x)) ((key_beq_iff i k).0 here) a.0)
  | inr there ↦ at_key P k ps a.1 (rw there at h)
]

module _ (P Q : Key × Job → Type 0) where
  All-both : (ps : Jobs) → All P ps → All Q ps → All (λ p. P p × Q p) ps
  All-both [] a b = tt
  All-both (p ∷ ps) a b = ((a.0, b.0), All-both ps a.1 b.1)

module _ (P : Key × Job → Type 0) where
  All-keep_if : (test : Key × Job → Bool) (ps : Jobs) → All P ps → All P (keep_if test ps)
  All-keep_if test [] a = tt
  All-keep_if test (p ∷ ps) a = elim (Bool-cases (test p)) [
    | inl e ↦ rw e (a.0, All-keep_if test ps a.1)
    | inr e ↦ rw e (All-keep_if test ps a.1)
  ]

  All-drop : (n : ℕ) (ps : Jobs) → All P ps → All P (drop n ps)
  All-drop zero ps a = a
  All-drop (suc n) [] a = tt
  All-drop (suc n) (p ∷ ps) a = All-drop n ps a.1

module _ (now : ℕ) (lease : ℤ) (locked : Key → Bool) (n : ℕ) (s : Jobs)
    (unique : UniqueKeys s) where
  abbrev candidates : Jobs
  candidates = keep_if (λ p. is_claimable now lease p.1.shown && not (locked p.0)) s

  candidates-Stored : All (Stored s) (by_enqueued_at candidates)
  candidates-Stored =
      All-sort_by older (Stored s) candidates (All-keep_if (Stored s) _ s (All-Stored s unique))

  claimable_oldest :
      (k j : Key) (a b : Job)
      → contains k (claimable now lease locked n s) ≡ true
      → lookup k s ≡ some a
      → lookup j s ≡ some b
      → is_claimable now lease b.shown ≡ true
      → locked j ≡ false
      → contains j (claimable now lease locked n s) ≡ false
      → a.enqueued_at ≤ b.enqueued_at
  unfolding claimable Stored
  claimable_oldest k j a b taken ea eb free unlocked left =
      let order = by_enqueued_at candidates in
      let test : (is_claimable now lease b.shown && not (locked j)) ≡ true =
        ground (arith, free, unlocked) in
      let present = contains-by_enqueued_at j candidates ∙ contains-keep_if j b _ s eb test in
      let behind : contains j (drop n order) ≡ true =
        ground (arith, present, left, contains-take j n order) in
      let fronts =
        All-both (Stored s) (λ p. All (Before p) (drop n order)) (take n order)
          (All-take (Stored s) n order candidates-Stored)
          (take-Before n order (sort_by-Ascending older older-Sortable candidates)) in
      let (a', (ea', before)) = at_key _ k (take n order) fronts taken in
      let rears =
        All-both (Stored s) (Before (k, a')) (drop n order)
          (All-drop (Stored s) n order candidates-Stored) before in
      let (b', (eb', h)) = at_key _ j (drop n order) rears behind in
      ground (arith, ea, ea', eb, eb', h)

-- Of two jobs that a claim on the jobs table may take, if it takes one and leaves the other, the one
-- that it takes was enqueued no later.
pub claim_unlocked_oldest :
    (locked : Key → Bool) (now n : ℕ) (lease : ℤ) (worker_id : String) (s s' : Jobs)
    (jobs : List ClaimedJob)
    → UniqueKeys s
    → claim_unlocked locked now worker_id (pos n) lease s ≡ ok (jobs, s')
    → (k j : Key) (a b : Job) → claims k jobs ≡ true
    → lookup k s ≡ some a
    → lookup j s ≡ some b
    → is_claimable now lease b.shown ≡ true
    → locked j ≡ false
    → claims j jobs ≡ false
    → a.enqueued_at ≤ b.enqueued_at
unfolding claim_unlocked
claim_unlocked_oldest locked now n lease worker_id s s' jobs unique e k j a b taken ea eb free
      unlocked left =
    let same : returning now (claimable now lease locked n s) ≡ jobs =
      ap (λ r. r.0) (ok-injective e) in
    let in_front : contains k (claimable now lease locked n s) ≡ true =
      sym (claims-returning now k (claimable now lease locked n s)) ∙ ap (claims k) same ∙ taken in
    let behind : contains j (claimable now lease locked n s) ≡ false =
      sym (claims-returning now j (claimable now lease locked n s)) ∙ ap (claims j) same ∙ left in
    claimable_oldest now lease locked n s unique k j a b in_front ea eb free unlocked behind
