-- ===== src/Migrate/Files.antt =====
-- migrate.py: lists of migration files and of their names.
use sb_poc.Prelude.{
  insert_by, sort_by, String, String_eq, true, false, not, ◌||◌, List, [], ◌∷◌, ◌++◌, map, ◌≡◌,
  refl, ap, ◌∙◌, arith, keep_if, Bool-cases, inl, inr, eq_iff,
}
use sb_poc.Hashing.{key_le}
use sb_poc.Migrate.{SqlFile, in_names, by_name, sort_files}

abbrev pub names : List SqlFile → List String
names fs = map (λ f. f.name) fs

-- The files whose names are not among the given ones.
abbrev pub unrecorded : List String → List SqlFile → List SqlFile
unrecorded already fs = keep_if (λ f. not (in_names f.name already)) fs

-- No two of the names are the same.
abbrev pub Distinct : List String → Type 0
Distinct [] = Unit
Distinct (x ∷ xs) = (in_names x xs ≡ false) × Distinct xs

pub in_names-append :
    (x : String) (xs ys : List String) → in_names x (xs ++ ys) ≡ (in_names x xs || in_names x ys)
in_names-append x [] ys = refl
in_names-append x (y ∷ xs) ys = ground (arith, in_names-append x xs ys)

in_names-insert_by :
    (x : String) (f : SqlFile) (fs : List SqlFile)
    → in_names x (names (insert_by by_name f fs)) ≡ in_names x (names (f ∷ fs))
unfolding insert_by
in_names-insert_by x f [] = refl
in_names-insert_by x f (g ∷ gs) = ground (arith, in_names-insert_by x f gs)

pub in_names-sort :
    (x : String) (fs : List SqlFile) → in_names x (names (sort_files fs)) ≡ in_names x (names fs)
unfolding sort_by
in_names-sort x [] = refl
in_names-sort x (f ∷ fs) =
    ground (arith, in_names-insert_by x f (sort_files fs), in_names-sort x fs)

insert_by-Distinct :
    (f : SqlFile) (fs : List SqlFile)
    → Distinct (names (f ∷ fs))
    → Distinct (names (insert_by by_name f fs))
unfolding insert_by
insert_by-Distinct f [] d = d
insert_by-Distinct f (g ∷ gs) (new, d) = elim (Bool-cases (key_le f.name g.name)) [
  | inl e ↦ rw e (new, d)
  | inr e ↦ rw e (
    ground (
      arith,
      in_names-insert_by g.name f gs,
      eq_iff f.name g.name,
      eq_iff g.name f.name,
      new,
      d.0,
    ),
    insert_by-Distinct f gs (ground (arith, new), d.1),
  )
]

pub sort-Distinct : (fs : List SqlFile) → Distinct (names fs) → Distinct (names (sort_files fs))
unfolding sort_by
sort-Distinct [] d = tt
sort-Distinct (f ∷ fs) (new, d) =
    insert_by-Distinct f (sort_files fs) (in_names-sort f.name fs ∙ new, sort-Distinct fs d)

in_names-unrecorded :
    (x : String) (already : List String) (fs : List SqlFile)
    → in_names x (names fs) ≡ false
    → in_names x (names (unrecorded already fs)) ≡ false
in_names-unrecorded x already [] h = refl
in_names-unrecorded x already (f ∷ fs) h = ground (arith, h, in_names-unrecorded x already fs)

pub unrecorded-Distinct :
    (already : List String) (fs : List SqlFile)
    → Distinct (names fs)
    → Distinct (names (unrecorded already fs))
unrecorded-Distinct already [] d = tt
unrecorded-Distinct already (f ∷ fs) (new, d) = elim (Bool-cases (in_names f.name already)) [
  | inl e ↦ rw e (unrecorded-Distinct already fs d)
  | inr e ↦ rw e (in_names-unrecorded f.name already fs new, unrecorded-Distinct already fs d)
]

pub unrecorded-append :
    (xs ys : List String) (fs : List SqlFile)
    → unrecorded (xs ++ ys) fs ≡ unrecorded ys (unrecorded xs fs)
unrecorded-append xs ys [] = refl
unrecorded-append xs ys (f ∷ fs) =
    ground (arith, in_names-append f.name xs ys, unrecorded-append xs ys fs)

-- None of the files that are all recorded is left.
pub pending_none :
    (xs : List String) (fs : List SqlFile)
    → ((x : String) → in_names x (names fs) ≡ true → in_names x xs ≡ true)
    → unrecorded xs fs ≡ []
pending_none xs [] h = refl
pending_none xs (f ∷ fs) h =
    let own : in_names f.name xs ≡ true = h f.name (ground (arith, eq_iff f.name f.name)) in
    ground (arith, own, pending_none xs fs (λ x e. h x (ground (arith, e))))

pub recorded_after :
    (x : String) (already : List String) (fs : List SqlFile)
    → in_names x (names fs) ≡ true
    → in_names x (already ++ names (unrecorded already fs)) ≡ true
recorded_after x already fs h =
    rw (in_names-append x already (names (unrecorded already fs))) (member fs h)
  where
    member :
        (gs : List SqlFile)
        → in_names x (names gs) ≡ true
        → (in_names x already || in_names x (names (unrecorded already gs))) ≡ true
    member [] e = absurd (cc)
    member (g ∷ gs) e = ground (arith, eq_iff g.name x, e, member gs)

pending_absent :
    (x : String) (fs : List SqlFile) → in_names x (names fs) ≡ false → unrecorded (x ∷ []) fs ≡ fs
pending_absent x [] h = refl
pending_absent x (f ∷ fs) h =
    ground (arith, h, eq_iff f.name x, eq_iff x f.name, pending_absent x fs (ground (arith, h)))

pending_all : (fs : List SqlFile) → unrecorded [] fs ≡ fs
pending_all [] = refl
pending_all (f ∷ fs) = ap (◌∷◌ f) (pending_all fs)

-- The files of a list, but for a first part that is recorded.
pub pending_rest :
    (done rest : List SqlFile)
    → Distinct (names (done ++ rest))
    → unrecorded (names done) (done ++ rest) ≡ rest
pending_rest [] rest d = pending_all rest
pending_rest (g ∷ done) rest (new, d) =
    let others : unrecorded (names (g ∷ done)) (done ++ rest) ≡ rest =
      unrecorded-append (g.name ∷ []) (names done) (done ++ rest)
      ∙ ap (unrecorded (names done)) (pending_absent g.name (done ++ rest) new)
      ∙ pending_rest done rest d in
    ground (arith, others, eq_iff g.name g.name)
