-- ===== src/Dataset/Written/Lookups.antt =====
-- data/make_dataset.py, the loop that writes: what the directory holds afterwards.
use sb_poc.Prelude.{
  String, String_eq, Bool, true, false, ◌&&◌, not, Option, none, some, List, [], ◌∷◌, ◌==◌, ◌≡◌,
  refl, sym, ap, subst, ◌∙◌, arith, All, if◌then◌else◌, lookup, put, lookup-put, Bool-cases, inl,
  inr, eq_iff, Result, ok, raise, traverse, >>=-eq-ok, ok-injective,
}
use sb_poc.Json.{Value}
use sb_poc.Dataset.Written.{Files, file_text, file_name, write_docs, next_with, subscript, is_text}

abbrev pub or_else : Option String → Option String → Option String
or_else none t = t
or_else (some s) t = some s

abbrev pub fresh : String → List String → Bool
fresh n [] = true
fresh n (m ∷ ms) = not (m == n) && fresh n ms

abbrev pub distinct : List String → Bool
distinct [] = true
distinct (n ∷ ns) = fresh n ns && distinct ns

module _ (repr : Value → String) where
  -- The names are those of the documents, in their order.
  abbrev pub AreNamed : List Value → List String → Type 0
  AreNamed [] [] = Unit
  AreNamed (d ∷ docs) (n ∷ names) = (file_name repr d ≡ ok n) × AreNamed docs names
  AreNamed _ _ = ⊥

  pub traverse-AreNamed :
      (docs : List Value) (names : List String)
      → traverse (file_name repr) docs ≡ ok names
      → AreNamed docs names
  unfolding traverse
  traverse-AreNamed [] [] h = tt
  traverse-AreNamed [] (n ∷ names) h = absurd (cc)
  traverse-AreNamed (d ∷ docs) names h =
      let (n, e, h1) = >>=-eq-ok (file_name repr d) _ h in
      let (ns, e1, h2) = >>=-eq-ok (traverse (file_name repr) docs) _ h1 in
      subst (AreNamed (d ∷ docs)) (ok-injective h2) (e, traverse-AreNamed docs ns e1)

  abbrev is_named : Result String → String → Bool
  is_named (raise x) name = false
  is_named (ok n) name = n == name

  -- The text of the last document whose file has this name.
  abbrev pub text_for : String → List Value → Option String
  text_for name [] = none
  text_for name (d ∷ docs) =
      or_else (text_for name docs)
        (if is_named (file_name repr d) name then some (file_text d) else none)

  pub or_else_assoc : (a b c : Option String) → or_else (or_else a b) c ≡ or_else a (or_else b c)
  or_else_assoc none b c = refl
  or_else_assoc (some a) b c = refl

  pub if_or_else :
      (b : Bool) (s : String) (t : Option String)
      → (if b then some s else t) ≡ or_else (if b then some s else none) t
  if_or_else true s t = refl
  if_or_else false s t = refl

  pub write_docs-lookup :
      (docs : List Value) (names : List String) (files : Files)
      → AreNamed docs names
      → (after : Files) × (write_docs repr docs files ≡ ok after)
        × ((name : String) → lookup name after ≡ or_else (text_for name docs) (lookup name files))
  unfolding write_docs
  write_docs-lookup [] [] files a = (files, refl, λ name. refl)
  write_docs-lookup [] (n ∷ names) files a = absurd a
  write_docs-lookup (d ∷ docs) [] files a = absurd a
  write_docs-lookup (d ∷ docs) (n ∷ names) files a =
      let (after, e, holds) = write_docs-lookup docs names (put n (file_text d) files) a.1 in
      (
        after,
        rw (a.0) e,
        λ name.
            holds name
            ∙ ap (or_else (text_for name docs)) (first name)
            ∙ sym (or_else_assoc (text_for name docs) _ (lookup name files)),
      )
    where
      first :
          (name : String)
          → lookup name (put n (file_text d) files)
            ≡ or_else
                (if is_named (file_name repr d) name then some (file_text d) else none)
                (lookup name files)
      first name =
          lookup-put n name (file_text d) files
          ∙ rw (a.0) (if_or_else (n == name) (file_text d) (lookup name files))

  pub text_for-fresh :
      (docs : List Value) (names : List String) (n : String)
      → AreNamed docs names
      → fresh n names ≡ true
      → text_for n docs ≡ none
  text_for-fresh [] names n a h = refl
  text_for-fresh (d ∷ docs) [] n a h = absurd a
  text_for-fresh (d ∷ docs) (m ∷ names) n a h =
      ground (arith, h, a.0, text_for-fresh docs names n a.1)

  -- The file of a document is not that of a later one.
  abbrev pub IsLast : List Value → Value → Type 0
  IsLast docs d = (n : String) × (file_name repr d ≡ ok n) × (text_for n docs ≡ some (file_text d))

  IsLast-more :
      (d : Value) (docs ds : List Value) → All (IsLast docs) ds → All (IsLast (d ∷ docs)) ds
  IsLast-more d docs [] a = tt
  IsLast-more d docs (x ∷ ds) ((n, e, h), a) = ((n, e, rw h refl), IsLast-more d docs ds a)

  pub distinct-IsLast :
      (docs : List Value) (names : List String)
      → AreNamed docs names
      → distinct names ≡ true
      → All (IsLast docs) docs
  distinct-IsLast [] names a h = tt
  distinct-IsLast (d ∷ docs) [] a h = absurd a
  distinct-IsLast (d ∷ docs) (n ∷ names) a h =
      let here : fresh n names ≡ true = ground (arith, h) in
      let rest : distinct names ≡ true = ground (arith, h) in
      (
        (n, a.0, ground (arith, a.0, text_for-fresh docs names n a.1 here, eq_iff n n)),
        IsLast-more d docs docs (distinct-IsLast docs names a.1 rest),
      )

  pub next_with-All :
      (P : Value → Type 0) (cid : String) (docs : List Value) (dup : Value)
      → next_with cid docs ≡ ok dup
      → All P docs
      → P dup
  unfolding next_with
  next_with-All P cid [] dup h a = absurd (cc)
  next_with-All P cid (d ∷ docs) dup h a =
      let (v, e, h1) = >>=-eq-ok (subscript d "conversation_id") _ h in
      elim (Bool-cases (is_text v cid)) [
        | inl t ↦ subst P (ok-injective (rw t at h1)) a.0
        | inr t ↦ next_with-All P cid docs dup (rw t at h1) a.1
      ]
