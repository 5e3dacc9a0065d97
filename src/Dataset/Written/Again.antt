-- ===== src/Dataset/Written/Again.antt =====
-- data/make_dataset.py: the directory after a run, and after another one.
use sb_poc.Prelude.{
  String, String_eq, true, Option, none, some, List, [], ◌∷◌, ◌==◌, ◌≡◌, refl, sym, ap, ◌∙◌, arith,
  All, if◌then◌else◌, lookup, put, lookup-put, Bool-cases, inl, inr, eq_iff, ok, traverse,
}
use sb_poc.Json.{Value}
use sb_poc.Dataset.Written.{
  Files, file_text, file_name, next_with, duplicated, duplicate_name, write_dataset,
}
use sb_poc.Dataset.Written.Lookups.{
  or_else, fresh, distinct, text_for, AreNamed, traverse-AreNamed, if_or_else, or_else_assoc,
  write_docs-lookup, text_for-fresh, IsLast, distinct-IsLast, next_with-All,
}

or_else_twice : (a b : Option String) → or_else a (or_else a b) ≡ or_else a b
or_else_twice none b = refl
or_else_twice (some a) b = refl

module _ (repr : Value → String) where
  -- What a run writes under a name.
  abbrev pub written : List Value → Value → String → Option String
  written docs dup name =
      or_else (if duplicate_name == name then some (file_text dup) else none)
        (text_for repr name docs)

  write_dataset-lookup :
      (docs : List Value) (names : List String) (dup : Value) (files : Files)
      → traverse (file_name repr) docs ≡ ok names
      → next_with duplicated docs ≡ ok dup
      → (after : Files) × (write_dataset repr docs files ≡ ok after)
        × ((name : String)
            → lookup name after ≡ or_else (written docs dup name) (lookup name files))
  unfolding write_dataset
  write_dataset-lookup docs names dup files named found =
      let (kept, e, holds) =
        write_docs-lookup repr docs names files (traverse-AreNamed repr docs names named) in
      (
        put duplicate_name (file_text dup) kept,
        rw (e, found) refl,
        λ name.
            lookup-put duplicate_name name (file_text dup) kept
            ∙ if_or_else repr (duplicate_name == name) (file_text dup) (lookup name kept)
            ∙ ap (or_else (if duplicate_name == name then some (file_text dup) else none))
                (holds name)
            ∙ sym (or_else_assoc repr _ (text_for repr name docs) (lookup name files)),
      )

  -- The file of a document holds its text.
  abbrev pub IsKept : Files → Value → Type 0
  IsKept after d = (n : String) × (file_name repr d ≡ ok n) × (lookup n after ≡ some (file_text d))

  -- The directory after a run over these documents: `before` is what it held.
  pub record AreWritten (docs : List Value) (dup : Value) (before after : Files) : Type 0 where
    pub kept : All (IsKept after) docs
    pub copied : lookup duplicate_name after ≡ some (file_text dup)
    pub original : IsKept after dup
    pub others :
        (name : String) → lookup name after ≡ or_else (written docs dup name) (lookup name before)

  module _ (docs : List Value) (names : List String) (dup : Value) (before after : Files)
      (apart : fresh duplicate_name names ≡ true) (a : AreNamed repr docs names)
      (holds : (name : String)
        → lookup name after ≡ or_else (written docs dup name) (lookup name before)) where
    last-IsKept : (d : Value) → IsLast repr docs d → IsKept after d
    last-IsKept d (n, e, h) = elim (Bool-cases (duplicate_name == n)) [
      | inl same ↦ absurd (
          ground (
            arith,
            same,
            h,
            eq_iff duplicate_name n,
            text_for-fresh repr docs names duplicate_name a apart,
          ))
      | inr other ↦ (n, e, holds n ∙ rw (other, h) refl)
    ]

    All-IsKept : (ds : List Value) → All (IsLast repr docs) ds → All (IsKept after) ds
    All-IsKept [] h = tt
    All-IsKept (d ∷ ds) (h, hs) = (last-IsKept d h, All-IsKept ds hs)

  -- If every document has a tenant and an id, the names of their files are distinct and none is that
  -- of the duplicate, and one document is the one to be duplicated, the script ends, whatever the
  -- directory held. The file of each document then holds its text, the duplicate holds the same text as
  -- the file of the document that it duplicates, and every other file is as it was. The script run
  -- again ends too, and every file has the same text as after the first run.
  pub write_dataset_again :
      (docs : List Value) (names : List String) (dup : Value) (before : Files)
      → traverse (file_name repr) docs ≡ ok names
      → distinct (duplicate_name ∷ names) ≡ true
      → next_with duplicated docs ≡ ok dup
      → (after : Files) × (again : Files) × (write_dataset repr docs before ≡ ok after)
        × AreWritten docs dup before after
        × (write_dataset repr docs after ≡ ok again)
        × ((name : String) → lookup name again ≡ lookup name after)
  write_dataset_again docs names dup before named apart found =
      let (after, e, holds) = write_dataset-lookup docs names dup before named found in
      let (again, e1, holds1) = write_dataset-lookup docs names dup after named found in
      let a = traverse-AreNamed repr docs names named in
      let other : fresh duplicate_name names ≡ true = ground (arith, apart) in
      let rest : distinct names ≡ true = ground (arith, apart) in
      let kept =
        All-IsKept docs names dup before after other a holds docs
          (distinct-IsLast repr docs names a rest) in
      (
        after,
        again,
        e,
        record {
          kept = kept;
          copied = holds duplicate_name ∙ ground (arith, eq_iff duplicate_name duplicate_name);
          original = next_with-All repr (IsKept after) duplicated docs dup found kept;
          others = holds;
        },
        e1,
        λ name.
            holds1 name
            ∙ ap (or_else (written docs dup name)) (holds name)
            ∙ or_else_twice (written docs dup name) (lookup name before)
            ∙ sym (holds name),
      )
