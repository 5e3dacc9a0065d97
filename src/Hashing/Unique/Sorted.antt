-- ===== src/Hashing/Unique/Sorted.antt =====
-- hashing.py, sort_keys: the fields of a dict in the order of their keys, and the same dict the other way
-- round.
use sb_poc.Prelude.{
  insert_by, sort_by, String, ◌≡◌, ◌≢◌, refl, sym, ap, ◌∙◌, none, ◌∷◌, String_eq, if◌then◌else◌,
  arith, Bool-cases, inl, inr, eq_iff,
}
use sb_poc.Json.{Value, Items, Fields, end, field, find}
use sb_poc.Hashing.{key_le, by_key, dumps, dump_fields}
use sb_poc.Hashing.Canonical.{
  SameValue, same, same_array, same_object, SameItems, no_items, item, SameFields, no_fields,
  member, exchange, follow,
}

mutual
  pub SameValue-flip : {v w : Value} → SameValue v w → SameValue w v
  SameValue-flip (same v) = same v
  SameValue-flip (same_array h) = same_array (SameItems-flip h)
  SameValue-flip (same_object h) = same_object (SameFields-flip h)

  SameItems-flip : {xs ys : Items} → SameItems xs ys → SameItems ys xs
  SameItems-flip no_items = no_items
  SameItems-flip (item h hs) = item (SameValue-flip h) (SameItems-flip hs)

  pub SameFields-flip : {fs gs : Fields} → SameFields fs gs → SameFields gs fs
  SameFields-flip no_fields = no_fields
  SameFields-flip (member k h hs) = member k (SameValue-flip h) (SameFields-flip hs)
  SameFields-flip (exchange j k v w fs h) = exchange k j w v fs (λ e. h (sym e))
  SameFields-flip (follow h k) = follow (SameFields-flip k) (SameFields-flip h)

SameFields-refl : (fs : Fields) → SameFields fs fs
SameFields-refl end = no_fields
SameFields-refl (field k v fs) = member k (same v) (SameFields-refl fs)

insert_field : String → Value → Fields → Fields
insert_field k v end = field k v end
insert_field k v (field j w fs) =
    if key_le k j then field k v (field j w fs) else field j w (insert_field k v fs)

pub sort_fields : Fields → Fields
unfolding insert_field
sort_fields end = end
sort_fields (field k v fs) = insert_field k v (sort_fields fs)

dump_fields-insert_field :
    (k : String) (v : Value) (fs : Fields)
    → dump_fields (insert_field k v fs) ≡ insert_by by_key (k, dumps v) (dump_fields fs)
unfolding insert_field insert_by dumps
dump_fields-insert_field k v end = refl
dump_fields-insert_field k v (field j w fs) = elim (Bool-cases (key_le k j)) [
  | inl first ↦ rw first refl
  | inr later ↦ rw later (ap (◌∷◌ (j, dumps w)) (dump_fields-insert_field k v fs))
]

pub dump_fields-sort_fields :
    (fs : Fields) → dump_fields (sort_fields fs) ≡ sort_by by_key (dump_fields fs)
unfolding sort_fields sort_by dumps
dump_fields-sort_fields end = refl
dump_fields-sort_fields (field k v fs) =
    dump_fields-insert_field k v (sort_fields fs)
    ∙ ap (insert_by by_key (k, dumps v)) (dump_fields-sort_fields fs)

SameFields-insert_field :
    (k : String) (v : Value) (fs : Fields)
    → find k fs ≡ none
    → SameFields (field k v fs) (insert_field k v fs)
unfolding insert_field
SameFields-insert_field k v end h = SameFields-refl (field k v end)
SameFields-insert_field k v (field j w fs) h = elim (Bool-cases (key_le k j)) [
  | inl first ↦ rw first (SameFields-refl (field k v (field j w fs)))
  | inr later ↦ rw later (
      follow (exchange k j v w fs (λ e. ground (arith, eq_iff j k)))
        (member j (same w) (SameFields-insert_field k v fs (ground (arith, eq_iff j k)))))
]

find-insert_field :
    (k j : String) (v : Value) (fs : Fields)
    → j ≢ k
    → find k fs ≡ none
    → find k (insert_field j v fs) ≡ none
unfolding insert_field
find-insert_field k j v end d h = ground (arith, eq_iff j k)
find-insert_field k j v (field i w fs) d h =
    ground (arith, eq_iff j k, eq_iff i k, find-insert_field k j v fs d)

find-sort_fields : (k : String) (fs : Fields) → find k fs ≡ none → find k (sort_fields fs) ≡ none
unfolding sort_fields
find-sort_fields k end h = refl
find-sort_fields k (field j v fs) h =
    find-insert_field k j v (sort_fields fs) (λ e. ground (arith, eq_iff j k))
      (find-sort_fields k fs (ground (arith, eq_iff j k)))

-- What holds of the values of a dict.
abbrev pub AllFields : (Value → Type 0) → Fields → Type 0
AllFields P end = Unit
AllFields P (field k v fs) = P v × AllFields P fs

module _ (P : Value → Type 0) where
  AllFields-insert_field :
      (k : String) (v : Value) (fs : Fields)
      → P v
      → AllFields P fs
      → AllFields P (insert_field k v fs)
  unfolding insert_field
  AllFields-insert_field k v end h a = (h, tt)
  AllFields-insert_field k v (field j w fs) h a = elim (Bool-cases (key_le k j)) [
    | inl first ↦ rw first (h, a)
    | inr later ↦ rw later (a.0, AllFields-insert_field k v fs h a.1)
  ]

  pub AllFields-sort_fields : (fs : Fields) → AllFields P fs → AllFields P (sort_fields fs)
  unfolding sort_fields
  AllFields-sort_fields end a = tt
  AllFields-sort_fields (field k v fs) a =
      AllFields-insert_field k v (sort_fields fs) a.0 (AllFields-sort_fields fs a.1)

abbrev pub DifferentKeys : Fields → Type 0
DifferentKeys end = Unit
DifferentKeys (field k v fs) = (find k fs ≡ none) × DifferentKeys fs

-- A dict with its keys in order is the same dict.
pub SameFields-sort_fields : (fs : Fields) → DifferentKeys fs → SameFields fs (sort_fields fs)
unfolding sort_fields
SameFields-sort_fields end d = no_fields
SameFields-sort_fields (field k v fs) d =
    follow (member k (same v) (SameFields-sort_fields fs d.1))
      (SameFields-insert_field k v (sort_fields fs) (find-sort_fields k fs d.0))
