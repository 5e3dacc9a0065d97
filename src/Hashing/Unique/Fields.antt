-- ===== src/Hashing/Unique/Fields.antt =====
-- hashing.py, content_hash: the members of two objects with the same text are the same, if the text of
-- each value determines it.
use sb_poc.Prelude.{ℕ, String, ◌≡◌, refl, sym, subst, ◌∙◌, true, List, ◌∷◌}
use sb_poc.Json.{Value, obj, Fields, end, field}
use sb_poc.Text.{codes}
use sb_poc.Hashing.Order.{codes-injective}
use sb_poc.Hashing.Canonical.{SameValue, SameFields, no_fields, member, follow}
use sb_poc.Hashing.Unique.Codes.{same_rest, apart, body, body-injective}
use sb_poc.Hashing.Unique.Numbers.{at_end}
use sb_poc.Hashing.Unique.Sorted.{
  SameFields-flip, sort_fields, AllFields, AllFields-sort_fields, DifferentKeys,
  SameFields-sort_fields,
}
use sb_poc.Hashing.Unique.Texts.{IsJson, FieldsJson, printed, fields_more, fields_all, printed_obj}

-- The text of a value determines it, up to the order of keys, and what stands behind it.
abbrev pub Readable : Value → Type 0
Readable v =
    (w : Value) (r q : List ℕ)
    → IsJson w
    → at_end r ≡ true
    → at_end q ≡ true
    → printed v r ≡ printed w q
    → SameValue v w × (r ≡ q)

at_end-fields_more : (fs : Fields) (r : List ℕ) → at_end (fields_more fs r) ≡ true
unfolding fields_more at_end
at_end-fields_more end r = refl
at_end-fields_more (field k v fs) r = refl

-- A member of an object with the members behind it.
abbrev entry : String → Value → Fields → List ℕ → List ℕ
entry k v fs r = body (codes k) (b':' ∷ printed v (fields_more fs r))

entry_unique :
    (k j : String) (v w : Value) (fs gs : Fields) (r q : List ℕ)
    → Readable v
    → IsJson w
    → entry k v fs r ≡ entry j w gs q
    → (k ≡ j) × SameValue v w × (fields_more fs r ≡ fields_more gs q)
entry_unique k j v w fs gs r q u ok h =
    let keys =
      body-injective (codes k) (codes j) (b':' ∷ printed v (fields_more fs r))
        (b':' ∷ printed w (fields_more gs q)) h in
    let (s, e) =
      u w (fields_more fs r) (fields_more gs q) ok (at_end-fields_more fs r)
        (at_end-fields_more gs q) (cc (keys.1)) in
    (codes-injective k j keys.0, s, e)

same_member :
    {k j : String} {v w : Value} {fs gs : Fields}
    → k ≡ j
    → SameValue v w
    → SameFields fs gs
    → SameFields (field k v fs) (field j w gs)
same_member {k} {j} {v} {w} {fs} {gs} e s t =
    subst (λ i. SameFields (field k v fs) (field i w gs)) e (member k s t)

more_unique :
    (fs gs : Fields) (r q : List ℕ)
    → AllFields Readable fs
    → AllFields IsJson gs
    → fields_more fs r ≡ fields_more gs q
    → SameFields fs gs × (r ≡ q)
unfolding fields_more
more_unique end end r q u ok h = (no_fields, same_rest _ _ r q h)
more_unique end (field j w gs) r q u ok h = apart b'}' b',' _ _ refl h
more_unique (field k v fs) end r q u ok h = apart b',' b'}' _ _ refl h
more_unique (field k v fs) (field j w gs) r q u ok h =
    let first =
      entry_unique k j v w fs gs r q u.0 ok.0
        (same_rest 0x22 0x22 _ _ (same_rest b',' b',' _ _ h)) in
    let rest = more_unique fs gs r q u.1 ok.1 first.2 in
    (same_member first.0 first.1 rest.0, rest.1)

fields_unique :
    (fs gs : Fields) (r q : List ℕ)
    → AllFields Readable fs
    → AllFields IsJson gs
    → fields_all fs r ≡ fields_all gs q
    → SameFields fs gs × (r ≡ q)
unfolding fields_all
fields_unique end end r q u ok h = (no_fields, same_rest _ _ r q h)
fields_unique end (field j w gs) r q u ok h = apart b'}' 0x22 _ _ refl h
fields_unique (field k v fs) end r q u ok h = apart 0x22 b'}' _ _ refl h
fields_unique (field k v fs) (field j w gs) r q u ok h =
    let first = entry_unique k j v w fs gs r q u.0 ok.0 (same_rest 0x22 0x22 _ _ h) in
    let rest = more_unique fs gs r q u.1 ok.1 first.2 in
    (same_member first.0 first.1 rest.0, rest.1)

-- The keys of a dict are different, and its values are values of JSON.
DifferentKeys-json : (fs : Fields) → FieldsJson fs → DifferentKeys fs
unfolding FieldsJson
DifferentKeys-json end h = tt
DifferentKeys-json (field k v fs) h = (h.0, DifferentKeys-json fs h.2)

AllFields-IsJson : (fs : Fields) → FieldsJson fs → AllFields IsJson fs
unfolding FieldsJson
AllFields-IsJson end h = tt
AllFields-IsJson (field k v fs) h = (h.1, AllFields-IsJson fs h.2)

pub object_unique :
    (fs gs : Fields) (r q : List ℕ)
    → AllFields Readable fs
    → FieldsJson fs
    → FieldsJson gs
    → printed (obj fs) r ≡ printed (obj gs) q
    → SameFields fs gs × (r ≡ q)
object_unique fs gs r q u a b h =
    let texts : (b'{' ∷ fields_all (sort_fields fs) r) ≡ (b'{' ∷ fields_all (sort_fields gs) q) =
      sym (printed_obj fs r) ∙ h ∙ printed_obj gs q in
    let sorted =
      fields_unique (sort_fields fs) (sort_fields gs) r q (AllFields-sort_fields Readable fs u)
        (AllFields-sort_fields IsJson gs (AllFields-IsJson gs b)) (same_rest b'{' b'{' _ _ texts) in
    (
      follow (SameFields-sort_fields fs (DifferentKeys-json fs a))
          (follow sorted.0 (SameFields-flip (SameFields-sort_fields gs (DifferentKeys-json gs b)))),
      sorted.1,
    )
