-- ===== src/Tests/Documents.antt =====
-- Sample documents: their turns, their metrics' inputs and their hash.
use sb_poc.Prelude.{
  arith, true, false, negsuc, ◌↔◌, ◌+◌, ◌≡◌, ◌≢◌, refl, String, [], ◌∷◌, none, some, length, eq_iff,
}
use sb_poc.Json.{Value, int, float, str, arr, obj, nil, cons, Items, items, find, get, end, field}
use sb_poc.Schema.{
  non_object_turn, coerce_seq, parse_turn, parse_turns, parse_conversation, parsed,
  ParsedConversation,
}
use sb_poc.Schema.Turns.{Partition}
use sb_poc.Schema.Documents.{
  is_parsed, is_scoreable, is_parsed-is_scoreable, parse_conversation-Partition,
}
use sb_poc.Hashing.{content_hash}
use sb_poc.Hashing.Canonical.{SameValue, same_object, exchange}
use sb_poc.Hashing.Unique.Numbers.{is_float}
use sb_poc.Hashing.Unique.Texts.{IsJson}
use sb_poc.Hashing.Unique.Documents.{content_hash-SameValue}
use sb_poc.Text.{codes}
use sb_poc.Tests.Samples.{ascii, identity, fields, document}

abbrev pub sample : ParsedConversation
sample = record {
  tenant_id = "acme";
  conversation_id = "c1";
  channel = none;
  started_at = none;
  turns =
      record { index = 0; role = "customer"; text = "bad"; seq = none; ts = some "t" }
      ∷ record { index = 1; role = "agent"; text = "hello"; seq = none; ts = some "t" }
      ∷ record { index = 3; role = "customer"; text = "fine"; seq = none; ts = some "t" }
      ∷ [];
  dropped_turns = record { index = 2; reason = non_object_turn } ∷ [];
}

pub parses : parse_conversation ascii document ≡ parsed sample
unfolding parse_conversation parse_turn parse_turns coerce_seq
parses = refl

is_parsed-is_scoreable_example :
    is_parsed (parse_conversation ascii document) ≡ is_scoreable document
is_parsed-is_scoreable_example = is_parsed-is_scoreable ascii document

parse_conversation-Partition_example :
    (xs : Items) × (find "turns" fields ≡ some (arr xs))
    × (get "tenant_id" fields ≡ str "acme")
    × (get "conversation_id" fields ≡ str "c1")
    × Partition 0 (length (items xs) + 0) (0 ∷ 1 ∷ 3 ∷ []) (2 ∷ [])
parse_conversation-Partition_example = parse_conversation-Partition ascii fields sample parses

keys_apart : ◌≢◌ {A = String} "a" "b"
keys_apart = λ e. absurd (ground (arith, (eq_iff "a" "b").1 e))

-- Two documents with a float, a list and a text that has to be escaped, whose keys are in different orders.
abbrev first : Value
first = obj (
    field "a" (float "-0.5") (field "b" (arr (cons (int (negsuc 11)) (cons (str "\"\n") nil))) end))

abbrev second : Value
second = obj (
    field "b" (arr (cons (int (negsuc 11)) (cons (str "\"\n") nil))) (field "a" (float "-0.5") end))

-- an integer, and a number that ends before its text
not_floats : (is_float (codes "-12") ≡ false) × (is_float (codes "1]") ≡ false)
unfolding is_float
not_floats = (refl, refl)

floats : (is_float (codes "1e-07") ≡ true) × (is_float (codes "-Infinity") ≡ true)
unfolding is_float
floats = (refl, refl)

first-IsJson : IsJson first
unfolding IsJson is_float
first-IsJson = ground arith

second-IsJson : IsJson second
unfolding IsJson is_float
second-IsJson = ground arith

same_documents : SameValue first second
same_documents = same_object (exchange "a" "b" _ _ end keys_apart)

content_hash-SameValue_example :
    (content_hash identity first ≡ content_hash identity second) ↔ SameValue first second
content_hash-SameValue_example =
    content_hash-SameValue identity first second first-IsJson second-IsJson (λ e. e)
