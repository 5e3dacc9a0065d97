-- ===== src/Tests/Datasets.antt =====
-- Sample conversations of the generator.
use sb_poc.Prelude.{String_eq, pos, true, some, List, ◌∷◌, ◌≡◌, refl}
use sb_poc.Json.{str, end, field}
use sb_poc.Schema.{parse_conversation, parsed, recognised_roles}
use sb_poc.Dataset.{ts, TurnSpec, long_turns, convo}
use sb_poc.Dataset.Parsed.{is_readable, result_of, parse_conversation-convo}
use sb_poc.Tests.Samples.{ascii}

next_minute : ts 80 ≡ "2026-03-02T09:15:20Z"
unfolding ts
next_minute = refl

next_month : ts 2592000 ≡ "2026-04-01T09:14:00Z"
unfolding ts
next_month = refl

abbrev specs : List TurnSpec
unfolding long_turns
specs = record { role = "bot"; text = "Hi!"; seq_override = some (pos 7) } ∷ long_turns 30 0

readable : is_readable specs ≡ true
unfolding recognised_roles long_turns
readable = refl

parse_conversation-convo_example :
    parse_conversation ascii
      (convo "c-000028" "globex" "chat" specs 40 (field "note" (str "x") end))
    ≡ parsed (result_of ascii 40 "c-000028" "globex" "chat" specs)
parse_conversation-convo_example =
    parse_conversation-convo ascii 40 "c-000028" "globex" "chat" specs (field "note" (str "x") end)
      refl refl readable refl refl refl refl refl
