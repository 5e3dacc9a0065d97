-- ===== src/Tests/Written.antt =====
-- Sample documents: the script that writes them.
use sb_poc.Prelude.{pos, String, String_eq, [], ◌∷◌, ◌≡◌, refl, lookup, ok}
use sb_poc.Json.{Value, null, int, arr, obj, nil, cons, end, field}
use sb_poc.Text.{show}
use sb_poc.Hashing.{quote}
use sb_poc.Dataset.Samples.Docs.{docs}
use sb_poc.Dataset.Written.{line_start, pretty, file_text, Files, write_dataset}
use sb_poc.Dataset.Written.Shipped.{IsShipped, write_dataset-IsShipped}

abbrev quiet : Value → String
quiet v = ""

abbrev before : Files
before = ("notes.txt", "kept") ∷ ("acme__c-000001.json", "old") ∷ []

write_dataset-IsShipped_example :
    (after : Files) × (again : Files) × (write_dataset quiet docs before ≡ ok after)
    × IsShipped quiet before after
    × (write_dataset quiet docs after ≡ ok again)
    × ((name : String) → lookup name again ≡ lookup name after)
write_dataset-IsShipped_example = write_dataset-IsShipped quiet before

abbrev small : Value
small = obj (field "a" (arr (cons (int (pos 1)) (cons null nil))) (field "b" (obj end) end))

small_text : file_text small ≡ "{\n  \"a\": [\n    1,\n    null\n  ],\n  \"b\": {}\n}\n"
unfolding file_text pretty line_start quote show
small_text = refl
