-- ===== src/Dataset.antt =====
-- data/make_dataset.py: how the sample conversations are made.
pub mod Parsed
pub mod Written
pub mod Samples
use Prim.Native.Nat.{◌%◌}
use Prim.Native.String.{◌++◌ as ◌⧺◌}
use sb_poc.Prelude.{
  ℕ, ℕ_eq, zero, suc, ◌+◌, ◌*◌, ◌/◌, String, String_eq, ℤ, pos, Bool, true, false, ◌&&◌, ◌||◌, not,
  Option, none, some, List, [], ◌∷◌, ◌==◌, ltb, if◌then◌else◌, get_elem?,
}
use sb_poc.Json.{Value, int, str, arr, obj, Items, nil, cons, Fields, end, field}
use sb_poc.Text.{show}

pub record Date : Type 0 where
  pub year : ℕ
  pub month : ℕ
  pub day : ℕ

-- February of a year has a day more if this says so.
abbrev leaps : ℕ → Bool
leaps year = if year % 100 == 0 then year % 400 == 0 else year % 4 == 0

abbrev short_months : List ℕ
short_months = 4 ∷ 6 ∷ 9 ∷ 11 ∷ []

abbrev is_in : ℕ → List ℕ → Bool
is_in m [] = false
is_in m (n ∷ ns) = m == n || is_in m ns

abbrev last_day : Date → ℕ
last_day d =
    if is_in d.month short_months
    then 30
    else if not (d.month == 2)
    then 31
    else if leaps d.year
    then 29
    else 28

abbrev first_of_next : Date → Date
first_of_next d =
    if d.month == 12
    then record { day = 1; month = 1; year = suc d.year }
    else record { day = 1; month = suc d.month; year = d.year }

abbrev next_day : Date → Date
next_day d = if d.day == last_day d then first_of_next d else record d { day = suc d.day }

abbrev days_after : ℕ → Date → Date
days_after zero d = d
days_after (suc n) d = days_after n (next_day d)

abbrev base_day : Date
base_day = record { year = 2026; month = 3; day = 2 }

-- 09:14:00, in seconds
abbrev base_second : ℕ
base_second = 33240

abbrev two_digits : ℕ → String
two_digits n = if ltb n 10 then "0" ⧺ show n else show n

-- `(BASE + timedelta(seconds=offset)).strftime("%Y-%m-%dT%H:%M:%SZ")`
unfoldable pub ts : ℕ → String
unfolding show
ts offset =
    let total = base_second + offset in
    let d = days_after (total / 86400) base_day in
    let s = total % 86400 in
    show d.year
    ⧺ "-"
    ⧺ two_digits d.month
    ⧺ "-"
    ⧺ two_digits d.day
    ⧺ "T"
    ⧺ two_digits (s / 3600)
    ⧺ ":"
    ⧺ two_digits (s / 60 % 60)
    ⧺ ":"
    ⧺ two_digits (s % 60)
    ⧺ "Z"

-- `(role, text)` or `(role, text, seq_override)`
pub record TurnSpec : Type 0 where
  pub role : String
  pub text : String
  pub seq_override : Option ℤ

-- `(role, text)`
abbrev pub role_text : String → String → TurnSpec
role_text role text = record { role = role; text = text; seq_override = none }

-- `(role, text, seq_override)`
abbrev pub role_text_seq : String → String → ℕ → TurnSpec
role_text_seq role text n = record { role = role; text = text; seq_override = some (pos n) }

-- `spec[2] if len(spec) > 2 else i`
abbrev pub seq_of : ℕ → Option ℤ → ℤ
seq_of i none = pos i
seq_of i (some n) = n

abbrev pub spec_turn : ℕ → ℕ → TurnSpec → Value
spec_turn start_offset i spec = obj (
    field "seq" (int (seq_of i spec.seq_override)) (
      field "role" (str spec.role)
        (field "ts" (str (ts (start_offset + i * 40))) (field "text" (str spec.text) end))))

-- The loop over `enumerate(turn_specs)`, from the position `i` on.
unfoldable pub spec_turns : ℕ → ℕ → List TurnSpec → Items
unfolding ts
spec_turns start_offset i [] = nil
spec_turns start_offset i (spec ∷ specs) =
    cons (spec_turn start_offset i spec) (spec_turns start_offset (suc i) specs)

-- `d[k] = v`
abbrev pub set_field : String → Value → Fields → Fields
set_field k v end = field k v end
set_field k v (field j w fs) = if j == k then field j v fs else field j w (set_field k v fs)

-- `doc.update(extra)`
abbrev pub update_fields : Fields → Fields → Fields
update_fields fs end = fs
update_fields fs (field k v extra) = update_fields (set_field k v fs) extra

unfoldable pub convo : String → String → String → List TurnSpec → ℕ → Fields → Value
unfolding ts spec_turns
convo cid tenant channel turn_specs start_offset extra = obj (
    update_fields
      (field "conversation_id" (str cid) (
        field "tenant_id" (str tenant) (
          field "channel" (str channel) (
            field "started_at" (str (ts start_offset))
              (field "turns" (arr (spec_turns start_offset 0 turn_specs)) end)))))
      extra)

abbrev cust_lines : List String
cust_lines =
    "It's still not working." ∷ "I tried that, same error." ∷ "Restarted, no change."
    ∷ "Now it's showing a different error." ∷ "This is taking a very long time."
    ∷ "OK that step worked." ∷ "Back to the previous error now."
    ∷ "I've cleared the cache as asked." ∷ "Nothing in the console output."
    ∷ "Are we getting anywhere with this?" ∷ []

abbrev agent_lines : List String
agent_lines =
    "Let me check that on my side." ∷ "Can you try clearing the cache?"
    ∷ "What does the console show?" ∷ "Please restart the client and retry."
    ∷ "I'm checking the server logs now." ∷ "That narrows it down, thanks."
    ∷ "Can you confirm the version number?" ∷ "Trying a different configuration."
    ∷ "I've applied a change — retry now." ∷ "Bear with me while I escalate this." ∷ []

-- `lines[k % len(lines)]` of ten lines
abbrev line_at : List String → ℕ → String
line_at lines k = elim (get_elem? lines (k % 10)) [ none ↦ "" | some line ↦ line ]

-- the body of the loop that makes `_long_turns`
unfoldable pub long_turn : ℕ → TurnSpec
unfolding show
long_turn i =
    if i % 25 == 24
    then record {
      role = "system";
      text = "Session checkpoint " ⧺ show (i / 25 + 1) ⧺ ".";
      seq_override = none;
    }
    else if i % 2 == 0
    then record { role = "customer"; text = line_at cust_lines (i / 2); seq_override = none }
    else record { role = "agent"; text = line_at agent_lines (i / 2); seq_override = none }

-- `for i in range(n)`, from `i` on
unfoldable pub long_turns : ℕ → ℕ → List TurnSpec
unfolding long_turn
long_turns zero i = []
long_turns (suc n) i = long_turn i ∷ long_turns n (suc i)
