-- ===== src/Schema.antt =====
-- src/pipeline/schema.py: a conversation document becomes a validated conversation or a rejection.
pub mod Turns
pub mod Documents
use Prim.Native.String.{◌++◌ as ◌⧺◌}
use sb_poc.Prelude.{
  ℕ, suc, String, ℤ, Bool, true, false, ◌||◌, not, Option, none, some, List, [], ◌∷◌, ◌==◌,
  String_eq, if◌then◌else◌, length, keep_if,
}
use sb_poc.Json.{
  Value, null, bool, int, float, str, arr, obj, Items, Fields, items, find, get, as_str, type_name,
}
use sb_poc.Text.{Unicode, codes, strip, int_of, show}

pub data DropReason : Type 0 where
  non_object_turn unknown_role missing_text null_text non_string_text missing_ts : DropReason

pub record ParsedTurn : Type 0 where
  pub index : ℕ
  pub role : String
  pub text : String
  pub seq : Option ℤ
  pub ts : Option String

pub record DroppedTurn : Type 0 where
  pub index : ℕ
  pub reason : DropReason

pub record ParsedConversation : Type 0 where
  pub tenant_id : String
  pub conversation_id : String
  pub channel : Option String
  pub started_at : Option String
  pub turns : List ParsedTurn
  pub dropped_turns : List DroppedTurn

pub data RejectReason : Type 0 where
  not_an_object missing_tenant_id missing_conversation_id no_turns_key : RejectReason
  turns_not_list no_recognised_roles : RejectReason

pub record Rejection : Type 0 where
  pub reason : RejectReason
  pub detail : String

-- `ParsedTurn | DroppedTurn`
pub data TurnResult : Type 0 where
  kept : ParsedTurn → TurnResult
  dropped : DroppedTurn → TurnResult

-- `ParsedConversation | Rejection`
pub data ParseResult : Type 0 where
  parsed : ParsedConversation → ParseResult
  rejected : Rejection → ParseResult

unfoldable pub recognised_roles : String → Bool
recognised_roles r = r == "customer" || r == "agent" || r == "system"

module _ (u : Unicode) where
  unfoldable pub coerce_seq : Value → Option ℤ
  coerce_seq (int n) = some n
  coerce_seq (str s) = int_of u (strip (codes s))
  coerce_seq _ = none

abbrev pub drop_turn : ℕ → DropReason → TurnResult
drop_turn i r = dropped (record { index = i; reason = r })

module _ (u : Unicode) (i : ℕ) where
  -- from the test of `ts` on
  unfoldable pub check_ts : String → String → Fields → Value → TurnResult
  check_ts role text fs null = drop_turn i missing_ts
  check_ts role text fs ts = kept (record {
    index = i;
    role = role;
    text = text;
    seq = coerce_seq u (get "seq" fs);
    ts = as_str ts;
  })

  -- from the test of `text` on
  unfoldable pub check_text : String → Fields → Option Value → TurnResult
  unfolding check_ts
  check_text role fs none = drop_turn i missing_text
  check_text role fs (some null) = drop_turn i null_text
  check_text role fs (some (str text)) = check_ts role text fs (get "ts" fs)
  check_text role fs (some _) = drop_turn i non_string_text

  unfoldable pub check_role : Fields → Value → TurnResult
  unfolding check_text recognised_roles
  check_role fs (str role) =
      if not (recognised_roles role)
      then drop_turn i unknown_role
      else check_text role fs (find "text" fs)
  check_role fs _ = drop_turn i unknown_role

  unfoldable pub parse_turn : Value → TurnResult
  unfolding check_role
  parse_turn (obj fs) = check_role fs (get "role" fs)
  parse_turn _ = drop_turn i non_object_turn

abbrev pub file_turn :
    TurnResult → List ParsedTurn × List DroppedTurn → List ParsedTurn × List DroppedTurn
file_turn (kept t) (ks, ds) = (t ∷ ks, ds)
file_turn (dropped d) (ks, ds) = (ks, d ∷ ds)

module _ (u : Unicode) where
  -- The loop over `enumerate(turns_raw)`, from position `i` on: the two lists in array order.
  unfoldable pub parse_turns : ℕ → List Value → List ParsedTurn × List DroppedTurn
  parse_turns i [] = ([], [])
  parse_turns i (v ∷ vs) = file_turn (parse_turn u i v) (parse_turns (suc i) vs)

abbrev pub reject : RejectReason → String → ParseResult
reject r d = rejected (record { reason = r; detail = d })

-- A text that `isinstance(value, str) and value` lets through.
unfoldable pub non_empty_str : Value → Option String
non_empty_str (str s) = if s == "" then none else some s
non_empty_str _ = none

-- from the test of "nothing usable" on
unfoldable pub assemble :
    String → String → Fields → List Value → List ParsedTurn × List DroppedTurn → ParseResult
assemble tenant conversation fs (v ∷ vs) ([], ds) =
    reject no_recognised_roles (show (length ds) ⧺ " turns, none usable")
assemble tenant conversation fs vs (ks, ds) = parsed (record {
  tenant_id = tenant;
  conversation_id = conversation;
  channel = as_str (get "channel" fs);
  started_at = as_str (get "started_at" fs);
  turns = ks;
  dropped_turns = ds;
})

module _ (u : Unicode) where
  unfoldable pub check_turns : String → String → Fields → Option Value → ParseResult
  unfolding assemble
  check_turns tenant conversation fs none = reject no_turns_key ""
  check_turns tenant conversation fs (some (arr xs)) =
      assemble tenant conversation fs (items xs) (parse_turns u 0 (items xs))
  check_turns tenant conversation fs (some v) = reject turns_not_list ("turns is " ⧺ type_name v)

  unfoldable pub parse_conversation : Value → ParseResult
  unfolding check_turns non_empty_str
  parse_conversation (obj fs) = elim (non_empty_str (get "tenant_id" fs)) [
    | none ↦ reject missing_tenant_id ""
    | some tenant ↦ elim (non_empty_str (get "conversation_id" fs)) [
      | none ↦ reject missing_conversation_id ""
      | some conversation ↦ check_turns tenant conversation fs (find "turns" fs)
    ]
  ]
  parse_conversation v = reject not_an_object ("top level is " ⧺ type_name v)

abbrev pub is_customer : ParsedTurn → Bool
is_customer t = t.role == "customer"

unfoldable pub customer_turns : ParsedConversation → List ParsedTurn
customer_turns c = keep_if is_customer c.turns
