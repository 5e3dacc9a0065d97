-- ===== src/Dataset/Parsed.antt =====
-- make_dataset.py, convo: what parse_conversation makes of its documents.
use sb_poc.Prelude.{
  ℕ, suc, ◌+◌, ◌*◌, String, String_eq, Bool, true, false, ◌||◌, none, some, List, [], ◌∷◌, ◌==◌,
  ◌≡◌, refl, ap, ap₂, ◌∙◌, arith, Bool-cases, inl, inr, if◌then◌else◌, eq_iff,
}
use sb_poc.Json.{Value, str, arr, obj, items, Fields, end, field, find, get, as_str}
use sb_poc.Text.{Unicode}
use sb_poc.Schema.{
  ParsedTurn, DroppedTurn, unknown_role, kept, dropped, file_turn, recognised_roles, coerce_seq,
  check_ts, check_text, check_role, parse_turn, parse_turns, non_empty_str, assemble, check_turns,
  ParsedConversation, parsed, parse_conversation,
}
use sb_poc.Dataset.{ts, TurnSpec, seq_of, spec_turn, spec_turns, set_field, update_fields, convo}

-- A turn is kept with its number, role, text and time.
abbrev pub kept_turn : ℕ → ℕ → TurnSpec → ParsedTurn
kept_turn start_offset i spec = record {
  index = i;
  role = spec.role;
  text = spec.text;
  seq = some (seq_of i spec.seq_override);
  ts = some (ts (start_offset + i * 40));
}

-- The turns with a recognised role are kept, the others are dropped for their role.
abbrev pub expected : ℕ → ℕ → List TurnSpec → List ParsedTurn × List DroppedTurn
expected start_offset i [] = ([], [])
expected start_offset i (spec ∷ specs) =
    let rest = expected start_offset (suc i) specs in
    if recognised_roles spec.role
    then (kept_turn start_offset i spec ∷ rest.0, rest.1)
    else (rest.0, record { index = i; reason = unknown_role } ∷ rest.1)

abbrev pub some_recognised : List TurnSpec → Bool
some_recognised [] = false
some_recognised (spec ∷ specs) = recognised_roles spec.role || some_recognised specs

-- There is no turn, or one with a recognised role.
abbrev pub is_readable : List TurnSpec → Bool
is_readable [] = true
is_readable (spec ∷ specs) = some_recognised (spec ∷ specs)

find-set_field :
    (j k : String) (v : Value) (fs : Fields)
    → (k == j) ≡ false
    → find j (set_field k v fs) ≡ find j fs
find-set_field j k v end h = ground (arith, h)
find-set_field j k v (field i w fs) h =
    ground (arith, h, eq_iff i k, find-set_field j k v fs h, eq_iff k j, eq_iff i j)

-- A key that `update` does not name keeps its value.
find-update_fields :
    (j : String) (fs extra : Fields)
    → find j extra ≡ none
    → find j (update_fields fs extra) ≡ find j fs
find-update_fields j fs end h = refl
find-update_fields j fs (field k v extra) h = elim (Bool-cases (k == j)) [
  | inl here ↦ absurd (ground (arith, here, h))
  | inr there ↦
      find-update_fields j (set_field k v fs) extra (ground (arith, there, h))
      ∙ find-set_field j k v fs there
]

module _ (u : Unicode) (start_offset : ℕ) where
  parse_turn-spec_turn :
      (i : ℕ) (spec : TurnSpec)
      → parse_turn u i (spec_turn start_offset i spec) ≡ (
          if recognised_roles spec.role
          then kept (kept_turn start_offset i spec)
          else dropped (record { index = i; reason = unknown_role }))
  unfolding parse_turn check_role check_text check_ts coerce_seq
  parse_turn-spec_turn i spec = elim (Bool-cases (recognised_roles spec.role)) [
    | inl e ↦ rw e refl
    | inr e ↦ rw e refl
  ]

  parse_turns-spec_turns :
      (i : ℕ) (specs : List TurnSpec)
      → parse_turns u i (items (spec_turns start_offset i specs)) ≡ expected start_offset i specs
  unfolding parse_turns spec_turns
  parse_turns-spec_turns i [] = refl
  parse_turns-spec_turns i (spec ∷ specs) =
      ap₂ file_turn (parse_turn-spec_turn i spec) (parse_turns-spec_turns (suc i) specs)
      ∙ elim (Bool-cases (recognised_roles spec.role)) [ inl e ↦ rw e refl | inr e ↦ rw e refl ]

  some_kept :
      (i : ℕ) (specs : List TurnSpec)
      → some_recognised specs ≡ true
      → (k : ParsedTurn) × (ks : List ParsedTurn) × ((expected start_offset i specs).0 ≡ k ∷ ks)
  some_kept i [] h = absurd (cc)
  some_kept i (spec ∷ specs) h = elim (Bool-cases (recognised_roles spec.role)) [
    | inl e ↦ rw e (_, _, refl)
    | inr e ↦ rw e (some_kept (suc i) specs (rw e at h))
  ]

  abbrev pub result_of : String → String → String → List TurnSpec → ParsedConversation
  result_of cid tenant channel specs = record {
    tenant_id = tenant;
    conversation_id = cid;
    channel = some channel;
    started_at = some (ts start_offset);
    turns = (expected start_offset 0 specs).0;
    dropped_turns = (expected start_offset 0 specs).1;
  }

  assemble-kept :
      (tenant cid : String) (fs : Fields) (vs : List Value) (p : List ParsedTurn × List DroppedTurn)
      (k : ParsedTurn) (ks : List ParsedTurn)
      → p.0 ≡ k ∷ ks
      → assemble tenant cid fs vs p
        ≡ parsed (record {
          tenant_id = tenant;
          conversation_id = cid;
          channel = as_str (get "channel" fs);
          started_at = as_str (get "started_at" fs);
          turns = p.0;
          dropped_turns = p.1;
        })
  unfolding assemble
  assemble-kept tenant cid fs [] p k ks h = refl
  assemble-kept tenant cid fs (v ∷ vs) ([], ds) k ks h = absurd (cc)
  assemble-kept tenant cid fs (v ∷ vs) (x ∷ xs, ds) k ks h = refl

  readable-parsed :
      (tenant cid channel : String) (fs : Fields) (specs : List TurnSpec)
      → is_readable specs ≡ true
      → find "channel" fs ≡ some (str channel)
      → find "started_at" fs ≡ some (str (ts start_offset))
      → assemble tenant cid fs
          (items (spec_turns start_offset 0 specs))
          (expected start_offset 0 specs)
        ≡ parsed (result_of cid tenant channel specs)
  unfolding assemble spec_turns
  readable-parsed tenant cid channel fs [] h e3 e4 = rw (e3, e4) refl
  readable-parsed tenant cid channel fs (spec ∷ specs) h e3 e4 =
      let (k, ks, first) = some_kept 0 (spec ∷ specs) h in
      assemble-kept tenant cid fs (items (spec_turns start_offset 0 (spec ∷ specs)))
        (expected start_offset 0 (spec ∷ specs)) k ks first
      ∙ rw (e3, e4) refl

  fields-parsed :
      (cid tenant channel : String) (specs : List TurnSpec) (fs : Fields)
      → (cid == "") ≡ false
      → (tenant == "") ≡ false
      → is_readable specs ≡ true
      → find "conversation_id" fs ≡ some (str cid)
      → find "tenant_id" fs ≡ some (str tenant)
      → find "channel" fs ≡ some (str channel)
      → find "started_at" fs ≡ some (str (ts start_offset))
      → find "turns" fs ≡ some (arr (spec_turns start_offset 0 specs))
      → parse_conversation u (obj fs) ≡ parsed (result_of cid tenant channel specs)
  unfolding parse_conversation check_turns non_empty_str
  fields-parsed cid tenant channel specs fs has_cid has_tenant readable e1 e2 e3 e4 e5 =
      let t : non_empty_str (get "tenant_id" fs) ≡ some tenant = ground (arith, e2, has_tenant) in
      let c : non_empty_str (get "conversation_id" fs) ≡ some cid = ground (arith, e1, has_cid) in
      rw (t, parse_conversation, c, e5)
        (ap (assemble tenant cid fs (items (spec_turns start_offset 0 specs)))
            (parse_turns-spec_turns 0 specs)
          ∙ readable-parsed tenant cid channel fs specs readable e3 e4)

  -- A sample conversation with ids that are not empty, and with no turn or one with a recognised role, is
  -- parsed, as long as its extra fields rename none of its own. It keeps its ids, channel and start. Each
  -- turn with a recognised role is kept with its number, role, text and time, and each other turn is
  -- dropped for its role.
  pub parse_conversation-convo :
      (cid tenant channel : String) (specs : List TurnSpec) (extra : Fields)
      → (cid == "") ≡ false
      → (tenant == "") ≡ false
      → is_readable specs ≡ true
      → find "conversation_id" extra ≡ none
      → find "tenant_id" extra ≡ none
      → find "channel" extra ≡ none
      → find "started_at" extra ≡ none
      → find "turns" extra ≡ none
      → parse_conversation u (convo cid tenant channel specs start_offset extra)
        ≡ parsed (result_of cid tenant channel specs)
  unfolding convo
  parse_conversation-convo cid tenant channel specs extra has_cid has_tenant readable e1 e2 e3 e4
        e5 =
      fields-parsed cid tenant channel specs _ has_cid has_tenant readable
        (find-update_fields "conversation_id" _ extra e1)
        (find-update_fields "tenant_id" _ extra e2) (find-update_fields "channel" _ extra e3)
        (find-update_fields "started_at" _ extra e4) (find-update_fields "turns" _ extra e5)
