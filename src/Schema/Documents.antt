-- ===== src/Schema/Documents.antt =====
-- schema.py, parse_conversation: which documents are rejected, and what a parsed one holds.
use sb_poc.Prelude.{
  ℕ, suc, ◌+◌, ◌≡◌, refl, String, Bool, true, false, ◌&&◌, ◌||◌, not, Option, none, some, List, [],
  ◌∷◌, arith, length, ◌==◌, String_eq, Bool-cases, ◌⊎◌, inl, inr, ap, ◌∙◌,
}
use sb_poc.Json.{Value, null, str, arr, obj, Fields, Items, items, find, get}
use sb_poc.Text.{Unicode}
use sb_poc.Schema.{
  TurnResult, kept, dropped, ParsedTurn, DroppedTurn, ParsedConversation, ParseResult, parsed,
  rejected, parse_turn, parse_turns, file_turn, non_empty_str, assemble, check_turns,
  parse_conversation,
}
use sb_poc.Schema.Turns.{
  is_kept, is_usable, is_kept-is_usable, Partition, parse_turns-Partition, kept_at, dropped_at,
}

abbrev pub is_parsed : ParseResult → Bool
is_parsed (parsed c) = true
is_parsed (rejected r) = false

abbrev pub is_text : Value → Bool
is_text (str s) = not (s == "")
is_text _ = false

abbrev pub any_usable : List Value → Bool
any_usable [] = false
any_usable (v ∷ vs) = is_usable v || any_usable vs

-- An array of turns can be worked on if it is empty or holds a usable turn.
abbrev pub workable : List Value → Bool
workable [] = true
workable vs = any_usable vs

abbrev pub has_turns : Option Value → Bool
has_turns (some (arr xs)) = workable (items xs)
has_turns _ = false

-- The structural conditions on a document.
abbrev pub is_scoreable : Value → Bool
is_scoreable (obj fs) =
    is_text (get "tenant_id" fs)
    && is_text (get "conversation_id" fs)
    && has_turns (find "turns" fs)
is_scoreable _ = false

abbrev pub some_kept : List ParsedTurn → Bool
some_kept [] = false
some_kept (t ∷ ts) = true

module _ (u : Unicode) where
  some_kept-file_turn :
      (r : TurnResult) (p : List ParsedTurn × List DroppedTurn)
      → some_kept (file_turn r p).0 ≡ (is_kept r || some_kept p.0)
  some_kept-file_turn (kept t) p = refl
  some_kept-file_turn (dropped d) p = refl

  some_kept-parse_turns :
      (i : ℕ) (vs : List Value) → some_kept (parse_turns u i vs).0 ≡ any_usable vs
  unfolding parse_turns
  some_kept-parse_turns i [] = refl
  some_kept-parse_turns i (v ∷ vs) = cc (
    some_kept-file_turn (parse_turn u i v) (parse_turns u (suc i) vs),
    some_kept-parse_turns (suc i) vs,
    is_kept-is_usable u i v,
  )

  is_parsed-assemble :
      (t c : String) (fs : Fields) (vs : List Value) (ks : List ParsedTurn) (ds : List DroppedTurn)
      → some_kept ks ≡ any_usable vs
      → is_parsed (assemble t c fs vs (ks, ds)) ≡ workable vs
  unfolding assemble
  is_parsed-assemble t c fs [] [] ds h = refl
  is_parsed-assemble t c fs [] (k ∷ ks) ds h = refl
  is_parsed-assemble t c fs (v ∷ vs) [] ds h = h
  is_parsed-assemble t c fs (v ∷ vs) (k ∷ ks) ds h = h

  is_parsed-check_turns :
      (t c : String) (fs : Fields) (o : Option Value)
      → is_parsed (check_turns u t c fs o) ≡ has_turns o
  unfolding check_turns
  is_parsed-check_turns t c fs (some (arr xs)) =
      is_parsed-assemble t c fs (items xs) (parse_turns u 0 (items xs)).0
        (parse_turns u 0 (items xs)).1 (some_kept-parse_turns 0 (items xs))
  is_parsed-check_turns t c fs none = refl
  is_parsed-check_turns t c fs (some null) = refl
  is_parsed-check_turns t c fs (some _) = refl

  non_empty_cases :
      (v : Value)
      → ((non_empty_str v ≡ none) × (is_text v ≡ false))
        ⊎ ((s : String) × (non_empty_str v ≡ some s) × (v ≡ str s) × (is_text v ≡ true))
  unfolding non_empty_str
  non_empty_cases (str s) = elim (Bool-cases (s == "")) [
    | inl e ↦ inl (rw e, rw e)
    | inr e ↦ inr (s, rw e, refl, rw e)
  ]
  non_empty_cases null = inl (refl, refl)
  non_empty_cases _ = inl (refl, refl)

  -- A document is parsed, and not rejected, exactly when it is an object whose tenant and conversation
  -- ids are non-empty strings and whose turns are a list that is empty or has a usable turn in it.
  pub is_parsed-is_scoreable : (v : Value) → is_parsed (parse_conversation u v) ≡ is_scoreable v
  unfolding parse_conversation
  is_parsed-is_scoreable (obj fs) = elim (non_empty_cases (get "tenant_id" fs)) [
    | inl (e, f) ↦ rw (e, parse_conversation, f)
    | inr (t, e, _, f) ↦ elim (non_empty_cases (get "conversation_id" fs)) [
      | inl (e', f') ↦ rw (e, parse_conversation, f, e', f')
      | inr (c, e', _, f') ↦
          rw (e, parse_conversation, f, e', f') (is_parsed-check_turns t c fs (find "turns" fs))
    ]
  ]
  is_parsed-is_scoreable null = refl
  is_parsed-is_scoreable _ = refl

  assemble-parsed :
      (t c : String) (fs : Fields) (vs : List Value) (ks : List ParsedTurn) (ds : List DroppedTurn)
      (r : ParsedConversation)
      → assemble t c fs vs (ks, ds) ≡ parsed r
      → (t ≡ r.tenant_id) × (c ≡ r.conversation_id) × (ks ≡ r.turns) × (ds ≡ r.dropped_turns)
  unfolding assemble
  assemble-parsed t c fs [] ks ds r h = ground arith
  assemble-parsed t c fs (v ∷ vs) [] ds r h = ground arith
  assemble-parsed t c fs (v ∷ vs) (k ∷ ks) ds r h = ground arith

  check_turns-parsed :
      (t c : String) (fs : Fields) (o : Option Value) (r : ParsedConversation)
      → check_turns u t c fs o ≡ parsed r
      → (xs : Items) × (o ≡ some (arr xs))
        × (t ≡ r.tenant_id)
        × (c ≡ r.conversation_id)
        × Partition 0 (length (items xs) + 0) (kept_at r.turns) (dropped_at r.dropped_turns)
  unfolding check_turns
  check_turns-parsed t c fs (some (arr xs)) r h =
      let (a, b, k, d) =
        assemble-parsed t c fs (items xs) (parse_turns u 0 (items xs)).0
          (parse_turns u 0 (items xs)).1 r h in
      (xs, refl, a, b, rw (← k, ← d) (parse_turns-Partition u 0 (items xs)))
  check_turns-parsed t c fs none r h = cc
  check_turns-parsed t c fs (some null) r h = cc
  check_turns-parsed t c fs (some _) r h = cc

  -- A parsed conversation carries the ids of its document, and splits the positions of the document's
  -- array of turns into those that it kept and those that it dropped.
  pub parse_conversation-Partition :
      (fs : Fields) (c : ParsedConversation)
      → parse_conversation u (obj fs) ≡ parsed c
      → (xs : Items) × (find "turns" fs ≡ some (arr xs))
        × (get "tenant_id" fs ≡ str c.tenant_id)
        × (get "conversation_id" fs ≡ str c.conversation_id)
        × Partition 0 (length (items xs) + 0) (kept_at c.turns) (dropped_at c.dropped_turns)
  unfolding parse_conversation
  parse_conversation-Partition fs r h = elim (non_empty_cases (get "tenant_id" fs)) [
    | inl (e, _) ↦ absurd (cc (rw (e, parse_conversation) at h))
    | inr (t, e, et, _) ↦ elim (non_empty_cases (get "conversation_id" fs)) [
      | inl (e', _) ↦ absurd (cc (rw (e, parse_conversation, e') at h))
      | inr (c, e', ec, _) ↦
          let (xs, f, a, b, p) =
            check_turns-parsed t c fs (find "turns" fs) r (rw (e, parse_conversation, e') at h) in
          (xs, f, et ∙ ap str a, ec ∙ ap str b, p)
    ]
  ]
