-- ===== src/Row/Customers.antt =====
-- result.py, score_conversation: which turns are scored, and which scores go into the metrics.
use sb_poc.Prelude.{
  ℕ, suc, ◌≤◌, ◌≡◌, refl, ap, ◌∙◌, String, String_eq, Bool, Option, some, List, [], ◌∷◌, ◌++◌, map,
  Table, lookup, put, lookup-put, ℕ_eq, ◌==◌, Result, ok, traverse, arith, All, keep_if,
  if◌then◌else◌, Bool-cases, inl, inr,
}
use sb_poc.Json.{Value}
use sb_poc.Text.{Unicode}
use sb_poc.Float.{Float}
use sb_poc.Config.{Config}
use sb_poc.Schema.{ParsedTurn, ParsedConversation, customer_turns, is_customer}
use sb_poc.Schema.Turns.{Ascending, kept_at}
use sb_poc.Metrics.{TurnScore, Overall, Trajectory, overall_sentiment, sentiment_trajectory}
use sb_poc.Sentiment.{item, or_key_error, unscored}
use sb_poc.Hashing.{Digest}
use sb_poc.Row.{Row, DateTime, to_score, index_scores, score_turns, finished_row, score_parsed}

module _ {F : Type 0} (g : String → TurnScore F) where
  -- The score that belongs to a position.
  score_at : List ParsedTurn → ℕ → TurnScore F
  score_at [] i = unscored
  score_at (t ∷ ts) i = if t.index == i then g t.text else score_at ts i

  skip :
      (t : ParsedTurn) (ts us : List ParsedTurn) (lo : ℕ)
      → suc t.index ≤ lo
      → Ascending lo (kept_at us)
      → All (λ x. score_at ts x.index ≡ g x.text) us
      → All (λ x. score_at (t ∷ ts) x.index ≡ g x.text) us
  unfolding score_at
  skip t ts [] lo l a h = tt
  skip t ts (x ∷ us) lo l a h =
      (ground (arith, a.0, h.0), skip t ts us (suc x.index) (omega (arith, a.0)) a.1 h.1)

  -- No two turns share a position.
  score_at-own :
      (lo : ℕ) (ts : List ParsedTurn)
      → Ascending lo (kept_at ts)
      → All (λ x. score_at ts x.index ≡ g x.text) ts
  score_at-own lo [] a = tt
  score_at-own lo (t ∷ ts) a = (
    unfold score_at in ground arith,
    skip t ts ts (suc t.index) (omega arith) a.1 (score_at-own (suc t.index) ts a.1),
  )

  module _ (h : ℕ → TurnScore F) where
    abbrev Owned : ParsedTurn → Type 0
    Owned t = h t.index ≡ g t.text

    All-keep_if :
        (p : ParsedTurn → Bool) (ts : List ParsedTurn) → All Owned ts → All Owned (keep_if p ts)
    All-keep_if p [] a = tt
    All-keep_if p (t ∷ ts) a = elim (Bool-cases (p t)) [
      | inl e ↦ rw e (a.0, All-keep_if p ts a.1)
      | inr e ↦ rw e (All-keep_if p ts a.1)
    ]

    All-append : (ts us : List ParsedTurn) → All Owned ts → All Owned us → All Owned (ts ++ us)
    All-append [] us a b = b
    All-append (t ∷ ts) us a b = (a.0, All-append ts us a.1 b)

    put-Owned :
        (i : ℕ) (t : ParsedTurn) (acc : Table ℕ (TurnScore F))
        → Owned t
        → lookup i acc ≡ some (h i)
        → lookup i (put t.index (g t.text) acc) ≡ some (h i)
    put-Owned i t acc o e = rw (lookup-put t.index i (g t.text) acc) (ground arith)

    put-Owned_self :
        (t : ParsedTurn) (acc : Table ℕ (TurnScore F))
        → Owned t
        → lookup t.index (put t.index (g t.text) acc) ≡ some (h t.index)
    put-Owned_self t acc o = rw (lookup-put t.index t.index (g t.text) acc) (ground arith)

    index_scores_total :
        (acc : Table ℕ (TurnScore F)) (ts : List ParsedTurn)
        → All Owned ts
        → (tab : Table ℕ (TurnScore F)) × (index_scores acc ts (map g (map (λ t. t.text) ts))
            ≡ ok tab)
          × ((i : ℕ) → lookup i acc ≡ some (h i) → lookup i tab ≡ some (h i))
          × All (λ t. lookup t.index tab ≡ some (h t.index)) ts
    unfolding index_scores
    index_scores_total acc [] a = (acc, refl, λ i e. e, tt)
    index_scores_total acc (t ∷ ts) a =
        let (tab, e, old, all) = index_scores_total (put t.index (g t.text) acc) ts a.1 in
        (
          tab,
          e,
          λ i e'. old i (put-Owned i t acc a.0 e'),
          (old t.index (put-Owned_self t acc a.0), all),
        )

    All-left :
        (tab : Table ℕ (TurnScore F)) (ts us : List ParsedTurn)
        → All (λ t. lookup t.index tab ≡ some (h t.index)) (ts ++ us)
        → All (λ t. lookup t.index tab ≡ some (h t.index)) ts
    All-left tab [] us a = tt
    All-left tab (t ∷ ts) us a = (a.0, All-left tab ts us a.1)

    item-Owned :
        (tab : Table ℕ (TurnScore F)) (t : ParsedTurn)
        → Owned t
        → lookup t.index tab ≡ some (h t.index)
        → item tab t.index ≡ ok (g t.text)
    item-Owned tab t o e = ap or_key_error e ∙ ap ok o

    traverse-item :
        (tab : Table ℕ (TurnScore F)) (ts : List ParsedTurn)
        → All Owned ts
        → All (λ t. lookup t.index tab ≡ some (h t.index)) ts
        → traverse (λ t. item tab t.index) ts ≡ ok (map (λ t. g t.text) ts)
    unfolding traverse
    traverse-item tab [] o a = refl
    traverse-item tab (t ∷ ts) o a = rw (item-Owned tab t o.0 a.0, traverse-item tab ts o.1 a.1)

  score_turns-map :
      (score_texts : List String → Result (List (TurnScore F))) (ts : List ParsedTurn)
      → ((xs : List String) → score_texts xs ≡ ok (map g xs))
      → score_turns score_texts ts ≡ ok (map g (map (λ t. t.text) ts))
  score_turns-map score_texts [] alone = refl
  score_turns-map score_texts (t ∷ ts) alone = alone _

  customers-Owned :
      (h : ℕ → TurnScore F) (c : ParsedConversation)
      → All (λ t. h t.index ≡ g t.text) c.turns
      → All (λ t. h t.index ≡ g t.text) (customer_turns c)
  unfolding customer_turns
  customers-Owned h c own = All-keep_if h is_customer c.turns own

  customers-stored :
      (h : ℕ → TurnScore F) (cfg : Config F) (c : ParsedConversation) (tab : Table ℕ (TurnScore F))
      → All (λ t. lookup t.index tab ≡ some (h t.index)) (to_score cfg c)
      → All (λ t. lookup t.index tab ≡ some (h t.index)) (customer_turns c)
  unfolding to_score
  customers-stored h cfg c tab stored = All-left h tab (customer_turns c) _ stored

module _ (f : Float) (u : Unicode) (d : Digest)
    (score_texts : List String → Result (List (TurnScore f.F))) (cfg : Config f.F) (now : DateTime)
    (g : String → TurnScore f.F) (alone : (xs : List String) → score_texts xs ≡ ok (map g xs)) where
  open f use {F}

  to_score-Owned :
      (h : ℕ → TurnScore F) (c : ParsedConversation)
      → All (λ t. h t.index ≡ g t.text) c.turns
      → All (λ t. h t.index ≡ g t.text) (to_score cfg c)
  unfolding to_score
  to_score-Owned h c own = elim (Bool-cases cfg.score_agent_turns) [
    | inl e ↦ rw e (
        All-append g h (customer_turns c) _ (customers-Owned g h c own)
          (All-keep_if g h _ c.turns own))
    | inr e ↦ rw e (All-append g h (customer_turns c) [] (customers-Owned g h c own) tt)
  ]

  pub score_parsed-HasMetrics :
      (raw : Value) (c : ParsedConversation) (o : Option (Overall F)) (t : Option (Trajectory F))
      → Ascending 0 (kept_at c.turns)
      → overall_sentiment f cfg (map (λ x. g x.text) (customer_turns c)) ≡ ok o
      → sentiment_trajectory f cfg (map (λ x. g x.text) (customer_turns c)) ≡ ok t
      → (row : Row F) × (score_parsed f u d score_texts cfg now raw c ≡ ok row)
        × (row.overall_sentiment ≡ o)
        × (row.sentiment_trajectory ≡ t)
  unfolding score_parsed
  score_parsed-HasMetrics raw c o t asc eo et =
      let h = score_at g c.turns in
      let own = score_at-own g 0 c.turns asc in
      let turns = to_score cfg c in
      let (tab, e, _, stored) = index_scores_total g h [] turns (to_score-Owned h c own) in
      let found =
        traverse-item g h tab (customer_turns c) (customers-Owned g h c own)
          (customers-stored g h cfg c tab stored) in
      (
        finished_row f u d score_texts cfg now raw c tab o t,
        rw (score_turns-map g score_texts turns alone, e, found, eo, et),
        refl,
        refl,
      )
