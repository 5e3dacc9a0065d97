-- ===== src/Row/Status.antt =====
-- result.py, score_conversation: the status of a row, its error, its metrics and its dropped turns; and
-- scripts/verify_reproducibility.py: two runs at different times.
use sb_poc.Prelude.{
  String, Option, none, some, List, [], ◌∷◌, ◌≡◌, ◌≢◌, ◌↔◌, refl, ap, subst, ◌∙◌, ℕ_eq, Result, ok,
  raise, ◌>>=◌, >>=-eq-ok, ok-injective, traverse, arith, length,
}
use sb_poc.Json.{Value}
use sb_poc.Text.{Unicode}
use sb_poc.Float.{Float}
use sb_poc.Config.{Config}
use sb_poc.Schema.{
  DroppedTurn, ParsedTurn, ParsedConversation, ParseResult, parsed, rejected, parse_conversation,
  customer_turns,
}
use sb_poc.Metrics.{
  TurnScore, Overall, Trajectory, overall_of_pairs, trajectory_of_pairs, overall_sentiment,
  sentiment_trajectory, scored_pairs, weights_from, mean_score,
}
use sb_poc.Metrics.Scores.{nat_eq-suc}
use sb_poc.Sentiment.{item}
use sb_poc.Hashing.{Digest}
use sb_poc.Row.{
  Row, DateTime, row_partial, row_rejected, id_of, hash_of, rejected_row, to_score, index_scores,
  score_turns, status_of, error_of, score_parsed, row_of, score_conversation,
}

module _ (f : Float) (cfg : Config f.F) where
  open f use {F}

  trajectory-none_of_pairs :
      (ps : List (Option F × Option F)) (r : Option (Trajectory F))
      → overall_of_pairs f cfg ps ≡ ok none
      → trajectory_of_pairs f cfg ps ≡ ok r
      → r ≡ none
  unfolding overall_of_pairs trajectory_of_pairs
  trajectory-none_of_pairs [] r h k = ground arith
  trajectory-none_of_pairs (p ∷ ps) r h k =
      let (ws, _, h1) =
        >>=-eq-ok (weights_from f cfg (length (p ∷ ps)) 0 (p ∷ ps)) _
          (rw (nat_eq-suc (length ps)) at h) in
      let (s, _, h2) = >>=-eq-ok (mean_score f cfg (p ∷ ps) ws) _ h1 in cc

  -- Where the overall sentiment is null, so is the trajectory.
  trajectory-none :
      (ts : List (TurnScore F)) (r : Option (Trajectory F))
      → overall_sentiment f cfg ts ≡ ok none
      → sentiment_trajectory f cfg ts ≡ ok r
      → r ≡ none
  unfolding overall_sentiment sentiment_trajectory
  trajectory-none ts r h k = trajectory-none_of_pairs (scored_pairs ts) r h k

-- What holds of every row that `score_conversation` returns for a document.
pub record IsConsistent {F : Type 0} (d : Digest) (raw : Value) (row : Row F) : Type 0 where
  pub tenant : row.tenant_id ≡ id_of "tenant_id" raw
  pub conversation : row.conversation_id ≡ id_of "conversation_id" raw
  pub hash : row.content_hash ≡ hash_of d raw
  pub rejected_iff : (row.status ≡ row_rejected) ↔ (row.overall_sentiment ≡ none)
  pub error_iff : (row.status ≡ row_rejected) ↔ (row.error ≢ none)
  pub partial_iff :
      (row.status ≡ row_partial) ↔ ((row.overall_sentiment ≢ none) × (row.dropped_turns ≢ []))
  pub no_trajectory : row.overall_sentiment ≡ none → row.sentiment_trajectory ≡ none

module _ {F : Type 0} where
  status_of-rejected :
      (o : Option (Overall F)) (ds : List DroppedTurn)
      → (status_of o ds ≡ row_rejected) ↔ (o ≡ none)
  status_of-rejected o ds = (λ h. ground arith, λ h. ground arith)

  status_of-error :
      (o : Option (Overall F)) (ds : List DroppedTurn) (ts : List ParsedTurn)
      → (status_of o ds ≡ row_rejected) ↔ (error_of o ts ≢ none)
  status_of-error none ds ts = (λ h. λ e. cc, λ h. refl)
  status_of-error (some m) [] ts = (λ h. absurd (cc), λ h. absurd (h refl))
  status_of-error (some m) (d ∷ ds) ts = (λ h. absurd (cc), λ h. absurd (h refl))

  status_of-partial :
      (o : Option (Overall F)) (ds : List DroppedTurn)
      → (status_of o ds ≡ row_partial) ↔ ((o ≢ none) × (ds ≢ []))
  status_of-partial none ds = (λ h. absurd (cc), λ h. absurd (h.0 refl))
  status_of-partial (some m) [] = (λ h. absurd (cc), λ h. absurd (h.1 refl))
  status_of-partial (some m) (d ∷ ds) = (λ h. (λ e. cc, λ e. cc), λ h. refl)

module _ (f : Float) (u : Unicode) (d : Digest)
    (score_texts : List String → Result (List (TurnScore f.F))) (cfg : Config f.F)
    (now : DateTime) where
  open f use {F}

  score_parsed-IsConsistent :
      (raw : Value) (c : ParsedConversation) (row : Row F)
      → score_parsed f u d score_texts cfg now raw c ≡ ok row
      → IsConsistent d raw row
  unfolding score_parsed
  score_parsed-IsConsistent raw c row h =
      let (turn_scores, _, h1) = >>=-eq-ok (score_turns score_texts (to_score cfg c)) _ h in
      let (scores, _, h2) = >>=-eq-ok (index_scores [] (to_score cfg c) turn_scores) _ h1 in
      let (customer, _, h3) =
        >>=-eq-ok (traverse (λ t. item scores t.index) (customer_turns c)) _ h2 in
      let (o, eo, h4) = >>=-eq-ok (overall_sentiment f cfg customer) _ h3 in
      let (t, et, h5) = >>=-eq-ok (sentiment_trajectory f cfg customer) _ h4 in
      subst (IsConsistent d raw) (ok-injective h5) (record {
        tenant = refl;
        conversation = refl;
        hash = refl;
        rejected_iff = status_of-rejected o c.dropped_turns;
        error_iff = status_of-error o c.dropped_turns (customer_turns c);
        partial_iff = status_of-partial o c.dropped_turns;
        no_trajectory = λ e. trajectory-none f cfg customer t (eo ∙ ap ok e) et;
      })

  row_of-IsConsistent :
      (raw : Value) (p : ParseResult) (row : Row F)
      → row_of f u d score_texts cfg now raw p ≡ ok row
      → IsConsistent d raw row
  unfolding row_of rejected_row
  row_of-IsConsistent raw (parsed c) row h = score_parsed-IsConsistent raw c row h
  row_of-IsConsistent raw (rejected r) row h = subst (IsConsistent d raw) (ok-injective h) (record {
    tenant = refl;
    conversation = refl;
    hash = refl;
    rejected_iff = (λ e. refl, λ e. refl);
    error_iff = (λ e. λ n. cc, λ e. refl);
    partial_iff = (λ e. absurd (cc), λ e. absurd (e.0 refl));
    no_trajectory = λ e. refl;
  })

  -- Every row carries the ids and the content hash of its document. It is rejected exactly when it has
  -- no overall sentiment, and exactly then it has an error; then it has no trajectory either. It is
  -- partial exactly when it has an overall sentiment and dropped turns.
  pub score_conversation-IsConsistent :
      (raw : Value) (row : Row F)
      → score_conversation f u d score_texts cfg now raw ≡ ok row
      → IsConsistent d raw row
  unfolding score_conversation
  score_conversation-IsConsistent raw row h =
      row_of-IsConsistent raw (parse_conversation u raw) row h

-- `_without_scored_at` of scripts/verify_reproducibility.py
unfoldable pub without_scored_at : {F : Type 0} → Row F → Row F
without_scored_at row = record row { provenance = record (row.provenance) { scored_at = none } }

-- The outcome of a run without its timestamp.
abbrev pub outcome : {F : Type 0} → Result (Row F) → Result (Row F)
outcome (ok row) = ok (without_scored_at row)
outcome (raise e) = raise e

outcome-bind :
    {A : Type 0} {F : Type 0} (m : Result A) (k l : A → Result (Row F))
    → ((a : A) → outcome (k a) ≡ outcome (l a))
    → outcome (m >>= k) ≡ outcome (m >>= l)
outcome-bind (ok a) k l h = h a
outcome-bind (raise e) k l h = refl

module _ (f : Float) (u : Unicode) (d : Digest)
    (score_texts : List String → Result (List (TurnScore f.F))) (cfg : Config f.F) where
  score_parsed-outcome :
      (t t' : DateTime) (raw : Value) (c : ParsedConversation)
      → outcome (score_parsed f u d score_texts cfg t raw c)
        ≡ outcome (score_parsed f u d score_texts cfg t' raw c)
  unfolding score_parsed without_scored_at
  score_parsed-outcome t t' raw c = outcome-bind (score_turns score_texts (to_score cfg c)) _ _ λ a.
      outcome-bind (index_scores [] (to_score cfg c) a) _ _ λ b.
        outcome-bind (traverse (λ t. item b t.index) (customer_turns c)) _ _ λ s.
          outcome-bind (overall_sentiment f cfg s) _ _
            λ o. outcome-bind (sentiment_trajectory f cfg s) _ _ λ r. refl

  row_of-outcome :
      (t t' : DateTime) (raw : Value) (p : ParseResult)
      → outcome (row_of f u d score_texts cfg t raw p)
        ≡ outcome (row_of f u d score_texts cfg t' raw p)
  unfolding row_of rejected_row without_scored_at
  row_of-outcome t t' raw (parsed c) = score_parsed-outcome t t' raw c
  row_of-outcome t t' raw (rejected r) = refl

  -- Two runs over the same document, configuration and scorer agree in everything but the time of
  -- scoring: both raise the same exception, or their rows differ at most in `scored_at`.
  pub score_conversation-reproducible :
      (t t' : DateTime) (raw : Value)
      → outcome (score_conversation f u d score_texts cfg t raw)
        ≡ outcome (score_conversation f u d score_texts cfg t' raw)
  unfolding score_conversation
  score_conversation-reproducible t t' raw = row_of-outcome t t' raw (parse_conversation u raw)
