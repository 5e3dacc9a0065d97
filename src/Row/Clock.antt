-- ===== src/Row/Clock.antt =====
-- result.py, score_conversation: the timestamp of a row.
use sb_poc.Prelude.{
  String, some, List, [], ◌≡◌, sym, ap, ℕ_eq, Result, ok, >>=-eq-ok, ok-injective, traverse,
}
use sb_poc.Json.{Value}
use sb_poc.Text.{Unicode}
use sb_poc.Float.{Float}
use sb_poc.Config.{Config}
use sb_poc.Schema.{
  ParsedConversation, ParseResult, parsed, rejected, parse_conversation, customer_turns,
}
use sb_poc.Metrics.{TurnScore, overall_sentiment, sentiment_trajectory}
use sb_poc.Sentiment.{item}
use sb_poc.Hashing.{Digest}
use sb_poc.Row.{
  Row, DateTime, rejected_row, to_score, index_scores, score_turns, score_parsed, row_of,
  score_conversation, iso_z,
}

module _ (f : Float) (u : Unicode) (d : Digest)
    (score_texts : List String → Result (List (TurnScore f.F))) (cfg : Config f.F)
    (now : DateTime) where
  open f use {F}

  score_parsed-scored_at :
      (raw : Value) (c : ParsedConversation) (row : Row F)
      → score_parsed f u d score_texts cfg now raw c ≡ ok row
      → row.provenance.scored_at ≡ some (iso_z now)
  unfolding score_parsed
  score_parsed-scored_at raw c row h =
      let (turn_scores, _, h1) = >>=-eq-ok (score_turns score_texts (to_score cfg c)) _ h in
      let (scores, _, h2) = >>=-eq-ok (index_scores [] (to_score cfg c) turn_scores) _ h1 in
      let (customer, _, h3) =
        >>=-eq-ok (traverse (λ t. item scores t.index) (customer_turns c)) _ h2 in
      let (o, _, h4) = >>=-eq-ok (overall_sentiment f cfg customer) _ h3 in
      let (t, _, h5) = >>=-eq-ok (sentiment_trajectory f cfg customer) _ h4 in
      sym (ap (λ r. r.provenance.scored_at) (ok-injective h5))

  row_of-scored_at :
      (raw : Value) (p : ParseResult) (row : Row F)
      → row_of f u d score_texts cfg now raw p ≡ ok row
      → row.provenance.scored_at ≡ some (iso_z now)
  unfolding row_of rejected_row
  row_of-scored_at raw (parsed c) row h = score_parsed-scored_at raw c row h
  row_of-scored_at raw (rejected r) row h = sym (ap (λ r. r.provenance.scored_at) (ok-injective h))

  pub score_conversation-scored_at :
      (raw : Value) (row : Row F)
      → score_conversation f u d score_texts cfg now raw ≡ ok row
      → row.provenance.scored_at ≡ some (iso_z now)
  unfolding score_conversation
  score_conversation-scored_at raw row h = row_of-scored_at raw (parse_conversation u raw) row h
