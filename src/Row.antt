-- ===== src/Row.antt =====
-- src/pipeline/result.py: from a document to a row of results, over any scorer of texts.
pub mod Status
pub mod Reproducible
pub mod Clock
pub mod Customers
pub mod Total
use Prim.Native.String.{◌++◌ as ◌⧺◌}
use sb_poc.Prelude.{
  ℕ, suc, ◌+◌, ◌-◌, ◌/◌, String, ℤ, pos, negsuc, Bool, true, false, Option, none, some, List, [],
  ◌∷◌, ◌++◌, map, Table, lookup, put, ℕ_eq, String_eq, ◌==◌, Result, ok, raise, value_error,
  key_error, ◌>>=◌, traverse, length, keep_if, second, if◌then◌else◌,
}
use sb_poc.Json.{Value, null, obj, get}
use sb_poc.Text.{Unicode, show}
use sb_poc.Float.{Float}
use sb_poc.Config.{Config, MetricParams, metric_params}
use sb_poc.Schema.{
  ParsedTurn, DroppedTurn, ParsedConversation, RejectReason, Rejection, ParseResult, parsed,
  rejected, parse_conversation, customer_turns,
}
use sb_poc.Metrics.{TurnScore, Overall, Trajectory, overall_sentiment, sentiment_trajectory}
use sb_poc.Sentiment.{item}
use sb_poc.Hashing.{Digest, content_hash}

-- A `datetime`: microseconds on its own clock, and the offset of that clock from UTC unless it is naive.
pub record DateTime : Type 0 where
  pub local : ℕ
  pub utc_offset : Option ℤ

abbrev to_utc : ℕ → ℤ → ℕ
to_utc local (pos n) = local - n
to_utc local (negsuc n) = local + suc n

-- The text that `_iso_z` prints is kept as the second that it names. A naive time is read as UTC.
unfoldable pub iso_z : DateTime → ℕ
iso_z t = elim t.utc_offset [
  | none ↦ t.local / second
  | some offset ↦ to_utc t.local offset / second
]

pub record Provenance : Type 0 where
  pub model_name : String
  pub model_revision : String
  pub scored_at : Option ℕ

pub record PerTurn (F : Type 0) : Type 0 where
  pub index : ℕ
  pub seq : Option ℤ
  pub role : String
  pub scored : Bool
  pub label : Option String
  pub score : Option F
  pub confidence : Option F
  pub reason : Option String

pub data RowStatus : Type 0 where
  row_scored row_partial row_rejected : RowStatus

pub data ErrorReason : Type 0 where
  unusable : RejectReason → ErrorReason
  no_customer_turns no_customer_signal max_delivery_exceeded blob_missing : ErrorReason

pub record RowError : Type 0 where
  pub reason : ErrorReason
  pub detail : String

-- A row of `results`. The ids are those of the document, whatever they are.
pub record Row (F : Type 0) : Type 0 where
  pub tenant_id : Value
  pub conversation_id : Value
  pub content_hash : Option String
  pub schema_version : String
  pub provenance : Provenance
  pub params : MetricParams F
  pub status : RowStatus
  pub overall_sentiment : Option (Overall F)
  pub sentiment_trajectory : Option (Trajectory F)
  pub per_turn : List (PerTurn F)
  pub dropped_turns : List DroppedTurn
  pub error : Option RowError

-- `raw.get(key) if isinstance(raw, dict) else None`
abbrev pub id_of : String → Value → Value
id_of key (obj fs) = get key fs
id_of key _ = null

abbrev pub hash_of : Digest → Value → Option String
hash_of d (obj fs) = some (content_hash d (obj fs))
hash_of d _ = none

abbrev pub reason_of : List ParsedTurn → ErrorReason
reason_of [] = no_customer_turns
reason_of (t ∷ ts) = no_customer_signal

module _ {F : Type 0} where
  -- The row that `base` and the rejected branch make up together.
  unfoldable pub rejected_row :
      Config F → DateTime → Value → Value → Option String → ErrorReason → String → Row F
  unfolding metric_params iso_z
  rejected_row cfg now tenant conversation hash reason detail = record {
    tenant_id = tenant;
    conversation_id = conversation;
    content_hash = hash;
    schema_version = cfg.schema_version;
    provenance = record {
      model_name = cfg.model_name;
      model_revision = cfg.model_revision;
      scored_at = some (iso_z now);
    };
    params = metric_params cfg;
    status = row_rejected;
    overall_sentiment = none;
    sentiment_trajectory = none;
    per_turn = [];
    dropped_turns = [];
    error = some (record { reason = reason; detail = detail });
  }

  -- The turns whose texts go to the scorer: the customer's, then the agent's if configured.
  unfoldable pub to_score : Config F → ParsedConversation → List ParsedTurn
  unfolding customer_turns
  to_score cfg c =
      customer_turns c
      ++ (if cfg.score_agent_turns then keep_if (λ t. t.role == "agent") c.turns else [])

  -- `dict(zip(indices, scores, strict=True))`
  unfoldable pub index_scores :
      Table ℕ (TurnScore F) → List ParsedTurn → List (TurnScore F) → Result (Table ℕ (TurnScore F))
  unfolding put
  index_scores acc [] [] = ok acc
  index_scores acc [] (s ∷ ss) = raise value_error
  index_scores acc (t ∷ ts) [] = raise value_error
  index_scores acc (t ∷ ts) (s ∷ ss) = index_scores (put t.index s acc) ts ss

  abbrev pub turn_of : ParsedTurn → TurnScore F → PerTurn F
  turn_of t s = record {
    index = t.index;
    seq = t.seq;
    role = t.role;
    scored = s.scored;
    label = s.label;
    score = s.signed;
    confidence = s.confidence;
    reason = s.reason;
  }

  unfoldable pub per_turns : Table ℕ (TurnScore F) → List ParsedTurn → List (PerTurn F)
  unfolding lookup
  per_turns scores [] = []
  per_turns scores (t ∷ ts) = elim (lookup t.index scores) [
    | none ↦ per_turns scores ts
    | some s ↦ turn_of t s ∷ per_turns scores ts
  ]

  -- `scorer.score_texts(texts) if to_score else []`
  abbrev pub score_turns :
      (List String → Result (List (TurnScore F))) → List ParsedTurn → Result (List (TurnScore F))
  score_turns score_texts [] = ok []
  score_turns score_texts (t ∷ ts) = score_texts (map (λ x. x.text) (t ∷ ts))

  abbrev pub status_of : Option (Overall F) → List DroppedTurn → RowStatus
  status_of none ds = row_rejected
  status_of (some m) [] = row_scored
  status_of (some m) (d ∷ ds) = row_partial

  abbrev pub error_of : Option (Overall F) → List ParsedTurn → Option RowError
  error_of none ts =
      some (record {
        reason = reason_of ts;
        detail = show (length ts) ⧺ " customer turn(s), 0 scored";
      })
  error_of (some m) ts = none

module _ (f : Float) (u : Unicode) (d : Digest)
    (score_texts : List String → Result (List (TurnScore f.F))) where
  open f use {F}

  -- the dict that `score_conversation` returns for a parsed document
  unfoldable pub finished_row :
      Config F
      → DateTime
      → Value
      → ParsedConversation
      → Table ℕ (TurnScore F)
      → Option (Overall F)
      → Option (Trajectory F)
      → Row F
  unfolding metric_params iso_z
  finished_row cfg now raw c scores overall trajectory = record {
    tenant_id = id_of "tenant_id" raw;
    conversation_id = id_of "conversation_id" raw;
    content_hash = hash_of d raw;
    schema_version = cfg.schema_version;
    provenance = record {
      model_name = cfg.model_name;
      model_revision = cfg.model_revision;
      scored_at = some (iso_z now);
    };
    params = metric_params cfg;
    status = status_of overall c.dropped_turns;
    overall_sentiment = overall;
    sentiment_trajectory = trajectory;
    per_turn = per_turns scores c.turns;
    dropped_turns = c.dropped_turns;
    error = error_of overall (customer_turns c);
  }

  -- `score_conversation` of a parsed document
  unfoldable pub score_parsed : Config F → DateTime → Value → ParsedConversation → Result (Row F)
  unfolding finished_row
  score_parsed cfg now raw c = do
    let turns = to_score cfg c
    turn_scores ← score_turns score_texts turns
    scores ← index_scores [] turns turn_scores
    customer_scores ← traverse (λ t. item scores t.index) (customer_turns c)
    overall ← overall_sentiment f cfg customer_scores
    trajectory ← sentiment_trajectory f cfg customer_scores
    ok (finished_row cfg now raw c scores overall trajectory)

  -- `score_conversation` from the test of the parsed document on
  unfoldable pub row_of : Config F → DateTime → Value → ParseResult → Result (Row F)
  unfolding rejected_row
  row_of cfg now raw (rejected r) = ok (
      rejected_row cfg now (id_of "tenant_id" raw) (id_of "conversation_id" raw) (hash_of d raw)
        (unusable r.reason) r.detail)
  row_of cfg now raw (parsed c) = score_parsed cfg now raw c

  unfoldable pub score_conversation : Config F → DateTime → Value → Result (Row F)
  unfolding parse_conversation row_of
  score_conversation cfg now raw = row_of cfg now raw (parse_conversation u raw)
