-- ===== src/Config/Env.antt =====
-- src/pipeline/config.py, from_env and _coerce: the configuration that the environment asks for.
pub mod Printed
use sb_poc.Prelude.{
  ℕ, ℕ_eq, String, String_eq, ℤ, pos, Bool, true, false, ◌||◌, Option, none, some, List, [], ◌∷◌,
  map, keep_if, not, ◌==◌, Result, ok, raise, value_error, ◌>>=◌, if◌then◌else◌,
}
use Prim.Native.Char.{Char, code}
use sb_poc.Text.{Unicode, codes, is_space, strip, int_of}
use sb_poc.Config.{Config}

-- The floats among the defaults of the class: 0.5, 0.15, 2.0 and 1.0.
pub record FloatDefaults (F : Type 0) : Type 0 where
  pub recency_lambda : F
  pub label_threshold : F
  pub trajectory_divisor : F
  pub poll_idle_seconds : F

unfoldable pub defaults : {F : Type 0} → FloatDefaults F → Config F
defaults x = record {
  model_name = "cardiffnlp/twitter-roberta-base-sentiment-latest";
  model_revision = "3216a57f2a0d9c45a2e6c20157c20c49fb4bf9c7";
  max_tokens = pos 512;
  batch_size = pos 32;
  empty_text_policy = "excluded";
  recency_lambda = x.recency_lambda;
  label_threshold = x.label_threshold;
  trajectory_divisor = x.trajectory_divisor;
  meaningful_min_turns = pos 3;
  roles_in_metrics = "customer" ∷ [];
  score_agent_turns = false;
  lease_seconds = pos 60;
  max_delivery = pos 3;
  claim_batch = pos 16;
  poll_idle_seconds = x.poll_idle_seconds;
  database_url = "postgresql://sb:sb@localhost:5432/sb";
  schema_version = "1.0.0";
}

-- `text.strip()`, on texts
unfoldable pub lstrip_text : String → String
unfolding is_space
lstrip_text String.[] = ""
lstrip_text (String.◌∷◌ c s) = if is_space (code c) then lstrip_text s else String.◌∷◌ c s

abbrev pub prepend_unless_blank : Char → String → String
prepend_unless_blank c String.[] = if is_space (code c) then "" else String.◌∷◌ c ""
prepend_unless_blank c s = String.◌∷◌ c s

unfoldable pub rstrip_text : String → String
unfolding is_space
rstrip_text String.[] = ""
rstrip_text (String.◌∷◌ c s) = prepend_unless_blank c (rstrip_text s)

unfoldable pub strip_text : String → String
unfolding lstrip_text rstrip_text
strip_text s = rstrip_text (lstrip_text s)

-- A character in front of the first part.
abbrev pub extend : Char → List String → List String
extend c [] = String.◌∷◌ c "" ∷ []
extend c (p ∷ ps) = String.◌∷◌ c p ∷ ps

-- `raw.split(",")`
unfoldable pub split_commas : String → List String
split_commas String.[] = "" ∷ []
split_commas (String.◌∷◌ c s) =
    let rest = split_commas s in if code c == b',' then "" ∷ rest else extend c rest

-- `_coerce`, by the type of the field
unfoldable pub coerce_roles : String → List String
unfolding strip_text split_commas
coerce_roles raw = keep_if (λ p. not (p == "")) (map strip_text (split_commas raw))

unfoldable pub coerce_bool : Unicode → String → Bool
unfolding strip_text
coerce_bool u raw =
    let t = u.lower (strip_text raw) in t == "1" || t == "true" || t == "yes" || t == "on"

abbrev pub or_value_error : Option ℤ → Result ℤ
or_value_error none = raise value_error
or_value_error (some z) = ok z

unfoldable pub coerce_int : Unicode → String → Result ℤ
coerce_int u raw = or_value_error (int_of u (strip (codes raw)))

-- A variable that is not set leaves the default.
abbrev pub or_coerced : {A : Type 0} → Option String → A → (String → Result A) → Result A
or_coerced none default coerce = ok default
or_coerced (some raw) default coerce = coerce raw

abbrev pub or_value : {A : Type 0} → Option String → A → (String → A) → A
or_value none default coerce = default
or_value (some raw) default coerce = coerce raw

module _ {F : Type 0} (u : Unicode) (parse_float : String → Result F) (x : FloatDefaults F) where
  -- The instance, from the values of its numbers; the other fields read any text.
  unfoldable pub configured :
      (String → Option String) → ℤ → ℤ → F → F → F → ℤ → ℤ → ℤ → ℤ → F → Config F
  unfolding defaults coerce_roles coerce_bool
  configured env max_tokens batch_size lambda threshold divisor min_turns lease max_delivery batch
        idle =
      let d = defaults x in
      record {
        model_name = or_value (env "SB_MODEL_NAME") d.model_name (λ raw. raw);
        model_revision = or_value (env "SB_MODEL_REVISION") d.model_revision (λ raw. raw);
        max_tokens = max_tokens;
        batch_size = batch_size;
        empty_text_policy = or_value (env "SB_EMPTY_TEXT_POLICY") d.empty_text_policy (λ raw. raw);
        recency_lambda = lambda;
        label_threshold = threshold;
        trajectory_divisor = divisor;
        meaningful_min_turns = min_turns;
        roles_in_metrics = or_value (env "SB_ROLES_IN_METRICS") d.roles_in_metrics coerce_roles;
        score_agent_turns =
            or_value (env "SB_SCORE_AGENT_TURNS") d.score_agent_turns (coerce_bool u);
        lease_seconds = lease;
        max_delivery = max_delivery;
        claim_batch = batch;
        poll_idle_seconds = idle;
        database_url = or_value (env "SB_DATABASE_URL") d.database_url (λ raw. raw);
        schema_version = or_value (env "SB_SCHEMA_VERSION") d.schema_version (λ raw. raw);
      }

  -- `from_env`: the fields that are numbers, in the order of the class; `parse_float` is Python's `float` on a text.
  unfoldable pub from_env : (String → Option String) → Result (Config F)
  unfolding configured coerce_int
  from_env env = do
    let d = defaults x
    max_tokens ← or_coerced (env "SB_MAX_TOKENS") d.max_tokens (coerce_int u)
    batch_size ← or_coerced (env "SB_BATCH_SIZE") d.batch_size (coerce_int u)
    recency_lambda ← or_coerced (env "SB_RECENCY_LAMBDA") d.recency_lambda parse_float
    label_threshold ← or_coerced (env "SB_LABEL_THRESHOLD") d.label_threshold parse_float
    trajectory_divisor ← or_coerced (env "SB_TRAJECTORY_DIVISOR") d.trajectory_divisor parse_float
    min_turns ← or_coerced (env "SB_MEANINGFUL_MIN_TURNS") d.meaningful_min_turns (coerce_int u)
    lease_seconds ← or_coerced (env "SB_LEASE_SECONDS") d.lease_seconds (coerce_int u)
    max_delivery ← or_coerced (env "SB_MAX_DELIVERY") d.max_delivery (coerce_int u)
    claim_batch ← or_coerced (env "SB_CLAIM_BATCH") d.claim_batch (coerce_int u)
    idle ← or_coerced (env "SB_POLL_IDLE_SECONDS") d.poll_idle_seconds parse_float
    ok (
        configured env max_tokens batch_size recency_lambda label_threshold trajectory_divisor
          min_turns lease_seconds max_delivery claim_batch idle)
