-- ===== src/Tests/Settings.antt =====
-- A sample environment.
use sb_poc.Prelude.{negsuc, true, arith, ok, String, String_eq, ℤ, pos, ◌≡◌, refl, Result, [], ◌∷◌}
use sb_poc.Config.Env.{
  FloatDefaults, from_env, coerce_roles, coerce_int, strip_text, split_commas, lstrip_text,
  rstrip_text,
}
use sb_poc.Text.{is_space, show}
use sb_poc.Config.{Config}
use sb_poc.Text.Stripped.{DigitLaws}
use sb_poc.Config.Env.Printed.{LowerLaws, IsPrintable, printed_env, from_env-printed_env}
use sb_poc.Tests.Samples.{ascii}

abbrev pub float_defaults : FloatDefaults ℤ
float_defaults = record {
  recency_lambda = pos 0;
  label_threshold = pos 0;
  trajectory_divisor = pos 2;
  poll_idle_seconds = pos 1;
}

abbrev pub whole : String → Result ℤ
whole raw = coerce_int ascii raw

roles : coerce_roles " customer, ,agent " ≡ ("customer" ∷ "agent" ∷ [])
unfolding coerce_roles strip_text split_commas lstrip_text rstrip_text is_space
roles = refl

-- Floats as the texts that they are printed as.
abbrev text_defaults : FloatDefaults String
text_defaults = record {
  recency_lambda = "0.5";
  label_threshold = "0.15";
  trajectory_divisor = "2.0";
  poll_idle_seconds = "1.0";
}

abbrev settings : Config String
settings = record {
  model_name = "model";
  model_revision = "1";
  max_tokens = pos 64;
  batch_size = negsuc 0;
  empty_text_policy = " skip ";
  recency_lambda = "0.25";
  label_threshold = "0.2";
  trajectory_divisor = "3.0";
  meaningful_min_turns = pos 12;
  roles_in_metrics = "customer" ∷ "agent" ∷ [];
  score_agent_turns = true;
  lease_seconds = pos 5;
  max_delivery = pos 0;
  claim_batch = pos 7;
  poll_idle_seconds = "0.5";
  database_url = "postgresql://db";
  schema_version = "2";
}

ascii-DigitLaws : DigitLaws ascii
ascii-DigitLaws = record { decimal_ascii = λ d h. ground (arith, h) }

ascii-LowerLaws : LowerLaws ascii
ascii-LowerLaws = record { lower_bool = λ b. refl }

settings-IsPrintable : IsPrintable (λ x. x) settings
unfolding show is_space
settings-IsPrintable = record {
  max_tokens = omega arith;
  batch_size = omega arith;
  min_turns = omega arith;
  lease = omega arith;
  max_delivery = omega arith;
  claim_batch = omega arith;
  roles = ((refl, refl), ((refl, refl), tt));
}

from_env-printed_env_example :
    from_env ascii ok text_defaults (printed_env (λ x. x) settings) ≡ ok settings
from_env-printed_env_example =
    from_env-printed_env ascii ascii-DigitLaws ascii-LowerLaws ok (λ x. x) text_defaults settings
      (λ a. refl) settings-IsPrintable
