-- ===== src/Config.antt =====
-- src/pipeline/config.py: the configuration, and the part of it that every result row repeats.
pub mod Env
use sb_poc.Prelude.{String, ℤ, Bool, List}

pub record Config (F : Type 0) : Type 0 where
  pub model_name : String
  pub model_revision : String
  pub max_tokens : ℤ
  pub batch_size : ℤ
  pub empty_text_policy : String
  pub recency_lambda : F
  pub label_threshold : F
  pub trajectory_divisor : F
  pub meaningful_min_turns : ℤ
  pub roles_in_metrics : List String
  pub score_agent_turns : Bool
  pub lease_seconds : ℤ
  pub max_delivery : ℤ
  pub claim_batch : ℤ
  pub poll_idle_seconds : F
  pub database_url : String
  pub schema_version : String

-- The dict of `metric_params`.
pub record MetricParams (F : Type 0) : Type 0 where
  pub signed_score : String
  pub overall_method : String
  pub overall_lambda : F
  pub overall_label_threshold : F
  pub trajectory_method : String
  pub trajectory_b : F
  pub trajectory_meaningful_min_turns : ℤ
  pub params_empty_text_policy : String
  pub params_roles_in_metrics : List String

module _ {F : Type 0} where
  unfoldable pub metric_params : Config F → MetricParams F
  metric_params c = record {
    signed_score = "p_pos - p_neg";
    overall_method = "recency_confidence_weighted_mean";
    overall_lambda = c.recency_lambda;
    overall_label_threshold = c.label_threshold;
    trajectory_method = "tanh_ols_slope_norm_position";
    trajectory_b = c.trajectory_divisor;
    trajectory_meaningful_min_turns = c.meaningful_min_turns;
    params_empty_text_policy = c.empty_text_policy;
    params_roles_in_metrics = c.roles_in_metrics;
  }
