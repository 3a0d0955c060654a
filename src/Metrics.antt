-- ===== src/Metrics.antt =====
-- The calls of internal/metrics as values: a call has no result.
pub mod Registry
use kagents.Prelude.{ℕ, String, Bool}
use kagents.Api.Status.{Time}

pub data Metric : Type 0 where
  record_team_start : String → String → Metric
  -- with the nanoseconds since the start
  record_team_complete : String → String → ℕ → Metric
  record_team_failed : String → String → Metric
  record_token_usage : String → String → String → ℕ → Metric
  record_task_completed : String → String → Metric
  set_active_teams : ℕ → Metric
  record_teammate_restart : String → String → Metric
  set_pipeline_stage_active : String → String → String → Bool → Metric
  -- from the start to the completion of the stage
  observe_pipeline_stage_duration : String → String → String → Time → Time → Metric
  record_artifact_produced : String → String → String → Metric
  record_delivery_success : String → String → String → Metric
  record_delivery_failure : String → String → String → Metric

-- The gauges and counters that take a float64 amount.
pub data Amount (F : Type 0) : Type 0 where
  record_cost : String → String → F → Amount F
  set_budget_remaining : String → String → F → Amount F
