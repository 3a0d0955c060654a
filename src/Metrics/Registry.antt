-- ===== src/Metrics/Registry.antt =====
-- internal/metrics/prometheus.go: what the calls do. The vectors of Prometheus are third-party code; a
-- call to one is a sample with the metric's name, the label values and the value.
pub mod Kinds
mod Live
pub mod Gauge
use kagents.Prelude.{
  ℕ, zero, suc, String, Bool, true, false, List, [], ◌∷◌, ◌<>◌, contains, if◌then◌else◌,
}
use kagents.Api.Status.{Time}
use kagents.Metrics.{
  Metric, record_team_start, record_team_complete, record_team_failed, record_token_usage,
  record_task_completed, set_active_teams, record_teammate_restart, set_pipeline_stage_active,
  observe_pipeline_stage_duration, record_artifact_produced, record_delivery_success,
  record_delivery_failure, Amount, record_cost, set_budget_remaining,
}

-- The integers that a gauge goes through.
pub data ℤ : Type 0 where
  pos : ℕ → ℤ
  negsuc : ℕ → ℤ

abbrev pub inc : ℤ → ℤ
inc (pos n) = pos (suc n)
inc (negsuc zero) = pos 0
inc (negsuc (suc n)) = negsuc n

abbrev pub dec : ℤ → ℤ
dec (pos zero) = negsuc 0
dec (pos (suc n)) = pos n
dec (negsuc n) = negsuc (suc n)

pub data Value (F : Type 0) : Type 0 where
  whole : ℕ → Value F
  flag : Bool → Value F
  -- seconds, from nanoseconds and between two times
  seconds : ℕ → Value F
  between : Time → Time → Value F
  float : F → Value F

pub data Sample (F : Type 0) : Type 0 where
  inc_one : String → List String → Sample F
  add : String → List String → Value F → Sample F
  set : String → List String → Value F → Sample F
  observe : String → List String → Value F → Sample F

-- The state of the package.
pub record Registry (F : Type 0) : Type 0 where
  pub started_teams : List String
  pub finished_teams : List String
  pub team_active : ℤ
  pub samples : List (Sample F)

unfoldable pub team_key : String → String → String
team_key name namespace = namespace <> "/" <> name

-- LoadOrStore of a sync.Map that is a set: whether the key was there, and the set.
abbrev pub load_or_store : String → List String → Bool × List String
load_or_store key keys = (contains key keys, if contains key keys then keys else key ∷ keys)

module _ {F : Type 0} where
  abbrev sampled : Sample F → Registry F → Registry F
  sampled sample reg = record reg { samples = sample ∷ reg.samples }

  -- Inc, unless the team has been seen.
  started : Bool × List String → Registry F → Registry F
  started (true, teams) reg = reg
  started (false, teams) reg = record reg {
    started_teams = teams;
    team_active = inc reg.team_active;
  }

  -- Dec, unless the team has been seen, and what else the first call records.
  finished : Bool × List String → (Registry F → Registry F) → Registry F → Registry F
  finished (true, teams) also reg = reg
  finished (false, teams) also reg =
      also (record reg { finished_teams = teams; team_active = dec reg.team_active })

  unfoldable pub apply : Metric → Registry F → Registry F
  unfolding started finished
  apply (record_team_start name namespace) reg =
      started (load_or_store (team_key name namespace) reg.started_teams) reg
  apply (record_team_complete name namespace duration) reg =
      finished (load_or_store (team_key name namespace) reg.finished_teams)
        (sampled
          (observe "claude_team_duration_seconds" (name ∷ namespace ∷ []) (seconds duration)))
        reg
  apply (record_team_failed name namespace) reg =
      finished (load_or_store (team_key name namespace) reg.finished_teams) (λ r. r) reg
  apply (record_token_usage team teammate model tokens) reg =
      sampled (add "claude_teammate_tokens_total" (team ∷ teammate ∷ model ∷ []) (whole tokens)) reg
  apply (record_task_completed team teammate) reg =
      sampled (inc_one "claude_team_tasks_completed_total" (team ∷ teammate ∷ [])) reg
  apply (set_active_teams count) reg = record reg { team_active = pos count }
  apply (record_teammate_restart team teammate) reg =
      sampled (inc_one "claude_teammate_restarts_total" (team ∷ teammate ∷ [])) reg
  apply (set_pipeline_stage_active team namespace stage active) reg =
      sampled
        (set "kagents_team_pipeline_stage_active" (team ∷ namespace ∷ stage ∷ []) (flag active)) reg
  apply (observe_pipeline_stage_duration team namespace stage from until) reg =
      sampled
        (observe "kagents_team_stage_duration_seconds" (team ∷ namespace ∷ stage ∷ [])
          (between from until))
        reg
  apply (record_artifact_produced team namespace teammate) reg =
      sampled (inc_one "kagents_team_artifacts_produced_total" (team ∷ namespace ∷ teammate ∷ []))
        reg
  apply (record_delivery_success team namespace delivery_type) reg =
      sampled
        (inc_one "kagents_team_delivery_success_total" (team ∷ namespace ∷ delivery_type ∷ [])) reg
  apply (record_delivery_failure team namespace delivery_type) reg =
      sampled
        (inc_one "kagents_team_delivery_failure_total" (team ∷ namespace ∷ delivery_type ∷ [])) reg

  unfoldable pub apply_amount : Amount F → Registry F → Registry F
  apply_amount (record_cost team namespace cost) =
      sampled (set "claude_team_cost_usd" (team ∷ namespace ∷ []) (float cost))
  apply_amount (set_budget_remaining team namespace remaining) =
      sampled (set "claude_team_budget_remaining_usd" (team ∷ namespace ∷ []) (float remaining))

  unfoldable pub apply_all : List Metric → Registry F → Registry F
  apply_all [] reg = reg
  apply_all (call ∷ calls) reg = apply_all calls (apply call reg)

  -- A process that has just started.
  abbrev pub fresh : Registry F
  fresh = record { started_teams = []; finished_teams = []; team_active = pos 0; samples = [] }
