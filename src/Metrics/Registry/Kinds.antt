-- ===== src/Metrics/Registry/Kinds.antt =====
-- The calls of internal/metrics by what they mean for the gauge of active teams.
use kagents.Prelude.{◌≡◌, String, Bool, true, false, List, [], ◌∷◌, ◌==◌, ◌||◌, contains}
use kagents.Metrics.{
  Metric, record_team_start, record_team_complete, record_team_failed, record_token_usage,
  record_task_completed, set_active_teams, record_teammate_restart, set_pipeline_stage_active,
  observe_pipeline_stage_duration, record_artifact_produced, record_delivery_success,
  record_delivery_failure,
}
use kagents.Metrics.Registry.{team_key}

-- What a call means for the gauge.
pub data Kind : Type 0 where
  starts : String → Kind
  finishes : String → Kind
  overrides : Kind
  elsewhere : Kind

abbrev pub kind_of : Metric → Kind
kind_of (record_team_start name namespace) = starts (team_key name namespace)
kind_of (record_team_complete name namespace duration) = finishes (team_key name namespace)
kind_of (record_team_failed name namespace) = finishes (team_key name namespace)
kind_of (record_token_usage team teammate model tokens) = elsewhere
kind_of (record_task_completed team teammate) = elsewhere
kind_of (set_active_teams count) = overrides
kind_of (record_teammate_restart team teammate) = elsewhere
kind_of (set_pipeline_stage_active team namespace stage active) = elsewhere
kind_of (observe_pipeline_stage_duration team namespace stage from until) = elsewhere
kind_of (record_artifact_produced team namespace teammate) = elsewhere
kind_of (record_delivery_success team namespace delivery_type) = elsewhere
kind_of (record_delivery_failure team namespace delivery_type) = elsewhere

abbrev pub IsTurn : List String → Kind → Type 0
IsTurn seen (starts key) = Unit {0}
IsTurn seen (finishes key) = contains key seen ≡ true
IsTurn seen overrides = ⊥
IsTurn seen elsewhere = Unit {0}

abbrev pub seen_after : List String → Kind → List String
seen_after seen (starts key) = key ∷ seen
seen_after seen (finishes key) = seen
seen_after seen overrides = seen
seen_after seen elsewhere = seen

-- A team is finished after it was started, and nobody sets the gauge.
abbrev pub InTurn : List String → List Metric → Type 0
InTurn seen [] = Unit {0}
InTurn seen (call ∷ calls) =
    IsTurn seen (kind_of call) × InTurn (seen_after seen (kind_of call)) calls

abbrev pub starts_key : String → Kind → Bool
starts_key key (starts other) = key == other
starts_key key (finishes other) = false
starts_key key overrides = false
starts_key key elsewhere = false

abbrev pub finishes_key : String → Kind → Bool
finishes_key key (finishes other) = key == other
finishes_key key (starts other) = false
finishes_key key overrides = false
finishes_key key elsewhere = false

abbrev pub is_started : String → List Metric → Bool
is_started key [] = false
is_started key (call ∷ calls) = starts_key key (kind_of call) || is_started key calls

abbrev pub is_finished : String → List Metric → Bool
is_finished key [] = false
is_finished key (call ∷ calls) = finishes_key key (kind_of call) || is_finished key calls

abbrev pub Distinct : List String → Type 0
Distinct [] = Unit {0}
Distinct (key ∷ keys) = (contains key keys ≡ false) × Distinct keys
