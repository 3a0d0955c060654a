-- ===== src/Team/Pipeline.antt =====
-- updatePipelineStatus of agentteam_controller.go.
pub mod Phases
pub mod Summary
use kagents.Prelude.{
  ℕ, suc, String, Bool, true, false, not, Option, none, some, List, [], ◌∷◌, ◌++◌, ◌==◌, ◌<>◌, ◌&&◌,
  ◌||◌, Dict, lookup_or, insert, contains, length, eqb, ltb, is_some, show_nat, if◌then◌else◌,
}
use kagents.Api.Spec.{StageSpec, PipelineSpec}
use kagents.Api.Status.{Time, TeammateStatus, StageStatus, PipelineStatus}
use kagents.Api.Resources.{AgentTeam}
use kagents.Metrics.{Metric, set_pipeline_stage_active, observe_pipeline_stage_duration}
use kagents.Team.Order.{stage_approval_granted}

-- The map `phase`: teammate phases by name, a later entry over an earlier one.
unfoldable pub index_phases : Dict String → List TeammateStatus → Dict String
index_phases phase [] = phase
index_phases phase (st ∷ rest) = index_phases (insert st.name st.phase phase) rest

unfoldable pub index_stage_statuses : Dict StageStatus → List StageStatus → Dict StageStatus
index_stage_statuses prev [] = prev
index_stage_statuses prev (ss ∷ rest) = index_stage_statuses (insert ss.name ss prev) rest

-- StageStatus{}
abbrev pub zero_stage : StageStatus
zero_stage = record {
  name = "";
  phase = "";
  started_at = none;
  completed_at = none;
  teammates_ready = "";
}

pub record Tally : Type 0 where
  pub ready : ℕ
  pub any_failed : Bool
  pub any_spawned : Bool

-- The switch on one teammate's phase.
abbrev pub tally_phase : String → Tally → Tally
tally_phase phase t =
    if phase == "Completed"
    then record t { ready = suc t.ready; any_spawned = true }
    else if phase == "Failed"
    then record t { any_failed = true; any_spawned = true }
    else if phase == "Running" || phase == "Pending"
    then record t { any_spawned = true }
    else t

unfoldable pub tally_teammates : Dict String → Tally → List String → Tally
tally_teammates phases t [] = t
tally_teammates phases t (name ∷ names) =
    tally_teammates phases (tally_phase (lookup_or "" name phases) t) names

abbrev pub zero_tally : Tally
zero_tally = record { ready = 0; any_failed = false; any_spawned = false }

-- Every stage that this one depends on is among those found completed so far.
unfoldable pub upstream_ready : List String → List String → Bool
upstream_ready completed [] = true
upstream_ready completed (dep ∷ deps) = contains dep completed && upstream_ready completed deps

-- The switch that picks the phase of a stage.
unfoldable pub stage_phase : AgentTeam → StageSpec → Tally → Bool → String
stage_phase team s t upstream =
    if t.any_failed
    then "Failed"
    else if eqb t.ready (length s.teammates) && ltb 0 (length s.teammates)
    then "Completed"
    else if not upstream
    then "Waiting"
    else if s.approval_required && not (stage_approval_granted team s)
    then "PendingApproval"
    else if t.any_spawned
    then "Running"
    else "Waiting"

-- A time that is set once and then kept.
abbrev pub set_once : Option Time → Time → Option Time
set_once none now = some now
set_once (some t) now = some t

-- The status of a stage with its new phase: entering Completed or Running sets a time.
unfoldable pub stage_status : StageStatus → StageSpec → Tally → String → Time → StageStatus
stage_status prev s t phase now = record {
  name = s.name;
  phase = phase;
  started_at = if phase == "Running" then set_once prev.started_at now else prev.started_at;
  completed_at = if phase == "Completed" then set_once prev.completed_at now else prev.completed_at;
  teammates_ready = show_nat t.ready <> "/" <> show_nat (length s.teammates);
}

duration_metric : AgentTeam → String → Option Time → Option Time → List Metric
duration_metric team stage (some started) (some completed) =
    observe_pipeline_stage_duration team.meta.name team.meta.namespace stage started completed ∷ []
duration_metric team stage started completed = []

unfoldable pub stage_metrics : AgentTeam → String → StageStatus → List Metric
unfolding duration_metric
stage_metrics team prev_phase ss =
    set_pipeline_stage_active team.meta.name team.meta.namespace ss.name (ss.phase == "Running")
    ∷ (if not (prev_phase == "Completed") && ss.phase == "Completed"
        then duration_metric team ss.name ss.started_at ss.completed_at
        else [])

-- The variables of the loop over the stages.
pub record Progress : Type 0 where
  pub stages : List StageStatus
  pub stage_completed : List String
  pub completed : ℕ
  pub current_stage : String
  pub metrics : List Metric

abbrev pub start : Progress
start = record {
  stages = [];
  stage_completed = [];
  completed = 0;
  current_stage = "";
  metrics = [];
}

-- One round of the loop, with the stage's new status handed over.
unfoldable pub record_stage : AgentTeam → StageSpec → String → StageStatus → Progress → Progress
record_stage team s prev_phase ss p = record {
  stages = p.stages ++ ss ∷ [];
  stage_completed =
      if ss.phase == "Completed" then s.name ∷ p.stage_completed else p.stage_completed;
  completed = if ss.phase == "Completed" then suc p.completed else p.completed;
  current_stage =
      if not (ss.phase == "Completed") && p.current_stage == "" then s.name else p.current_stage;
  metrics = p.metrics ++ stage_metrics team prev_phase ss;
}

unfoldable pub refresh_stage :
    AgentTeam → Dict String → Dict StageStatus → Time → List String → StageSpec → StageStatus
refresh_stage team phases prev now completed s =
    let t = tally_teammates phases zero_tally s.teammates in
    stage_status (lookup_or zero_stage s.name prev) s t
      (stage_phase team s t (upstream_ready completed s.depends_on)) now

unfoldable pub run_stages :
    AgentTeam → Dict String → Dict StageStatus → Time → Progress → List StageSpec → Progress
run_stages team phases prev now p [] = p
run_stages team phases prev now p (s ∷ rest) =
    run_stages team phases prev now
      (record_stage team s (lookup_or zero_stage s.name prev).phase
        (refresh_stage team phases prev now p.stage_completed s) p)
      rest

abbrev stage_statuses : Option PipelineStatus → List StageStatus
stage_statuses none = []
stage_statuses (some status) = status.stages

-- The new pipeline status and the metrics recorded on the way.
refresh_pipeline : AgentTeam → Time → Option PipelineSpec → Option PipelineStatus × List Metric
refresh_pipeline team now none = (none, [])
refresh_pipeline team now (some pipeline) = elim pipeline.stages [
  | [] ↦ (none, [])
  | s ∷ rest ↦
      let p =
        run_stages team (index_phases [] team.status.teammates)
          (index_stage_statuses [] (stage_statuses team.status.pipeline)) now start (s ∷ rest) in
      (
        some (record {
          current_stage = p.current_stage;
          stages_completed = p.completed;
          stages_total = length (s ∷ rest);
          stages = p.stages;
        }),
        p.metrics,
      )
]

unfoldable pub update_pipeline_status : AgentTeam → Time → Option PipelineStatus × List Metric
unfolding refresh_pipeline
update_pipeline_status team now = refresh_pipeline team now team.spec.pipeline
