-- ===== src/Examples/Statuses.antt =====
-- Conditions, restarts, artifacts and pipeline statuses at concrete inputs.
use kagents.Prelude.{
  ◌≡◌, ◌≢◌, ◌↔◌, refl, String, true, Dict, some, [], ◌∷◌, All, In, if◌then◌else◌, ◌==◌, ◌&&◌,
}
use kagents.Api.Status.{PipelineStatus}
use kagents.Team.Restarts.{
  teammate_restart_count, set_teammate_restart_count, set_teammate_pending_approval,
  clear_teammate_pending_approval,
}
use kagents.Team.Conditions.{
  progressing, set_condition, budget_warning_sent, mark_budget_warning_sent,
}
use kagents.Team.Conditions.Laws.{
  find_condition, transition_time, set_condition_exact, budget_warning_sent-set_condition,
}
use kagents.Team.Order.{stage_approval_granted}
use kagents.Team.Pipeline.Phases.{AnyFailed, PhaseIs, refresh_stage_outcome}
use kagents.Team.Restarts.Laws.{
  has_teammate, restart_count-set, pending_approval, pending_approval-clear-set,
}
use kagents.Team.Artifacts.{record_teammate_artifacts}
use kagents.Team.Artifacts.Laws.{record_teammate_artifacts_idem}
use kagents.Team.Pipeline.{refresh_stage, update_pipeline_status}
use kagents.Team.Pipeline.Summary.{
  stages_after, first_open, count_completed, completed_names, RunsInTurn,
  update_pipeline_status_summary, update_pipeline_status-RunsInTurn,
}
use kagents.Examples.Data.{staged_team, researcher, research_stage, writing_stage}

record_teammate_artifacts_example :
    record_teammate_artifacts (record_teammate_artifacts [] researcher 1) researcher 2
    ≡ record_teammate_artifacts [] researcher 1
record_teammate_artifacts_example = record_teammate_artifacts_idem [] researcher 1 2

restart_count_example :
    teammate_restart_count
      (set_teammate_restart_count staged_team.status.teammates "writer" 2)
      "writer"
    ≡ (if "writer" == "writer" && has_teammate staged_team.status.teammates "writer"
        then 2
        else teammate_restart_count staged_team.status.teammates "writer")
restart_count_example = restart_count-set staged_team.status.teammates "writer" "writer" 2

update_pipeline_status_example :
    let stages = stages_after staged_team 9 (research_stage ∷ writing_stage ∷ []) in
    (update_pipeline_status staged_team 9).0
    ≡ some (record {
      current_stage = first_open stages;
      stages_completed = count_completed stages;
      stages_total = 2;
      stages = stages;
    })
update_pipeline_status_example =
    update_pipeline_status_summary staged_team 9 research_stage (writing_stage ∷ []) refl

stages_in_turn_example :
    (st : PipelineStatus) × ((update_pipeline_status staged_team 9).0 ≡ some st)
    × RunsInTurn staged_team
        (completed_names st.stages)
        (research_stage ∷ writing_stage ∷ [])
        st.stages
stages_in_turn_example =
    update_pipeline_status-RunsInTurn staged_team 9 research_stage (writing_stage ∷ []) refl

set_condition_example :
    let cs = mark_budget_warning_sent 1 "80% reached" [] in
    (find_condition progressing (set_condition 2 "True" "Running" "" cs)
      ≡ some (record {
        type = progressing;
        status = "True";
        reason = "Running";
        message = "";
        last_transition_time = transition_time 2 "True" (find_condition progressing cs);
      }))
    × ((t : String)
        → t ≢ progressing
        → find_condition t (set_condition 2 "True" "Running" "" cs) ≡ find_condition t cs)
set_condition_example =
    set_condition_exact 2 "True" "Running" "" (mark_budget_warning_sent 1 "80% reached" [])

abbrev research_done : Dict String
research_done = ("researcher", "Completed") ∷ ("writer", "Running") ∷ []

refresh_stage_example :
    let phase =
      (refresh_stage staged_team research_done [] 9 ("research" ∷ []) writing_stage).phase in
    ((phase ≡ "Failed") ↔ AnyFailed research_done writing_stage.teammates)
    × ((phase ≡ "Completed") ↔ (
        (¬ AnyFailed research_done writing_stage.teammates)
        × (writing_stage.teammates ≢ [])
        × All (PhaseIs research_done "Completed") writing_stage.teammates))
    × (phase ≡ "Running"
        → All (λ dep. In dep ("research" ∷ [])) writing_stage.depends_on
          × (stage_approval_granted staged_team writing_stage ≡ true))
refresh_stage_example =
    refresh_stage_outcome staged_team research_done [] 9 ("research" ∷ []) writing_stage

approval_cleared_example :
    pending_approval
      (clear_teammate_pending_approval
        (set_teammate_pending_approval staged_team.status.teammates "writer" "spawn-writer")
        "writer")
      "researcher"
    ≡ (if "writer" == "researcher"
        then ""
        else pending_approval staged_team.status.teammates "researcher")
approval_cleared_example =
    pending_approval-clear-set staged_team.status.teammates "writer" "researcher" "spawn-writer"

warning_marker_example :
    let cs = mark_budget_warning_sent 1 "80% reached" [] in
    budget_warning_sent (set_condition 2 "False" "TimedOut" "" cs) ≡ budget_warning_sent cs
warning_marker_example =
    budget_warning_sent-set_condition 2 "False" "TimedOut" ""
      (mark_budget_warning_sent 1 "80% reached" [])
