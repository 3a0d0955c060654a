-- ===== src/Team/Phases.antt =====
-- Reconcile and the phase handlers of agentteam_controller.go. What a handler returns beside an error
-- is dropped by the controller runtime, so an action gives one or the other.
pub mod Legs
mod Starting
mod Working
pub mod Edges
pub mod History
use kagents.Prelude.{
  ℕ, String, Bool, true, false, not, Option, none, some, List, [], ◌∷◌, ◌++◌, map, ◌==◌, ◌<>◌, ◌||◌,
  show_nat, length, is_some, if◌then◌else◌,
}
use kagents.Result.{Result, Error, ok, err, message, is_not_found}
use kagents.Exec.{Exec, gets, pure, raise, attempt, explain, ◌>>=◌, ◌>>◌}
use kagents.Api.Spec.{RepositorySpec, WorkspaceOutputSpec}
use kagents.Api.Status.{Time, AgentTeamStatus, condition_true, condition_false}
use kagents.Api.Resources.{AgentTeam}
use kagents.Metrics.{Metric, record_team_start, record_team_complete, record_team_failed}
use kagents.Team.Names.{
  team_state_pvc_name, repo_pvc_name, init_job_name, output_of, output_claim, or_default,
}
use kagents.Team.Restarts.{max_restarts}
use kagents.Team.Pipeline.{update_pipeline_status}
use kagents.Team.Provision.{
  JobStatus, completed, failed, unfinished, ensure_pvc, pvc_access_mode, ensure_init_job,
  check_job_status,
}
use kagents.Team.Agents.{lead_agent, ensure_agent_pod, deploy_teammates, spawn_teammates}
use kagents.Team.Sync.{
  Outcome, all_done, any_failed, waiting, sync_pod_statuses, all_pods_complete, terminate_all_pods,
  agent_names,
}
use kagents.Team.Failures.{handle_teammate_failures, fire_teammate_error_events}
use kagents.Team.PullRequest.{repository_with_url}
use kagents.Team.Finish.{run_finalization, execute_on_complete}
use kagents.Team.Spending.{maybe_fire_budget_warning, export_budget_metrics}
use kagents.Team.Runtime.{
  Env, Pass, Effect, Action, metric, emit, change_status, put_phase, put_condition, record_event,
  send_event, update_status, is_timed_out, is_budget_exceeded, estimate_team_cost, elapsed,
}

-- ctrl.Result, the delay in seconds.
pub record CtrlResult : Type 0 where
  pub requeue : Bool
  pub requeue_after : ℕ

abbrev pub done : CtrlResult
done = record { requeue = false; requeue_after = 0 }

abbrev pub after : ℕ → CtrlResult
after seconds = record { requeue = false; requeue_after = seconds }

abbrev pub at_once : CtrlResult
at_once = record { requeue = true; requeue_after = 0 }

module _ (env : Env) where
  open env use {World, now, reconciler}

  -- The common end of a handler: the phase, its condition and an event of the condition's reason.
  unfoldable pub enter_phase :
      String → String → String → String → String → String → Action env (Unit {0})
  enter_phase phase status reason text event_type event_text = do
    put_phase env phase
    put_condition env status reason text
    record_event env event_type reason event_text

  -- The same with the status written, and no further pass asked for.
  unfoldable pub end_in : String → String → String → String → Action env CtrlResult
  end_in phase reason text event_text = do
    enter_phase phase condition_false reason text "Warning" event_text
    update_status env
    pure done

  -- Pending

  provision_repository : Option RepositorySpec → Action env (Unit {0})
  provision_repository none = pure tt
  provision_repository (some repo) = do
    team ← gets (λ s. s.team)
    explain "ensuring repo PVC"
        (ensure_pvc env (repo_pvc_name team) "nfs" (pvc_access_mode reconciler) "10Gi")
    explain "ensuring init job" (ensure_init_job env repo)

  provision_output : Option WorkspaceOutputSpec → Action env (Unit {0})
  provision_output none = pure tt
  provision_output (some out) = do
    team ← gets (λ s. s.team)
    explain "ensuring output PVC" (
        ensure_pvc env (output_claim team out) (or_default out.storage_class "nfs")
          (pvc_access_mode reconciler) (or_default out.size "5Gi"))

  unfoldable pub reconcile_pending : Action env CtrlResult
  unfolding provision_repository provision_output
  reconcile_pending = do
    team ← gets (λ s. s.team)
    explain "ensuring team-state PVC"
        (ensure_pvc env (team_state_pvc_name team) "nfs" (pvc_access_mode reconciler) "1Gi")
    provision_repository (repository_with_url team.spec.repository)
    provision_output (output_of team.spec.workspace)
    change_status env λ st. record st { phase = "Initializing"; started_at = some now }
    put_condition env condition_true "Initializing" "PVCs provisioned, init job started"
    record_event env "Normal" "Initializing" "PVCs provisioned; init job started"
    emit env (metric (record_team_start team.meta.name team.meta.namespace))
    update_status env
    pure (after 5)

  -- Initializing

  deploy_agents : Action env CtrlResult
  deploy_agents = do
    team ← gets (λ s. s.team)
    explain "ensuring lead pod" (ensure_agent_pod env (lead_agent team.spec.lead))
    deploy_teammates env team.spec.teammates
    enter_phase "Running" condition_true "Running" "Agent pods deployed" "Normal"
        "Agent pods deployed"
    send_event env "team.started" (
        ("leadModel", team.spec.lead.model)
        ∷ ("teammates", show_nat (length team.spec.teammates))
        ∷ [])
    update_status env
    pure (after 30)

  after_init_job : JobStatus → Action env CtrlResult
  unfolding deploy_agents
  after_init_job failed =
      end_in "Failed" "InitJobFailed" "Init job exceeded backoff limit"
        "Init job exceeded backoff limit"
  after_init_job unfinished = pure (after 10)
  after_init_job completed = deploy_agents

  await_init_job : Option RepositorySpec → Action env CtrlResult
  unfolding after_init_job
  await_init_job none = deploy_agents
  await_init_job (some repo) = do
    team ← gets (λ s. s.team)
    status ← explain "checking init job" (check_job_status env (init_job_name team))
    after_init_job status

  unfoldable pub reconcile_initializing : Action env CtrlResult
  unfolding await_init_job
  reconcile_initializing s =
      if is_timed_out env s.team
      then end_in "TimedOut" "TimedOut" "Team exceeded configured timeout during initialization"
          "Team exceeded configured timeout during initialization" s
      else await_init_job (repository_with_url s.team.spec.repository) s

  -- Running

  -- The pods are deleted before the phase changes.
  terminate_in : String → String → String → String → Action env CtrlResult
  terminate_in phase reason text event_text = do
    terminate_all_pods env
    end_in phase reason text event_text

  fail_and_report : String → String → String → Action env CtrlResult
  fail_and_report reason text event_text = do
    enter_phase "Failed" condition_false reason text "Warning" event_text
    team ← gets (λ s. s.team)
    fire_teammate_error_events env (agent_names env team)
    update_status env
    pure done

  -- runFinalization said that nothing is outstanding, or that its job still runs.
  after_finalization : Bool → Action env CtrlResult
  after_finalization false = do
    put_condition env condition_true "Finalizing" "Waiting on finalization Job"
    update_status env
    pure (after 10)
  after_finalization true = do
    attempt (execute_on_complete env)
    enter_phase "Completed" condition_false "Completed" "All agents finished successfully" "Normal"
        "All agents finished successfully"
    update_status env
    pure done

  conclude_finalization : Result Bool → Action env CtrlResult
  unfolding after_finalization
  conclude_finalization (ok ready) = after_finalization ready
  conclude_finalization (err e) = end_in "Failed" "FinalizationFailed" (message e) (message e)

  conclude : Outcome → Action env CtrlResult
  unfolding fail_and_report conclude_finalization
  conclude any_failed =
      fail_and_report "AgentFailed" "One or more agent pods failed" "One or more agent pods failed"
  conclude all_done = do r ← attempt (run_finalization env); conclude_finalization r
  conclude waiting = do update_status env; pure (after 30)

  exhausted_text : AgentTeam → String → String
  exhausted_text team fatal =
      "Teammate " <> fatal <> " exceeded maxRestarts=" <> show_nat (max_restarts team)

  spawn_and_conclude : String → Action env CtrlResult
  unfolding conclude fail_and_report exhausted_text
  spawn_and_conclude fatal s =
      if fatal == ""
      then (do
        spawn_teammates env s.team.spec.teammates
        outcome ← all_pods_complete env
        conclude outcome)
          s
      else fail_and_report "RestartLimitExceeded" (exhausted_text s.team fatal)
          (exhausted_text s.team fatal <> "; all pods terminated") s

  -- updatePipelineStatus on the team in memory, with its metrics.
  refresh_pipeline_status : Action env (Unit {0})
  refresh_pipeline_status s =
      let (pipeline, metrics) = update_pipeline_status s.team now in
      (
        ok tt,
        record s {
          team = record s.team { status = record s.team.status { pipeline = pipeline } };
          effects = s.effects ++ map (λ m. metric m) metrics;
        },
      )

  unfoldable pub monitor : Action env CtrlResult
  unfolding refresh_pipeline_status spawn_and_conclude
  monitor = do
    sync_pod_statuses env
    refresh_pipeline_status
    fatal ← handle_teammate_failures env
    spawn_and_conclude fatal

  check_budget : Action env CtrlResult
  unfolding terminate_in monitor
  check_budget s =
      if is_budget_exceeded env s.team
      then terminate_in "BudgetExceeded" "BudgetExceeded" "Estimated cost exceeded budget limit"
          ("Estimated cost " <> s.team.status.estimated_cost
            <> " exceeded budget limit; all pods terminated")
          s
      else monitor s

  estimate_and_check : Action env CtrlResult
  unfolding check_budget
  estimate_and_check s =
      (do
        change_status env λ st. record st { estimated_cost = estimate_team_cost env s.team }
        export_budget_metrics env
        maybe_fire_budget_warning env
        check_budget)
        s

  unfoldable pub reconcile_running : Action env CtrlResult
  unfolding terminate_in estimate_and_check
  reconcile_running s =
      if is_timed_out env s.team
      then terminate_in "TimedOut" "TimedOut" "Team exceeded configured timeout"
          "Team exceeded configured timeout; all pods terminated" s
      else estimate_and_check s

  -- Terminal

  abbrev time_since : Option Time → ℕ
  time_since none = 0
  time_since (some started) = elapsed env started

  terminal_metric : AgentTeam → Metric
  terminal_metric team =
      if team.status.phase == "Completed"
      then record_team_complete team.meta.name team.meta.namespace
          (time_since team.status.started_at)
      else record_team_failed team.meta.name team.meta.namespace

  stamp_completion : Action env CtrlResult
  stamp_completion s =
      if is_some s.team.status.completed_at
      then (ok done, s)
      else (do
        change_status env λ st. record st { completed_at = some now }
        update_status env
        pure done)
          s

  unfoldable pub reconcile_terminal : Action env CtrlResult
  unfolding terminal_metric stamp_completion
  reconcile_terminal s =
      (do terminate_all_pods env; emit env (metric (terminal_metric s.team)); stamp_completion) s

  reset_phase : Action env CtrlResult
  reset_phase = do put_phase env "Pending"; update_status env; pure at_once

  -- The switch on the phase.
  unfoldable pub reconcile_phase : String → Action env CtrlResult
  unfolding reset_phase
  reconcile_phase phase =
      if phase == "" || phase == "Pending"
      then reconcile_pending
      else if phase == "Initializing"
      then reconcile_initializing
      else if phase == "Running"
      then reconcile_running
      else if phase == "Completed"
          || phase == "Failed"
          || phase == "TimedOut"
          || phase == "BudgetExceeded"
      then reconcile_terminal
      else reset_phase

  unfoldable pub reconcile_team : Action env CtrlResult
  reconcile_team s = reconcile_phase s.team.status.phase s

  abbrev start_pass : World → AgentTeam → Pass World env.float.F
  start_pass w team = record { world = w; team = team; effects = [] }

  -- Reconcile: the answer, the world, and what was sent out.
  after_get : World → Result AgentTeam → Result CtrlResult × World × List (Effect env.float.F)
  after_get w (ok team) = let (r, s) = reconcile_team (start_pass w team) in (r, s.world, s.effects)
  after_get w (err e) = (if is_not_found e then ok done else err e, w, [])

  unfoldable pub reconcile :
      World → String → String → Result CtrlResult × World × List (Effect env.float.F)
  unfolding after_get
  reconcile w namespace name = after_get w (env.get_team w namespace name)
