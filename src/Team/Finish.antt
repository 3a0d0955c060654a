-- ===== src/Team/Finish.antt =====
-- What follows the last pod: runFinalization, executeOnComplete and executeDelivery of
-- agentteam_controller.go. The senders of a delivery are parameters here.
pub mod Frame
pub mod Deliveries
use kagents.Prelude.{
  ℕ, String, Bool, true, false, not, Option, none, some, List, [], ◌∷◌, ◌++◌, ◌==◌, ◌<>◌, ◌&&◌,
  ◌||◌, Dict, lookup, ltb, show_nat, if◌then◌else◌, leb, join,
}
use kagents.Result.{Result, Error, ok, err, other, wrap, message}
use kagents.Fmt.{quote}
use kagents.Exec.{Exec, gets, pure, raise, lift, attempt, explain, ◌>>=◌, ◌>>◌}
use kagents.Api.Spec.{
  RepositorySpec, LifecycleSpec, PullRequestSpec, DeliveryTarget, WebhookSpec, ObservabilitySpec,
}
use kagents.Api.Status.{
  AgentTeamStatus, DeliveryStatus, PullRequestStatus, TeammateStatus, TaskSummary,
}
use kagents.Api.Resources.{AgentTeam}
use kagents.Delivery.{send, target_label}
use kagents.Metrics.{record_delivery_success, record_delivery_failure}
use kagents.Team.Names.{has_url, push_branch_job_name, or_default}
use kagents.Team.PullRequest.{trimmed, repository_with_url, execute_create_pr}
use kagents.Team.Provision.{
  JobStatus, completed, failed, unfinished, ensure_push_branch_job, check_job_status,
}
use kagents.Team.Runtime.{Env, Pass, Action, change_status, emit, metric, record_event, webhook_of}

abbrev pub default_branch_template : String
default_branch_template = "teams/{{.TeamName}}"

abbrev branch_template : Option LifecycleSpec → String
branch_template none = default_branch_template
branch_template (some lifecycle) =
    or_default lifecycle.consolidated_branch_template default_branch_template

abbrev pub on_complete_of : Option LifecycleSpec → String
on_complete_of none = ""
on_complete_of (some lifecycle) = lifecycle.on_complete

module _ (env : Env) where
  open env use {World, now}

  unfoldable pub render_consolidated_branch : AgentTeam → Result String
  render_consolidated_branch team =
      trimmed (env.render (branch_template team.spec.lifecycle) team.meta.name team.meta.namespace)

  -- The switch on the status of the push job.
  conclude_push : String → JobStatus → Action env Bool
  conclude_push branch failed = raise (other "push-branch Job exceeded backoff limit")
  conclude_push branch unfinished = pure false
  conclude_push branch completed = do
    change_status env λ st. record st { consolidated_branch = branch }
    record_event env "Normal" "BranchPushed" ("Pushed consolidated branch " <> branch)
    pure true

  push_branch : RepositorySpec → Action env Bool
  unfolding conclude_push
  push_branch repo = do
    team ← gets (λ s. s.team)
    branch ← explain "rendering consolidated branch" (lift (render_consolidated_branch team))
    explain "ensuring push-branch Job" (ensure_push_branch_job env repo branch)
    status ← check_job_status env (push_branch_job_name team)
    conclude_push branch status

  finalize_repository : Option RepositorySpec → Action env Bool
  unfolding push_branch
  finalize_repository none s = (ok true, s)
  finalize_repository (some repo) s =
      if s.team.status.consolidated_branch == "" then push_branch repo s else (ok true, s)

  unfoldable pub run_finalization : Action env Bool
  unfolding finalize_repository
  run_finalization s =
      let mode = on_complete_of s.team.spec.lifecycle in
      if mode == "push-branch" || mode == "create-pr"
      then finalize_repository (repository_with_url s.team.spec.repository) s
      else (ok true, s)

  -- The status entry, counter and event for one target.
  report_delivery : DeliveryTarget → Result (Unit {0}) → Action env (Unit {0})
  report_delivery target (ok u) s =
      let label = target_label target in
      (do
        emit env
            (metric (record_delivery_success s.team.meta.name s.team.meta.namespace target.type))
        record_event env "Normal" "DeliveryComplete"
            ("Delivery " <> target.type <> " to " <> label <> " succeeded")
        change_status env λ st. record st {
          delivery =
              st.delivery
              ++ record {
                type = target.type;
                target = label;
                delivered_at = now;
                success = true;
                error = "";
              }
                ∷ [];
        })
        s
  report_delivery target (err e) s =
      let label = target_label target in
      (do
        emit env
            (metric (record_delivery_failure s.team.meta.name s.team.meta.namespace target.type))
        record_event env "Warning" "DeliveryFailed"
            ("Delivery " <> target.type <> " to " <> label <> " failed: " <> message e)
        change_status env λ st. record st {
          delivery =
              st.delivery
              ++ record {
                type = target.type;
                target = label;
                delivered_at = now;
                success = false;
                error = message e;
              }
                ∷ [];
        })
        s

  -- dispatcher.Send, whose error is a value here.
  send_to : DeliveryTarget → Action env (Result (Unit {0}))
  send_to target s =
      let (r, w) = send env.senders s.world target s.team in (ok r, record s { world = w })

  unfoldable pub deliver_all : List DeliveryTarget → Action env (Unit {0})
  unfolding send_to report_delivery
  deliver_all [] s = (ok tt, s)
  deliver_all (target ∷ targets) s =
      (do r ← send_to target; report_delivery target r; deliver_all targets) s

  abbrev delivery_of : Option LifecycleSpec → List DeliveryTarget
  delivery_of none = []
  delivery_of (some lifecycle) = lifecycle.delivery

  unfoldable pub execute_delivery : Action env (Unit {0})
  execute_delivery s = deliver_all (delivery_of s.team.spec.lifecycle) s

  -- The error of executeCreatePR is reported as an event too.
  report_pr : Result (Unit {0}) → Action env (Unit {0})
  report_pr (ok u) = pure tt
  report_pr (err e) = do record_event env "Warning" "PRCreationFailed" (message e); raise e

  create_pr : Action env (Unit {0})
  unfolding report_pr
  create_pr = do r ← attempt (execute_create_pr env); report_pr r

  -- sendWebhookEvent with the event "completed"
  notify_completed : Option WebhookSpec → Action env (Unit {0})
  notify_completed none s = (ok tt, s)
  notify_completed (some hook) s =
      let (r, w) = env.http_post s.world hook.url (
        ("event", "completed")
        ∷ ("team", s.team.meta.name)
        ∷ ("namespace", s.team.meta.namespace)
        ∷ ("phase", s.team.status.phase)
        ∷ []) in
      (answer r, record s { world = w })
    where
      answer : Result ℕ → Result (Unit {0})
      answer (err e) = err e
      answer (ok status) =
          if leb 400 status
          then err (other ("webhook " <> hook.url <> " returned HTTP " <> show_nat status))
          else ok tt

  unfoldable pub execute_on_complete : Action env (Unit {0})
  unfolding notify_completed create_pr
  execute_on_complete s =
      let mode = on_complete_of s.team.spec.lifecycle in
      if mode == "notify"
      then notify_completed (webhook_of env s.team.spec.observability) s
      else if mode == "create-pr"
      then create_pr s
      else if mode == "deliver"
      then execute_delivery s
      else (ok tt, s)
