-- ===== src/Examples/Reconciles.antt =====
-- The reconciler against the small cluster.
use kagents.Prelude.{
  ◌≡◌, refl, String, Dict, ◌↔◌, true, false, ◌⊎◌, some, [], ◌∷◌, ◌++◌, All, ◌≤◌, map, show_nat,
  base_name, ◌<>◌, contains, arith,
}
use kagents.Result.{ok}
use kagents.Api.Resources.{AgentTeam}
use kagents.Team.Restarts.{max_restarts, teammate_restart_count}
use kagents.Team.Order.{effective_dependencies, add_all}
use kagents.Team.Names.{agent_pod_name}
use kagents.Api.Spec.{DeliveryTarget}
use kagents.Team.Artifacts.{find_output, find_producer_output_path}
use kagents.Team.Pod.Sections.{Agent, pvc_volume}
use kagents.Team.Pod.{agent_parts, build_agent_pod}
use kagents.Team.Pod.Mounts.{names, IsMounted, build_agent_pod-IsMounted}
use kagents.Team.Finish.{deliver_all}
use kagents.Team.Finish.Deliveries.{entries_of, label_of, deliver_all_exact}
use kagents.Team.Agents.{
  teammate_agent, get_pod, dependencies_met, deploy_teammates, spawn_teammates,
}
use kagents.Team.Agents.Gates.{Held, unmet, deploy_teammates-Held, spawn_teammates-Held}
use kagents.Team.Sync.{all_pods_complete, all_done, any_failed, agent_names}
use kagents.Team.Sync.Completion.{is_in_phase, Failing, all_pods_complete_exact}
use kagents.Team.Failures.{handle_teammate_failures}
use kagents.Team.Failures.Bounded.{count_of, handle_teammate_failures-Within}
use kagents.Team.Conditions.{budget_warning_sent, mark_budget_warning_sent}
use kagents.Team.Runtime.{
  Env, send_event, notify, change_status, new_team_tracker, record_teammates, emit,
}
use kagents.Exec.{◌>>=◌}
use kagents.Budget.{record_session, new_tracker, estimate_cost, rate_for}
use kagents.Team.Spending.{maybe_fire_budget_warning}
use kagents.Team.Spending.Warning.{maybe_fire_budget_warning_mark}
use kagents.Examples.Data.{report_team, writer}
use kagents.Examples.Clusters.{operator, running_team, world, pass}

all_pods_complete_example :
    (((all_pods_complete operator (pass "Succeeded")).0 ≡ ok all_done)
      ↔ All
          (λ n. is_in_phase "Succeeded" (get_pod operator (pass "Succeeded") n) ≡ true)
          (agent_names operator running_team))
    × ((all_pods_complete operator (pass "Succeeded")).0 ≡ ok any_failed
        → Failing operator (pass "Succeeded") (agent_names operator running_team))
all_pods_complete_example = all_pods_complete_exact operator (pass "Succeeded")

few : count_of (pass "Failed") "researcher" ≤ max_restarts running_team
unfolding teammate_restart_count max_restarts
few = omega arith

handle_teammate_failures_example :
    count_of (handle_teammate_failures operator (pass "Failed")).1 "researcher"
    ≤ max_restarts running_team
handle_teammate_failures_example =
    handle_teammate_failures-Within operator (pass "Failed") "researcher" few

-- After a hundred hours the spending is over the limit of ten dollars.
abbrev costly : Env
costly = record operator { now = 360_000_000_000_000 }

maybe_fire_budget_warning_example :
    let t = (maybe_fire_budget_warning costly (pass "Running")).1 in
    (maybe_fire_budget_warning costly (pass "Running") ≡ (ok tt, pass "Running"))
    ⊎ ((budget_warning_sent running_team.status.conditions ≡ false)
        × (budget_warning_sent t.team.status.conditions ≡ true)
        × ((fields : Dict String) × (t.effects
              ≡ (send_event costly "budget.warning" fields (pass "Running")).1.effects))
        × (maybe_fire_budget_warning operator t ≡ (ok tt, t)))
maybe_fire_budget_warning_example =
    maybe_fire_budget_warning_mark costly (pass "Running") operator
      (maybe_fire_budget_warning costly (pass "Running")).1 refl

warning_given :
    budget_warning_sent (maybe_fire_budget_warning costly (pass "Running")).1.team.status.conditions
    ≡ true
unfolding maybe_fire_budget_warning ◌>>=◌ send_event notify change_status budget_warning_sent
    mark_budget_warning_sent new_team_tracker record_teammates emit record_session new_tracker
    estimate_cost rate_for
warning_given = refl

writer_waits : Held operator (pass "Running") writer
unfolding effective_dependencies dependencies_met agent_pod_name add_all contains ◌<>◌
writer_waits = unmet refl

spawn_teammates_example :
    (spawn_teammates operator (writer ∷ []) (pass "Running")).1.world ≡ world "Running"
spawn_teammates_example =
    spawn_teammates-Held operator (writer ∷ []) (pass "Running") (writer_waits, tt)

deploy_teammates_example :
    ((deploy_teammates operator (writer ∷ []) (pass "Running")).0 ≡ ok tt)
    × ((deploy_teammates operator (writer ∷ []) (pass "Running")).1.world ≡ world "Running")
deploy_teammates_example =
    deploy_teammates-Held operator (writer ∷ []) (pass "Running") (writer_waits, tt)

-- An agent with a skill that is pulled, in a team with pull secrets and an output.
abbrev skilled_team : AgentTeam
skilled_team = record report_team {
  spec = record report_team.spec {
    image_pull_secrets = "registry" ∷ [];
    workspace = some (record {
      inputs = [];
      output = some (record { pvc = ""; mount_path = ""; size = ""; storage_class = "" });
    });
  };
}

abbrev skilled_agent : Agent
skilled_agent = record (teammate_agent writer) {
  skills =
      record { name = "style"; source = record { config_map = ""; oci = "ghcr.io/x/style:1" } }
      ∷ [];
}

build_agent_pod_example :
    let spec = (build_agent_pod operator.reconciler skilled_team skilled_agent).spec in
    All (IsMounted (names spec.volumes)) (spec.init_containers ++ spec.containers)
build_agent_pod_example = build_agent_pod-IsMounted operator.reconciler skilled_team skilled_agent

-- The skill, the staged input, and what they mount.
skilled_pod_test :
    names (build_agent_pod operator.reconciler skilled_team skilled_agent).spec.volumes
    ≡ "team-state" ∷ "workspace-output" ∷ "skill-style" ∷ "skill-auth" ∷ "input-0" ∷ []
unfolding build_agent_pod teammate_agent pvc_volume show_nat find_producer_output_path base_name
    find_output agent_parts ◌<>◌
skilled_pod_test = refl

abbrev webhook_target : DeliveryTarget
webhook_target = record {
  type = "webhook";
  artifact_path = "";
  message = "";
  url = "https://example.org/hook";
  channel = "";
  to = [];
  subject = "";
  attachment_path = "";
  folder = "";
  credentials_secret = "";
}

deliver_all_example :
    let targets = webhook_target ∷ [] in
    entries_of (deliver_all operator targets (pass "Succeeded")).1
    ≡ entries_of (pass "Succeeded") ++ map label_of targets
deliver_all_example = deliver_all_exact operator (webhook_target ∷ []) (pass "Succeeded")
