-- ===== src/Team/Agents.antt =====
-- The agent pods: ensureMCPConfigMap, ensureAgentPod, dependenciesMet, checkApprovalGate and the
-- spawning loops of agentteam_controller.go.
pub mod Gates
pub mod Frame
use kagents.Prelude.{
  ℕ, String, Bool, true, false, not, Option, none, some, List, [], ◌∷◌, ◌++◌, ◌==◌, ◌<>◌, ◌&&◌,
  ◌||◌, Dict, insert, if◌then◌else◌,
}
use kagents.Result.{Result, Error, ok, err}
use kagents.Exec.{
  Exec, Found, found, missing, found_or_missing, gets, pure, raise, lift, explain, ◌>>=◌, ◌>>◌,
}
use kagents.Http.{Json, str, obj, Fields, end, field}
use kagents.Api.Spec.{
  TeammateSpec, LeadSpec, LifecycleSpec, ApprovalGateSpec, McpServerSpec, StageSpec,
}
use kagents.Api.Status.{AgentTeamStatus}
use kagents.Api.Resources.{ObjectMeta, AgentTeam}
use kagents.Cluster.Objects.{Pod, ConfigMap}
use kagents.Team.Names.{agent_pod_name, agent_mcp_config_map_name}
use kagents.Team.Order.{
  effective_dependencies, stage_for_teammate, stage_approval_granted, is_annotated, approval_prefix,
}
use kagents.Team.Restarts.{set_teammate_pending_approval, clear_teammate_pending_approval}
use kagents.Team.Rbac.{named, ensure_agent_service_account}
use kagents.Team.Pod.Sections.{Agent}
use kagents.Team.Pod.{build_agent_pod}
use kagents.Team.Runtime.{Reconciler, Env, Pass, Action, write, change_status}

unfoldable pub lead_agent : LeadSpec → Agent
lead_agent lead = record {
  name = "lead";
  model = lead.model;
  prompt = lead.prompt;
  permission_mode = lead.permission_mode;
  is_lead = true;
  resources = lead.resources;
  scope = none;
  skills = lead.skills;
  mcp_servers = lead.mcp_servers;
  inputs = [];
}

unfoldable pub teammate_agent : TeammateSpec → Agent
teammate_agent tm = record {
  name = tm.name;
  model = tm.model;
  prompt = tm.prompt;
  permission_mode = "auto-accept";
  is_lead = false;
  resources = tm.resources;
  scope = tm.scope;
  skills = tm.skills;
  mcp_servers = tm.mcp_servers;
  inputs = tm.inputs;
}

-- mcpEntry of each server by its name, a later one over an earlier.
mcp_entries : Dict Json → List McpServerSpec → Dict Json
mcp_entries entries [] = entries
mcp_entries entries (s ∷ servers) =
    mcp_entries
      (insert s.name (obj (field "type" (str "sse") (field "url" (str s.url) end))) entries) servers

json_fields : Dict Json → Fields
json_fields [] = end
json_fields ((name, value) ∷ rest) = field name value (json_fields rest)

-- The document of mcp.json.
unfoldable pub mcp_config : List McpServerSpec → Json
unfolding mcp_entries json_fields
mcp_config servers = obj (field "mcpServers" (obj (json_fields (mcp_entries [] servers))) end)

abbrev is_succeeded : Pod → Bool
is_succeeded pod = pod.phase == "Succeeded"

-- The first gate for the event.
pub find_gate : List ApprovalGateSpec → String → Option ApprovalGateSpec
find_gate [] event = none
find_gate (gate ∷ gates) event = if gate.event == event then some gate else find_gate gates event

abbrev pub gates_of : Option LifecycleSpec → List ApprovalGateSpec
gates_of none = []
gates_of (some lifecycle) = lifecycle.approval_gates

module _ (env : Env) where
  open env use {World, reconciler}

  abbrev pub get_pod : Pass World env.float.F → String → Result Pod
  get_pod s agent_name =
      env.pods.get s.world s.team.meta.namespace (agent_pod_name s.team agent_name)

  create_mcp :
      AgentTeam → String → List McpServerSpec → Result (Found ConfigMap) → Action env (Unit {0})
  create_mcp team name servers (err e) = raise e
  create_mcp team name servers (ok (found cm)) = pure tt
  create_mcp team name servers (ok missing) = do
    text ← explain "marshalling MCP config" (lift (env.marshal (mcp_config servers)))
    meta ← lift (env.set_controller_reference team (named team name))
    write env
        λ w. env.config_maps.create w (record { meta = meta; entries = ("mcp.json", text) ∷ [] })

  unfoldable pub ensure_mcp_config_map : String → List McpServerSpec → Action env (Unit {0})
  unfolding create_mcp
  ensure_mcp_config_map agent_name servers = do
    team ← gets (λ s. s.team)
    let name = agent_mcp_config_map_name team agent_name
    existing ← gets (λ s. env.config_maps.get s.world team.meta.namespace name)
    create_mcp team name servers (found_or_missing existing)

  ensure_mcp : Agent → List McpServerSpec → Action env (Unit {0})
  ensure_mcp agent [] = pure tt
  ensure_mcp agent (server ∷ servers) =
      explain ("ensuring MCP configmap for " <> agent.name)
        (ensure_mcp_config_map agent.name (server ∷ servers))

  -- The rest of ensureAgentPod after a Get of the pod.
  create_pod : Agent → Result (Found Pod) → Action env (Unit {0})
  unfolding ensure_mcp
  create_pod agent (err e) = raise e
  create_pod agent (ok (found pod)) = pure tt
  create_pod agent (ok missing) = do
    explain ("ensuring ServiceAccount for " <> agent.name)
        (ensure_agent_service_account env agent.name)
    ensure_mcp agent agent.mcp_servers
    team ← gets (λ s. s.team)
    let pod = build_agent_pod reconciler team agent
    meta ← lift (env.set_controller_reference team pod.meta)
    write env λ w. env.pods.create w (record pod { meta = meta })

  unfoldable pub ensure_agent_pod : Agent → Action env (Unit {0})
  unfolding create_pod
  ensure_agent_pod agent s = create_pod agent (found_or_missing (get_pod s agent.name)) s

  abbrev pub pod_succeeded : Result Pod → Bool
  pod_succeeded (ok pod) = is_succeeded pod
  pod_succeeded (err e) = false

  -- Every pod of a dependency is there and has succeeded.
  unfoldable pub dependencies_met : Pass World env.float.F → List String → Bool
  dependencies_met s [] = true
  dependencies_met s (dep ∷ deps) = pod_succeeded (get_pod s dep) && dependencies_met s deps

  -- sendWebhookEvent: the POST changes the world; its error is only logged here.
  post_approval : ApprovalGateSpec → String → Pass World env.float.F → Pass World env.float.F
  post_approval gate event s =
      if gate.channel == "webhook" && not (gate.webhook_url == "")
      then record s {
        world =
            (env.http_post s.world gate.webhook_url (
              ("event", event)
              ∷ ("team", s.team.meta.name)
              ∷ ("namespace", s.team.meta.namespace)
              ∷ ("phase", s.team.status.phase)
              ∷ [])).1;
      }
      else s

  check_gate : Option ApprovalGateSpec → String → Action env Bool
  unfolding post_approval
  check_gate none event s = (ok true, s)
  check_gate (some gate) event s =
      if is_annotated s.team (approval_prefix <> event)
      then (ok true, s)
      else (ok false, post_approval gate event s)

  unfoldable pub check_approval_gate : String → Action env Bool
  unfolding check_gate find_gate
  check_approval_gate event s =
      check_gate (find_gate (gates_of s.team.spec.lifecycle) event) event s

  -- Whether the stage of the teammate, if it has one, is approved, and the stage's event.
  blocking_stage : AgentTeam → Option StageSpec → Option String
  blocking_stage team none = none
  blocking_stage team (some stage) =
      if stage_approval_granted team stage then none else some ("stage-" <> stage.name)

  abbrev set_pending : String → String → Action env (Unit {0})
  set_pending tm_name event =
      change_status env
        λ st. record st { teammates = set_teammate_pending_approval st.teammates tm_name event }

  abbrev clear_pending : String → Action env (Unit {0})
  clear_pending tm_name =
      change_status env
        λ st. record st { teammates = clear_teammate_pending_approval st.teammates tm_name }

  -- What the body of a spawning loop does once the dependencies are met and the stage is looked at:
  -- `spawn` is called behind the approval gates alone.
  pass_gates : String → Option String → Action env (Unit {0}) → Action env (Unit {0})
  pass_gates tm_name (some event) spawn = set_pending tm_name event
  pass_gates tm_name none spawn = do
    granted ← check_approval_gate ("spawn-" <> tm_name)
    if granted then spawn else set_pending tm_name ("spawn-" <> tm_name)

  unfoldable pub when_unblocked : TeammateSpec → Action env (Unit {0}) → Action env (Unit {0})
  unfolding pass_gates blocking_stage
  when_unblocked tm spawn s =
      if dependencies_met s (effective_dependencies s.team tm)
      then pass_gates tm.name (blocking_stage s.team (stage_for_teammate s.team tm.name)) spawn s
      else (ok tt, s)

  -- The loop of reconcileInitializing.
  unfoldable pub deploy_teammates : List TeammateSpec → Action env (Unit {0})
  deploy_teammates [] s = (ok tt, s)
  deploy_teammates (tm ∷ rest) s =
      (do
        when_unblocked tm
            (explain ("ensuring teammate pod " <> tm.name) (ensure_agent_pod (teammate_agent tm)))
        deploy_teammates rest)
        s

  -- The body of the loop of reconcileRunning after its Get of the pod.
  spawn_missing : TeammateSpec → Result (Found Pod) → Action env (Unit {0})
  spawn_missing tm (err e) = raise e
  spawn_missing tm (ok (found pod)) = pure tt
  spawn_missing tm (ok missing) = when_unblocked tm (do
    clear_pending tm.name
    explain ("spawning teammate " <> tm.name) (ensure_agent_pod (teammate_agent tm)))

  unfoldable pub spawn_teammates : List TeammateSpec → Action env (Unit {0})
  unfolding spawn_missing
  spawn_teammates [] s = (ok tt, s)
  spawn_teammates (tm ∷ rest) s =
      (do spawn_missing tm (found_or_missing (get_pod s tm.name)); spawn_teammates rest) s
