-- ===== src/Team/Agents/Frame.antt =====
-- An agent pod is ensured without a change to the team in memory; the spawning loops change the
-- pending approvals of the teammates, and write no status.
use kagents.Prelude.{refl, String, Option, none, some, List, [], ◌∷◌, arith}
use kagents.Result.{Result, ok, err}
use kagents.Exec.{Found, found, missing, found_or_missing}
use kagents.Exec.Keeps.{explain-Keeps, if-Keeps}
use kagents.Api.Spec.{McpServerSpec, TeammateSpec, ApprovalGateSpec}
use kagents.Api.Resources.{AgentTeam}
use kagents.Cluster.Objects.{ConfigMap, Pod}
use kagents.Team.Pod.Sections.{Agent}
use kagents.Team.Runtime.{Env, Action}
use kagents.Team.Rbac.Frame.{ensure_agent_service_account-IsUntouched}
use kagents.Team.Order.{effective_dependencies, stage_for_teammate}
use kagents.Team.Steps.{
  IsUntouched, IsQuiet, >>=-IsUntouched, >>=-IsQuiet, IsUntouched-IsQuiet, write-IsUntouched,
  gets-IsUntouched, lift-IsUntouched, pure-IsUntouched, raise-IsUntouched, Untouched-refl,
  Quiet-refl, Quiet-branch, change_status-IsQuiet,
}
use kagents.Team.Agents.{
  create_mcp, ensure_mcp_config_map, ensure_mcp, create_pod, ensure_agent_pod, post_approval,
  check_gate, check_approval_gate, find_gate, gates_of, pass_gates, blocking_stage, when_unblocked,
  deploy_teammates, spawn_missing, spawn_teammates, dependencies_met, get_pod,
}

module _ (env : Env) where
  create_mcp-IsUntouched :
      (team : AgentTeam) (name : String) (servers : List McpServerSpec)
      (r : Result (Found ConfigMap))
      → IsUntouched (create_mcp env team name servers r)
  unfolding create_mcp
  create_mcp-IsUntouched team name servers (err e) = raise-IsUntouched _ _
  create_mcp-IsUntouched team name servers (ok (found cm)) = pure-IsUntouched _
  create_mcp-IsUntouched team name servers (ok missing) =
      >>=-IsUntouched (explain-Keeps _ (lift-IsUntouched _))
        λ text. >>=-IsUntouched (lift-IsUntouched _) λ meta. write-IsUntouched env _

  ensure_mcp-IsUntouched :
      (agent : Agent) (servers : List McpServerSpec) → IsUntouched (ensure_mcp env agent servers)
  unfolding ensure_mcp ensure_mcp_config_map
  ensure_mcp-IsUntouched agent [] = pure-IsUntouched _
  ensure_mcp-IsUntouched agent (server ∷ servers) = explain-Keeps _ (
      >>=-IsUntouched (gets-IsUntouched _) λ team.
        >>=-IsUntouched (gets-IsUntouched _)
          λ existing. create_mcp-IsUntouched _ _ (server ∷ servers) _)

  create_pod-IsUntouched :
      (agent : Agent) (r : Result (Found Pod)) → IsUntouched (create_pod env agent r)
  unfolding create_pod
  create_pod-IsUntouched agent (err e) = raise-IsUntouched _ _
  create_pod-IsUntouched agent (ok (found pod)) = pure-IsUntouched _
  create_pod-IsUntouched agent (ok missing) =
      >>=-IsUntouched (explain-Keeps _ (ensure_agent_service_account-IsUntouched env agent.name))
        λ _. >>=-IsUntouched (ensure_mcp-IsUntouched agent agent.mcp_servers) λ _.
          >>=-IsUntouched (gets-IsUntouched _)
            λ team. >>=-IsUntouched (lift-IsUntouched _) λ meta. write-IsUntouched env _

  pub ensure_agent_pod-IsUntouched : (agent : Agent) → IsUntouched (ensure_agent_pod env agent)
  unfolding ensure_agent_pod
  ensure_agent_pod-IsUntouched agent = record {
    run = λ s. (create_pod-IsUntouched agent (found_or_missing (get_pod env s agent.name))).run s;
  }

  check_gate-IsUntouched :
      (gate : Option ApprovalGateSpec) (event : String) → IsUntouched (check_gate env gate event)
  unfolding check_gate post_approval
  check_gate-IsUntouched none event = record { run = Untouched-refl }
  check_gate-IsUntouched (some gate) event = record { run = λ s. ground arith }

  check_approval_gate-IsUntouched : (event : String) → IsUntouched (check_approval_gate env event)
  unfolding check_approval_gate
  check_approval_gate-IsUntouched event = record {
    run = λ s.
        (check_gate-IsUntouched (find_gate (gates_of s.team.spec.lifecycle) event) event).run s;
  }

  pass_gates-IsQuiet :
      (name : String) (blocked : Option String) (spawn : Action env (Unit {0}))
      → IsQuiet spawn
      → IsQuiet (pass_gates env name blocked spawn)
  unfolding pass_gates
  pass_gates-IsQuiet name (some event) spawn q = change_status-IsQuiet env _ (λ st. refl)
  pass_gates-IsQuiet name none spawn q =
      >>=-IsQuiet (IsUntouched-IsQuiet (check_approval_gate-IsUntouched _))
        λ granted. if-Keeps granted q (change_status-IsQuiet env _ (λ st. refl))

  pub when_unblocked-IsQuiet :
      (tm : TeammateSpec) (spawn : Action env (Unit {0}))
      → IsQuiet spawn
      → IsQuiet (when_unblocked env tm spawn)
  unfolding when_unblocked
  when_unblocked-IsQuiet tm spawn q = record {
    run = λ s.
        Quiet-branch s (dependencies_met env s (effective_dependencies s.team tm)) _ _
          ((pass_gates-IsQuiet tm.name
              (blocking_stage env s.team (stage_for_teammate s.team tm.name)) spawn q).run
            s)
          (Quiet-refl s);
  }

  pub deploy_teammates-IsQuiet : (tms : List TeammateSpec) → IsQuiet (deploy_teammates env tms)
  unfolding deploy_teammates
  deploy_teammates-IsQuiet [] = record { run = Quiet-refl }
  deploy_teammates-IsQuiet (tm ∷ rest) = record {
    run = λ s.
        (>>=-IsQuiet
            (when_unblocked-IsQuiet tm _
              (IsUntouched-IsQuiet (explain-Keeps _ (ensure_agent_pod-IsUntouched _))))
            λ _. deploy_teammates-IsQuiet rest).run
          s;
  }

  spawn_missing-IsQuiet :
      (tm : TeammateSpec) (r : Result (Found Pod)) → IsQuiet (spawn_missing env tm r)
  unfolding spawn_missing
  spawn_missing-IsQuiet tm (err e) = IsUntouched-IsQuiet (raise-IsUntouched _ _)
  spawn_missing-IsQuiet tm (ok (found pod)) = IsUntouched-IsQuiet (pure-IsUntouched _)
  spawn_missing-IsQuiet tm (ok missing) = when_unblocked-IsQuiet tm _ (
      >>=-IsQuiet (change_status-IsQuiet env _ (λ st. refl))
        λ _. IsUntouched-IsQuiet (explain-Keeps _ (ensure_agent_pod-IsUntouched _)))

  pub spawn_teammates-IsQuiet : (tms : List TeammateSpec) → IsQuiet (spawn_teammates env tms)
  unfolding spawn_teammates
  spawn_teammates-IsQuiet [] = record { run = Quiet-refl }
  spawn_teammates-IsQuiet (tm ∷ rest) = record {
    run = λ s.
        (>>=-IsQuiet (spawn_missing-IsQuiet tm (found_or_missing (get_pod env s tm.name)))
            λ _. spawn_teammates-IsQuiet rest).run
          s;
  }
