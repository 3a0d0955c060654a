-- ===== src/Team/Names.antt =====
-- The names of the objects that a team owns, from the end of agentteam_controller.go.
use kagents.Prelude.{
  String, Bool, not, Option, none, some, List, [], ◌∷◌, ◌++◌, ◌==◌, ◌<>◌, if◌then◌else◌,
}
use kagents.Api.Spec.{RepositorySpec, WorkspaceSpec, WorkspaceOutputSpec}
use kagents.Api.Resources.{AgentTeam}

abbrev pub team_name : AgentTeam → String
team_name team = team.meta.name

unfoldable pub team_state_pvc_name : AgentTeam → String
team_state_pvc_name team = team_name team <> "-team-state"

unfoldable pub repo_pvc_name : AgentTeam → String
repo_pvc_name team = team_name team <> "-repo"

unfoldable pub output_pvc_name : AgentTeam → String
output_pvc_name team = team_name team <> "-output"

unfoldable pub init_job_name : AgentTeam → String
init_job_name team = team_name team <> "-init"

unfoldable pub push_branch_job_name : AgentTeam → String
push_branch_job_name team = team_name team <> "-push-branch"

unfoldable pub agent_pod_name : AgentTeam → String → String
agent_pod_name team agent_name = team_name team <> "-" <> agent_name

unfoldable pub agent_mcp_config_map_name : AgentTeam → String → String
agent_mcp_config_map_name team agent_name = team_name team <> "-" <> agent_name <> "-mcp"

unfoldable pub agent_service_account_name : AgentTeam → String → String
agent_service_account_name team agent_name = agent_pod_name team agent_name

-- `value`, or `fallback` where it is left out.
abbrev pub or_default : String → String → String
or_default value fallback = if value == "" then fallback else value

-- team.Spec.Repository != nil && team.Spec.Repository.URL != ""
abbrev pub has_url : Option RepositorySpec → Bool
has_url none = Bool.false
has_url (some repo) = not (repo.url == "")

abbrev pub output_of : Option WorkspaceSpec → Option WorkspaceOutputSpec
output_of none = none
output_of (some workspace) = workspace.output

-- The name of the output PVC of a team with a workspace output.
unfoldable pub output_claim : AgentTeam → WorkspaceOutputSpec → String
output_claim team out = or_default out.pvc (output_pvc_name team)

output_claims : AgentTeam → Option WorkspaceOutputSpec → List String
output_claims team none = []
output_claims team (some out) = output_claim team out ∷ []

unfoldable pub team_pvc_names : AgentTeam → List String
unfolding output_claims
team_pvc_names team =
    (team_state_pvc_name team ∷ [])
    ++ (if has_url team.spec.repository then repo_pvc_name team ∷ [] else [])
    ++ output_claims team (output_of team.spec.workspace)
