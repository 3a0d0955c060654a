-- ===== src/Team/Pod/Environment.antt =====
-- The environment of an agent container, from buildAgentPod.
use kagents.Prelude.{
  String, false, not, Option, none, some, List, [], ◌∷◌, ◌++◌, ◌==◌, ◌<>◌, ◌&&◌, join,
  if◌then◌else◌, is_some,
}
use kagents.Api.Spec.{AuthSpec, ScopeSpec}
use kagents.Api.Resources.{AgentTeam}
use kagents.Cluster.Objects.{EnvVar, secret_key}
use kagents.Harness.{harness_for}
use kagents.Team.Runtime.{Reconciler}
use kagents.Team.Pod.Sections.{Agent, env_var, role_of}

-- The API key is preferred to OAuth.
unfoldable pub auth_env : AuthSpec → List EnvVar
auth_env auth =
    if not (auth.api_key_secret == "")
    then record {
      name = "ANTHROPIC_API_KEY";
      source = secret_key auth.api_key_secret "ANTHROPIC_API_KEY" false;
    }
      ∷ []
    else if not (auth.oauth_secret == "")
    then record {
      name = "CLAUDE_OAUTH_TOKEN";
      source = secret_key auth.oauth_secret "CLAUDE_OAUTH_TOKEN" false;
    }
      ∷ []
    else []

path_env : String → List String → List EnvVar
path_env name [] = []
path_env name (p ∷ paths) = env_var name (join (p ∷ paths) ":") ∷ []

unfoldable pub scope_env : Option ScopeSpec → List EnvVar
unfolding path_env
scope_env none = []
scope_env (some scope) =
    path_env "SCOPE_INCLUDE_PATHS" scope.include_paths
    ++ path_env "SCOPE_EXCLUDE_PATHS" scope.exclude_paths

unfoldable pub agent_env : Reconciler → AgentTeam → Agent → List EnvVar
agent_env r team agent =
    (harness_for r.harnesses team.spec.harness).protocol_env (role_of agent) agent.name
      team.meta.name
    ++ (env_var "CLAUDE_MODEL" agent.model
        ∷ env_var "CLAUDE_PERMISSION_MODE" agent.permission_mode
        ∷ env_var "AGENT_PROMPT" agent.prompt
        ∷ [])
    ++ auth_env team.spec.auth
    ++ scope_env agent.scope
    ++ (if is_some team.spec.repository && not agent.is_lead
        then env_var "WORKTREE_PATH" ("worktrees/" <> agent.name) ∷ []
        else [])
