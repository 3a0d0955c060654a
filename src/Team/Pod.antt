-- ===== src/Team/Pod.antt =====
-- buildAgentPod of agentteam_controller.go. Its sections are the child modules.
pub mod Sections
mod Environment
mod Volumes
mod Skills
mod Staging
pub mod Mounts
use kagents.Prelude.{
  ℕ, suc, String, Bool, true, false, not, Option, none, some, List, [], ◌∷◌, ◌++◌, map, ◌==◌, ◌<>◌,
  ◌&&◌, ◌||◌, Dict, join, show_nat, if◌then◌else◌, is_some,
}
use kagents.Api.Spec.{
  ResourceRequirements, AuthSpec, ScopeSpec, SkillSpec, McpServerSpec, InputSpec, WorkspaceSpec,
  WorkspaceInputSpec, WorkspaceOutputSpec,
}
use kagents.Api.Resources.{ObjectMeta, AgentTeam}
use kagents.Cluster.Objects.{
  EnvVar, value, secret_key, Volume, VolumeSource, claim, config_map, empty_dir, secret,
  VolumeMount, Container, PodSpec, Pod,
}
use kagents.Harness.{harness_for, claude_code_runner_image}
use kagents.Fmt.{quote}
use kagents.Team.Names.{
  team_state_pvc_name, repo_pvc_name, output_claim, output_of, agent_pod_name,
  agent_mcp_config_map_name, agent_service_account_name, or_default,
}
use kagents.Team.Artifacts.{find_producer_output_path}
use kagents.Team.Runtime.{Reconciler}
use Sections.{
  Agent, agent_image, skill_puller_image, env_var, pvc_volume, pvc_volume_read_only, mount,
  empty_dir_volume, role_of, Parts, no_parts, ◌<+>◌,
}
use Environment.{agent_env}
use Volumes.{state_parts, repository_parts, output_parts, workspace_input_parts, inputs_of}
use Skills.{all_skill_parts, skill_auth_parts, mcp_parts}
use Staging.{staging_parts}

unfoldable pub agent_parts : Reconciler → AgentTeam → Agent → Parts
unfolding state_parts repository_parts output_parts inputs_of workspace_input_parts all_skill_parts
    skill_auth_parts mcp_parts staging_parts
agent_parts r team agent =
    state_parts team
    <+> repository_parts team
    <+> output_parts team (output_of team.spec.workspace)
    <+> workspace_input_parts 0 (inputs_of team.spec.workspace)
    <+> all_skill_parts r team.spec.image_pull_secrets agent.skills
    <+> skill_auth_parts team.spec.image_pull_secrets agent.skills
    <+> mcp_parts team agent.name agent.mcp_servers
    <+> staging_parts r team agent.inputs (output_of team.spec.workspace)

abbrev pub pod_labels : AgentTeam → Agent → Dict String
pod_labels team agent =
    ("app.kubernetes.io/name", "kagents")
    ∷ ("app.kubernetes.io/instance", team.meta.name)
    ∷ ("app.kubernetes.io/component", agent.name)
    ∷ ("kagents.dev/team", team.meta.name)
    ∷ ("kagents.dev/role", role_of agent)
    ∷ []

unfoldable pub build_agent_pod : Reconciler → AgentTeam → Agent → Pod
build_agent_pod r team agent =
    let parts = agent_parts r team agent in
    record {
      meta = record {
        name = agent_pod_name team agent.name;
        namespace = team.meta.namespace;
        labels = pod_labels team agent;
        annotations = [];
        creation_timestamp = 0;
        owner_references = [];
      };
      spec = record {
        restart_policy = "Never";
        service_account_name = agent_service_account_name team agent.name;
        image_pull_secrets = team.spec.image_pull_secrets;
        init_containers = parts.init_containers;
        containers =
            record {
              name = "claude-code";
              image = agent_image r;
              command = r.agent_command;
              env = agent_env r team agent;
              volume_mounts = parts.mounts;
              resources = agent.resources;
            }
            ∷ [];
        volumes = parts.volumes;
      };
      phase = "";
      reason = "";
      message = "";
      deletion_timestamp = none;
    }
