-- ===== src/Team/Pod/Skills.antt =====
-- The skills and the MCP configuration of buildAgentPod.
use kagents.Prelude.{
  String, Bool, true, false, not, List, [], ◌∷◌, ◌==◌, ◌<>◌, ◌&&◌, ◌||◌, if◌then◌else◌,
}
use kagents.Api.Spec.{SkillSpec, McpServerSpec}
use kagents.Api.Resources.{AgentTeam}
use kagents.Cluster.Objects.{EnvVar, config_map, secret, VolumeMount}
use kagents.Team.Names.{agent_mcp_config_map_name}
use kagents.Team.Runtime.{Reconciler}
use kagents.Team.Pod.Sections.{
  skill_puller_image, env_var, mount, empty_dir_volume, Parts, no_parts, ◌<+>◌,
}

-- One skill: a ConfigMap is mounted as it is, an OCI artifact is pulled by an init container.
unfoldable pub skill_parts : Reconciler → List String → SkillSpec → Parts
skill_parts r pull_secrets skill =
    let vol_name = "skill-" <> skill.name in
    let skill_mount = mount vol_name ("/var/claude-skills/" <> skill.name) true in
    if not (skill.source.config_map == "")
    then record no_parts {
      volumes = record { name = vol_name; source = config_map skill.source.config_map } ∷ [];
      mounts = skill_mount ∷ [];
    }
    else if not (skill.source.oci == "")
    then record {
      volumes = empty_dir_volume vol_name ∷ [];
      mounts = skill_mount ∷ [];
      init_containers =
          record {
            name = "pull-skill-" <> skill.name;
            image = skill_puller_image r;
            command = "oras" ∷ "pull" ∷ "--output" ∷ "/skill-out" ∷ skill.source.oci ∷ [];
            env = pull_env pull_secrets;
            volume_mounts = mount vol_name "/skill-out" false ∷ pull_mounts pull_secrets;
            resources = record { limits = []; requests = [] };
          }
          ∷ [];
    }
    else no_parts
  where
    pull_env : List String → List EnvVar
    pull_env [] = []
    pull_env (s ∷ ss) = env_var "DOCKER_CONFIG" "/auth/.docker" ∷ []

    pull_mounts : List String → List VolumeMount
    pull_mounts [] = []
    pull_mounts (s ∷ ss) = mount "skill-auth" "/auth/.docker" true ∷ []

unfoldable pub all_skill_parts : Reconciler → List String → List SkillSpec → Parts
unfolding skill_parts
all_skill_parts r pull_secrets [] = no_parts
all_skill_parts r pull_secrets (skill ∷ skills) =
    skill_parts r pull_secrets skill <+> all_skill_parts r pull_secrets skills

-- needSkillAuth, where there are pull secrets.
abbrev pub pulls_skill : SkillSpec → Bool
pulls_skill skill = skill.source.config_map == "" && not (skill.source.oci == "")

abbrev pub any_pulls : List SkillSpec → Bool
any_pulls [] = false
any_pulls (skill ∷ skills) = pulls_skill skill || any_pulls skills

unfoldable pub skill_auth_parts : List String → List SkillSpec → Parts
skill_auth_parts [] skills = no_parts
skill_auth_parts (s ∷ ss) skills =
    if any_pulls skills
    then record no_parts {
      volumes =
          record {
            name = "skill-auth";
            source = secret s ((".dockerconfigjson", "config.json") ∷ []);
          }
          ∷ [];
    }
    else no_parts

unfoldable pub mcp_parts : AgentTeam → String → List McpServerSpec → Parts
mcp_parts team agent_name [] = no_parts
mcp_parts team agent_name (server ∷ servers) = record no_parts {
  volumes =
      record {
        name = "mcp-config";
        source = config_map (agent_mcp_config_map_name team agent_name);
      }
      ∷ [];
  mounts = mount "mcp-config" "/var/claude-mcp" true ∷ [];
}
