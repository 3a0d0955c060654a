-- ===== src/Team/Pod/Sections.antt =====
-- The arguments of buildAgentPod, and what each of its sections appends to the pod.
use kagents.Prelude.{String, Bool, true, false, Option, List, [], ◌++◌, if◌then◌else◌}
use kagents.Api.Spec.{ResourceRequirements, ScopeSpec, SkillSpec, McpServerSpec, InputSpec}
use kagents.Cluster.Objects.{EnvVar, value, Volume, claim, empty_dir, VolumeMount, Container}
use kagents.Harness.{claude_code_runner_image}
use kagents.Team.Names.{or_default}
use kagents.Team.Runtime.{Reconciler}

-- The arguments of buildAgentPod and ensureAgentPod behind the team.
pub record Agent : Type 0 where
  pub name : String
  pub model : String
  pub prompt : String
  pub permission_mode : String
  pub is_lead : Bool
  pub resources : ResourceRequirements
  pub scope : Option ScopeSpec
  pub skills : List SkillSpec
  pub mcp_servers : List McpServerSpec
  pub inputs : List InputSpec

abbrev pub default_skill_puller_image : String
default_skill_puller_image = "ghcr.io/oras-project/oras:v1.2.0"

unfoldable pub agent_image : Reconciler → String
agent_image r = or_default r.agent_image claude_code_runner_image

unfoldable pub skill_puller_image : Reconciler → String
skill_puller_image r = or_default r.skill_puller_image default_skill_puller_image

abbrev pub env_var : String → String → EnvVar
env_var name text = record { name = name; source = value text }

unfoldable pub pvc_volume : String → String → Volume
pvc_volume name claim_name = record { name = name; source = claim claim_name false }

unfoldable pub pvc_volume_read_only : String → String → Volume
pvc_volume_read_only name claim_name = record { name = name; source = claim claim_name true }

abbrev pub mount : String → String → Bool → VolumeMount
mount name path read_only = record { name = name; mount_path = path; read_only = read_only }

abbrev pub empty_dir_volume : String → Volume
empty_dir_volume name = record { name = name; source = empty_dir }

abbrev pub role_of : Agent → String
role_of agent = if agent.is_lead then "lead" else "teammate"

-- What a section appends to the volumes, mounts and init containers of the pod.
pub record Parts : Type 0 where
  pub volumes : List Volume
  pub mounts : List VolumeMount
  pub init_containers : List Container

abbrev pub no_parts : Parts
no_parts = record { volumes = []; mounts = []; init_containers = [] }

infixr 65 ◌<+>◌
abbrev pub ◌<+>◌ : Parts → Parts → Parts
a <+> b = record {
  volumes = a.volumes ++ b.volumes;
  mounts = a.mounts ++ b.mounts;
  init_containers = a.init_containers ++ b.init_containers;
}
