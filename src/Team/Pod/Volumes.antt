-- ===== src/Team/Pod/Volumes.antt =====
-- The repository, output and workspace input volumes of buildAgentPod.
use kagents.Prelude.{
  ℕ, suc, String, true, false, not, Option, none, some, List, [], ◌∷◌, ◌==◌, ◌<>◌, show_nat,
  if◌then◌else◌, is_some,
}
use kagents.Api.Spec.{WorkspaceSpec, WorkspaceInputSpec, WorkspaceOutputSpec}
use kagents.Api.Resources.{AgentTeam}
use kagents.Cluster.Objects.{Volume, config_map}
use kagents.Team.Names.{team_state_pvc_name, repo_pvc_name, output_claim, or_default}
use kagents.Team.Pod.Sections.{pvc_volume, pvc_volume_read_only, mount, Parts, no_parts, ◌<+>◌}

unfoldable pub state_parts : AgentTeam → Parts
state_parts team = record no_parts {
  volumes = pvc_volume "team-state" (team_state_pvc_name team) ∷ [];
  mounts = mount "team-state" "/var/claude-state" false ∷ [];
}

unfoldable pub repository_parts : AgentTeam → Parts
repository_parts team =
    if is_some team.spec.repository
    then record no_parts {
      volumes = pvc_volume "repo" (repo_pvc_name team) ∷ [];
      mounts = mount "repo" "/workspace" false ∷ [];
    }
    else no_parts

abbrev pub output_mount_path : WorkspaceOutputSpec → String
output_mount_path out = or_default out.mount_path "/workspace/output"

unfoldable pub output_parts : AgentTeam → Option WorkspaceOutputSpec → Parts
output_parts team none = no_parts
output_parts team (some out) = record no_parts {
  volumes = pvc_volume "workspace-output" (output_claim team out) ∷ [];
  mounts = mount "workspace-output" (output_mount_path out) false ∷ [];
}

unfoldable pub workspace_input_volume : String → WorkspaceInputSpec → Option Volume
workspace_input_volume name input =
    if not (input.config_map == "")
    then some (record { name = name; source = config_map input.config_map })
    else if not (input.pvc == "")
    then some (pvc_volume_read_only name input.pvc)
    else none

unfoldable pub workspace_input_part : String → WorkspaceInputSpec → Option Volume → Parts
workspace_input_part name input none = no_parts
workspace_input_part name input (some volume) = record no_parts {
  volumes = volume ∷ [];
  mounts = mount name input.mount_path true ∷ [];
}

unfoldable pub workspace_input_parts : ℕ → List WorkspaceInputSpec → Parts
unfolding workspace_input_part workspace_input_volume
workspace_input_parts i [] = no_parts
workspace_input_parts i (input ∷ inputs) =
    let name = "workspace-input-" <> show_nat i in
    workspace_input_part name input (workspace_input_volume name input)
    <+> workspace_input_parts (suc i) inputs

unfoldable pub inputs_of : Option WorkspaceSpec → List WorkspaceInputSpec
inputs_of none = []
inputs_of (some workspace) = workspace.inputs
