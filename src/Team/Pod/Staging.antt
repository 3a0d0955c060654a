-- ===== src/Team/Pod/Staging.antt =====
-- The staged inputs of buildAgentPod.
use kagents.Prelude.{
  ℕ, suc, String, true, false, Option, none, some, List, [], ◌∷◌, ◌==◌, ◌<>◌, show_nat,
  if◌then◌else◌,
}
use kagents.Api.Spec.{InputSpec, WorkspaceOutputSpec}
use kagents.Api.Resources.{AgentTeam}
use kagents.Fmt.{quote, join_path}
use kagents.Team.Artifacts.{find_producer_output_path}
use kagents.Team.Runtime.{Reconciler}
use kagents.Team.Pod.Sections.{agent_image, mount, empty_dir_volume, Parts, no_parts, ◌<+>◌}
use kagents.Team.Pod.Volumes.{output_mount_path}

-- An input whose producer or artifact is not declared is passed over.
unfoldable pub staged_input : Reconciler → String → ℕ → InputSpec → String → Parts
staged_input r out_mount_path i input producer_path =
    if producer_path == ""
    then no_parts
    else (let vol_name = "input-" <> show_nat i in
        record {
          volumes = empty_dir_volume vol_name ∷ [];
          mounts = mount vol_name input.mount_path true ∷ [];
          init_containers =
              record {
                name = "stage-input-" <> show_nat i;
                image = agent_image r;
                command =
                    "sh"
                    ∷ "-c"
                    ∷ ("mkdir -p "
                        <> quote input.mount_path
                        <> " && cp "
                        <> quote producer_path
                        <> " "
                        <> quote (join_path input.mount_path input.artifact))
                    ∷ [];
                env = [];
                volume_mounts =
                    mount "workspace-output" out_mount_path true
                    ∷ mount vol_name input.mount_path false
                    ∷ [];
                resources = record { limits = []; requests = [] };
              }
              ∷ [];
        })

unfoldable pub staged_inputs : Reconciler → AgentTeam → String → ℕ → List InputSpec → Parts
unfolding staged_input
staged_inputs r team out_mount_path i [] = no_parts
staged_inputs r team out_mount_path i (input ∷ inputs) =
    staged_input r out_mount_path i input
      (find_producer_output_path team.spec.teammates input.from input.artifact)
    <+> staged_inputs r team out_mount_path (suc i) inputs

unfoldable pub staging_parts :
    Reconciler → AgentTeam → List InputSpec → Option WorkspaceOutputSpec → Parts
unfolding staged_inputs
staging_parts r team inputs none = no_parts
staging_parts r team inputs (some out) = staged_inputs r team (output_mount_path out) 0 inputs
