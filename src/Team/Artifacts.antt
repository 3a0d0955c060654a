-- ===== src/Team/Artifacts.antt =====
-- Output routing: findProducerOutputPath and recordTeammateArtifacts of agentteam_controller.go.
pub mod Laws
use kagents.Prelude.{
  String, Bool, List, [], ◌∷◌, ◌++◌, map, ◌==◌, ◌<>◌, contains, base_name, if◌then◌else◌, Option,
  none, some,
}
use kagents.Api.Spec.{TeammateSpec, OutputSpec}
use kagents.Api.Status.{Time, ArtifactStatus}

unfoldable pub find_output : List OutputSpec → String → Option String
find_output [] artifact = none
find_output (out ∷ outs) artifact =
    if base_name out.path == artifact then some out.path else find_output outs artifact

-- The first matching output of a teammate named `from`; "" where there is none.
unfoldable pub find_producer_output_path : List TeammateSpec → String → String → String
unfolding find_output
find_producer_output_path [] from artifact = ""
find_producer_output_path (tm ∷ rest) from artifact =
    let later = find_producer_output_path rest from artifact in
    if tm.name == from
    then elim (find_output tm.outputs artifact) [ none ↦ later | some path ↦ path ]
    else later

abbrev pub artifact_key : ArtifactStatus → String
artifact_key a = a.produced_by <> "/" <> a.name

abbrev pub artifact_of : TeammateSpec → Time → OutputSpec → ArtifactStatus
artifact_of tm at out = record {
  name = base_name out.path;
  path = out.path;
  produced_by = tm.name;
  produced_at = at;
}

-- The entries that the loop appends; `existing` is not extended on the way.
unfoldable pub new_artifacts :
    List String → TeammateSpec → Time → List OutputSpec → List ArtifactStatus
new_artifacts existing tm at [] = []
new_artifacts existing tm at (out ∷ outs) =
    if contains (artifact_key (artifact_of tm at out)) existing
    then new_artifacts existing tm at outs
    else artifact_of tm at out ∷ new_artifacts existing tm at outs

-- team.Status.Artifacts after the call. Each new entry also raises the artifact counter once.
unfoldable pub record_teammate_artifacts :
    List ArtifactStatus → TeammateSpec → Time → List ArtifactStatus
record_teammate_artifacts artifacts tm at =
    artifacts ++ new_artifacts (map artifact_key artifacts) tm at tm.outputs
