-- ===== src/Team/Order.antt =====
-- Dependency ordering and stage approval of agentteam_controller.go. The team is never nil there.
pub mod Effective
use kagents.Prelude.{
  String, Bool, true, false, not, Option, none, some, List, [], ◌∷◌, ◌++◌, map, ◌==◌, ◌<>◌, ◌||◌,
  Dict, lookup, lookup_or, insert, contains, if◌then◌else◌,
}
use kagents.Api.Spec.{TeammateSpec, StageSpec, PipelineSpec, InputSpec}
use kagents.Api.Resources.{AgentTeam}

-- The nested loops of stageForTeammate: the first stage that lists the teammate.
unfoldable pub find_stage : List StageSpec → String → Option StageSpec
find_stage [] tm_name = none
find_stage (st ∷ rest) tm_name =
    if contains tm_name st.teammates then some st else find_stage rest tm_name

abbrev stages_of : Option PipelineSpec → List StageSpec
stages_of none = []
stages_of (some pipeline) = pipeline.stages

unfoldable pub stage_for_teammate : AgentTeam → String → Option StageSpec
stage_for_teammate team tm_name = find_stage (stages_of team.spec.pipeline) tm_name

-- byName: a later stage of the same name replaces an earlier one.
unfoldable pub index_stages : Dict StageSpec → List StageSpec → Dict StageSpec
index_stages by_name [] = by_name
index_stages by_name (st ∷ rest) = index_stages (insert st.name st by_name) rest

abbrev teammates_of : Option StageSpec → List String
teammates_of none = []
teammates_of (some st) = st.teammates

-- The teammates of the named stages; an unknown stage is passed over.
unfoldable pub upstream_teammates : Dict StageSpec → List String → List String
upstream_teammates by_name [] = []
upstream_teammates by_name (dep ∷ deps) =
    teammates_of (lookup dep by_name) ++ upstream_teammates by_name deps

stage_dependencies : List StageSpec → Option StageSpec → List String
stage_dependencies stages none = []
stage_dependencies stages (some stage) =
    upstream_teammates (index_stages [] stages) stage.depends_on

unfoldable pub pipeline_dependencies : AgentTeam → String → List String
unfolding stage_dependencies
pipeline_dependencies team tm_name =
    stage_dependencies (stages_of team.spec.pipeline) (stage_for_teammate team tm_name)

-- The closure `add`, over a list: `out` in the order of the additions, which is also the set `seen`.
unfoldable pub add_all : List String → List String → List String
add_all out [] = out
add_all out (name ∷ rest) =
    add_all (if name == "" || contains name out then out else out ++ name ∷ []) rest

abbrev pub input_sources : List InputSpec → List String
input_sources = map (λ input. input.from)

-- What a teammate's ordering names before duplicates and empty names are dropped.
abbrev pub ordering_sources : AgentTeam → TeammateSpec → List String
ordering_sources team tm = elim team.spec.pipeline [
  | none ↦ tm.depends_on
  | some pipeline ↦ pipeline_dependencies team tm.name
]

unfoldable pub effective_dependencies : AgentTeam → TeammateSpec → List String
effective_dependencies team tm =
    add_all (add_all [] (ordering_sources team tm)) (input_sources tm.inputs)

abbrev pub approval_prefix : String
approval_prefix = "approved.kagents.dev/"

-- team.Annotations[key] == "true"
unfoldable pub is_annotated : AgentTeam → String → Bool
is_annotated team key = lookup_or "" key team.meta.annotations == "true"

unfoldable pub stage_approval_granted : AgentTeam → StageSpec → Bool
stage_approval_granted team stage =
    if not stage.approval_required
    then true
    else is_annotated team (approval_prefix <> "stage-" <> stage.name)
