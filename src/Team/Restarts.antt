-- ===== src/Team/Restarts.antt =====
-- Restart counts and pending approvals in the status of the teammates, agentteam_controller.go.
-- An int32 count is a native number: it is only ever raised to a limit that is an int32 itself.
pub mod Laws
use kagents.Prelude.{ℕ, String, Bool, Option, none, some, List, [], ◌∷◌, ◌++◌, ◌==◌, if◌then◌else◌}
use kagents.Api.Spec.{LifecycleSpec}
use kagents.Api.Status.{TeammateStatus}
use kagents.Api.Resources.{AgentTeam}

abbrev pub default_max_restarts : ℕ
default_max_restarts = 3

lifecycle_max_restarts : Option LifecycleSpec → ℕ
lifecycle_max_restarts none = default_max_restarts
lifecycle_max_restarts (some lifecycle) = elim lifecycle.max_restarts [
  | none ↦ default_max_restarts
  | some limit ↦ limit
]

unfoldable pub max_restarts : AgentTeam → ℕ
unfolding lifecycle_max_restarts
max_restarts team = lifecycle_max_restarts team.spec.lifecycle

unfoldable pub teammate_restart_count : List TeammateStatus → String → ℕ
teammate_restart_count [] name = 0
teammate_restart_count (st ∷ rest) name =
    if st.name == name then st.restart_count else teammate_restart_count rest name

unfoldable pub set_teammate_restart_count : List TeammateStatus → String → ℕ → List TeammateStatus
set_teammate_restart_count [] name count = []
set_teammate_restart_count (st ∷ rest) name count =
    if st.name == name
    then record st { restart_count = count } ∷ rest
    else st ∷ set_teammate_restart_count rest name count

-- TeammateStatus{}
abbrev pub zero_teammate : TeammateStatus
zero_teammate = record {
  pod_name = "";
  phase = "";
  name = "";
  tasks_completed = 0;
  tasks_claimed = 0;
  pending_approval = "";
  restart_count = 0;
}

unfoldable pub set_teammate_pending_approval :
    List TeammateStatus → String → String → List TeammateStatus
set_teammate_pending_approval [] tm_name event =
    record zero_teammate { name = tm_name; pending_approval = event } ∷ []
set_teammate_pending_approval (st ∷ rest) tm_name event =
    if st.name == tm_name
    then record st { pending_approval = event } ∷ rest
    else st ∷ set_teammate_pending_approval rest tm_name event

unfoldable pub clear_teammate_pending_approval : List TeammateStatus → String → List TeammateStatus
clear_teammate_pending_approval [] tm_name = []
clear_teammate_pending_approval (st ∷ rest) tm_name =
    if st.name == tm_name
    then record st { pending_approval = "" } ∷ rest
    else st ∷ clear_teammate_pending_approval rest tm_name
