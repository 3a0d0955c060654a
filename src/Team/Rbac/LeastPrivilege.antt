-- ===== src/Team/Rbac/LeastPrivilege.antt =====
-- What the role of an agent permits.
use kagents.Prelude.{◌≡◌, ◌≢◌, ◌⊎◌, String, List, [], ◌∷◌, All, In}
use kagents.Api.Resources.{AgentTeam}
use kagents.Cluster.Objects.{PolicyRule}
use kagents.Team.Names.{team_pvc_names}
use kagents.Team.Rbac.{secret_names}

-- What a rule permits: the verbs, on the objects of the core group that it names, of the one resource.
-- A rule that names no object would hold for all of them.
abbrev pub Permits : String → List String → List String → PolicyRule → Type 0
Permits resource objects verbs rule =
    (rule.api_groups ≡ "" ∷ [])
    × (rule.resources ≡ resource ∷ [])
    × (rule.resource_names ≢ [])
    × All (λ n. In n objects) rule.resource_names
    × All (λ v. In v verbs) rule.verbs

-- The rule reads secrets of the team's credentials, one at a time, or reads claims of the team.
abbrev pub IsNarrow : AgentTeam → PolicyRule → Type 0
IsNarrow team rule =
    Permits "secrets" (secret_names team.spec.auth) ("get" ∷ []) rule
    ⊎ Permits "persistentvolumeclaims" (team_pvc_names team) ("get" ∷ "list" ∷ "watch" ∷ []) rule
