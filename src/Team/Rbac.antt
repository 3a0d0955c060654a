-- ===== src/Team/Rbac.antt =====
-- agentPolicyRules and ensureAgentServiceAccount of agentteam_controller.go.
pub mod LeastPrivilege
pub mod Frame
use kagents.Prelude.{
  String, Bool, true, false, List, [], ◌∷◌, ◌++◌, ◌==◌, ◌<>◌, length, if◌then◌else◌,
}
use kagents.Result.{Result, Error, ok, err, wrap, is_already_exists}
use kagents.Exec.{
  Exec, Found, found, missing, found_or_missing, gets, pure, raise, lift, attempt, explain, ◌>>=◌,
  ◌>>◌,
}
use kagents.Api.Spec.{AuthSpec}
use kagents.Api.Resources.{ObjectMeta, AgentTeam}
use kagents.Cluster.Objects.{PolicyRule, Role, RoleBinding, ServiceAccount}
use kagents.Team.Names.{agent_service_account_name, team_pvc_names}
use kagents.Team.Runtime.{Env, Action, write}

abbrev pub secret_names : AuthSpec → List String
secret_names auth =
    (if auth.api_key_secret == "" then [] else auth.api_key_secret ∷ [])
    ++ (if auth.oauth_secret == "" then [] else auth.oauth_secret ∷ [])

-- A rule on the named objects, unless there are none.
rule_for : String → List String → List String → List PolicyRule
rule_for resource [] verbs = []
rule_for resource (n ∷ names) verbs =
    record {
      api_groups = "" ∷ [];
      resources = resource ∷ [];
      resource_names = n ∷ names;
      verbs = verbs;
    }
    ∷ []

unfoldable pub agent_policy_rules : AgentTeam → List PolicyRule
unfolding rule_for
agent_policy_rules team =
    rule_for "secrets" (secret_names team.spec.auth) ("get" ∷ [])
    ++ rule_for "persistentvolumeclaims" (team_pvc_names team) ("get" ∷ "list" ∷ "watch" ∷ [])

-- metav1.ObjectMeta{Name: name, Namespace: team.Namespace}
abbrev pub named : AgentTeam → String → ObjectMeta
named team name = record {
  name = name;
  namespace = team.meta.namespace;
  labels = [];
  annotations = [];
  creation_timestamp = 0;
  owner_references = [];
}

module _ (env : Env) where
  open env use {World}

  -- A create where an object that is already there is as good.
  abbrev pub tolerate_exists : String → Result (Unit {0}) → Result (Unit {0})
  tolerate_exists text (ok u) = ok u
  tolerate_exists text (err e) = if is_already_exists e then ok tt else err (wrap text e)

  create_or_keep : String → (World → Result (Unit {0}) × World) → Action env (Unit {0})
  create_or_keep text create = do r ← attempt (write env create); lift (tolerate_exists text r)

  -- The switch on the Get of the existing role.
  put_role : String → ObjectMeta → List PolicyRule → Result (Found Role) → Action env (Unit {0})
  put_role name meta rules (ok missing) =
      explain ("creating Role " <> name)
        (write env λ w. env.roles.create w (record { meta = meta; rules = rules }))
  put_role name meta rules (ok (found existing)) =
      explain ("updating Role " <> name)
        (write env λ w. env.roles.update w (record existing { rules = rules }))
  put_role name meta rules (err e) = raise e

  unfoldable pub ensure_agent_service_account : String → Action env (Unit {0})
  unfolding create_or_keep put_role
  ensure_agent_service_account agent_name = do
    team ← gets (λ s. s.team)
    let name = agent_service_account_name team agent_name
    meta ← lift (env.set_controller_reference team (named team name))
    create_or_keep ("creating ServiceAccount " <> name)
        λ w. env.service_accounts.create w (record { meta = meta })
    existing ← gets (λ s. env.roles.get s.world team.meta.namespace name)
    put_role name meta (agent_policy_rules team) (found_or_missing existing)
    create_or_keep ("creating RoleBinding " <> name) λ w.
        env.role_bindings.create w
          (record { meta = meta; subjects = (name, team.meta.namespace) ∷ []; role_ref = name })
