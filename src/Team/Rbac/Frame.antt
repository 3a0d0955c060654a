-- ===== src/Team/Rbac/Frame.antt =====
-- The account, role and binding of an agent are ensured without a change to the team in memory.
use kagents.Prelude.{String, List}
use kagents.Result.{Result, ok, err}
use kagents.Exec.{Found, found, missing}
use kagents.Exec.Keeps.{explain-Keeps, attempt-Keeps}
use kagents.Api.Resources.{ObjectMeta}
use kagents.Cluster.Objects.{PolicyRule, Role}
use kagents.Team.Runtime.{Env}
use kagents.Team.Steps.{
  IsUntouched, >>=-IsUntouched, write-IsUntouched, gets-IsUntouched, lift-IsUntouched,
  raise-IsUntouched,
}
use kagents.Team.Rbac.{create_or_keep, put_role, ensure_agent_service_account}

module _ (env : Env) where
  open env use {World}

  create_or_keep-IsUntouched :
      (text : String) (create : World → Result (Unit {0}) × World)
      → IsUntouched (create_or_keep env text create)
  unfolding create_or_keep
  create_or_keep-IsUntouched text create =
      >>=-IsUntouched (attempt-Keeps (write-IsUntouched env _)) λ r. lift-IsUntouched _

  put_role-IsUntouched :
      (name : String) (meta : ObjectMeta) (rules : List PolicyRule) (r : Result (Found Role))
      → IsUntouched (put_role env name meta rules r)
  unfolding put_role
  put_role-IsUntouched name meta rules (ok missing) = explain-Keeps _ (write-IsUntouched env _)
  put_role-IsUntouched name meta rules (ok (found role)) = explain-Keeps _ (write-IsUntouched env _)
  put_role-IsUntouched name meta rules (err e) = raise-IsUntouched _ _

  pub ensure_agent_service_account-IsUntouched :
      (agent_name : String) → IsUntouched (ensure_agent_service_account env agent_name)
  unfolding ensure_agent_service_account
  ensure_agent_service_account-IsUntouched agent_name = >>=-IsUntouched (gets-IsUntouched _) λ team.
      >>=-IsUntouched (lift-IsUntouched _) λ meta.
        >>=-IsUntouched (create_or_keep-IsUntouched _ _) λ _.
          >>=-IsUntouched (gets-IsUntouched _) λ existing.
            >>=-IsUntouched (put_role-IsUntouched _ _ _ _) λ _. create_or_keep-IsUntouched _ _
