-- ===== src/Team/Provision/Frame.antt =====
-- The volumes and jobs are ensured without a change to the team in memory.
use kagents.Prelude.{String}
use kagents.Result.{Result, ok, err}
use kagents.Exec.{Found, found, missing, found_or_missing}
use kagents.Exec.Keeps.{explain-Keeps}
use kagents.Api.Spec.{RepositorySpec}
use kagents.Api.Resources.{AgentTeam}
use kagents.Cluster.Objects.{PodSpec, Pvc, Job}
use kagents.Team.Runtime.{Env}
use kagents.Team.Steps.{
  IsUntouched, >>=-IsUntouched, write-IsUntouched, gets-IsUntouched, lift-IsUntouched,
  pure-IsUntouched, raise-IsUntouched, Untouched-refl,
}
use kagents.Team.Provision.{
  create_pvc, ensure_pvc, create_job, ensure_job, ensure_init_job, ensure_push_branch_job,
  check_job_status,
}

module _ (env : Env) where
  create_pvc-IsUntouched :
      (team : AgentTeam) (name storage_class access_mode size : String) (r : Result (Found Pvc))
      → IsUntouched (create_pvc env team name storage_class access_mode size r)
  unfolding create_pvc
  create_pvc-IsUntouched team name storage_class access_mode size (err e) = raise-IsUntouched _ _
  create_pvc-IsUntouched team name storage_class access_mode size (ok (found p)) =
      pure-IsUntouched _
  create_pvc-IsUntouched team name storage_class access_mode size (ok missing) =
      >>=-IsUntouched (explain-Keeps _ (lift-IsUntouched _))
        λ qty. >>=-IsUntouched (lift-IsUntouched _) λ meta. write-IsUntouched env _

  pub ensure_pvc-IsUntouched :
      (name storage_class access_mode size : String)
      → IsUntouched (ensure_pvc env name storage_class access_mode size)
  unfolding ensure_pvc
  ensure_pvc-IsUntouched name storage_class access_mode size =
      >>=-IsUntouched (gets-IsUntouched _) λ team. >>=-IsUntouched (gets-IsUntouched _) λ existing.
        create_pvc-IsUntouched team name storage_class access_mode size (found_or_missing existing)

  create_job-IsUntouched :
      (team : AgentTeam) (name : String) (template : PodSpec) (r : Result (Found Job))
      → IsUntouched (create_job env team name template r)
  unfolding create_job
  create_job-IsUntouched team name template (err e) = raise-IsUntouched _ _
  create_job-IsUntouched team name template (ok (found job)) = pure-IsUntouched _
  create_job-IsUntouched team name template (ok missing) =
      >>=-IsUntouched (lift-IsUntouched _) λ meta. write-IsUntouched env _

  ensure_job-IsUntouched :
      (name : String) (template : AgentTeam → PodSpec) → IsUntouched (ensure_job env name template)
  unfolding ensure_job
  ensure_job-IsUntouched name template = >>=-IsUntouched (gets-IsUntouched _) λ team.
      >>=-IsUntouched (gets-IsUntouched _)
        λ existing. create_job-IsUntouched team name (template team) (found_or_missing existing)

  pub ensure_init_job-IsUntouched : (repo : RepositorySpec) → IsUntouched (ensure_init_job env repo)
  unfolding ensure_init_job
  ensure_init_job-IsUntouched repo =
      >>=-IsUntouched (gets-IsUntouched _) λ team. ensure_job-IsUntouched _ _

  pub ensure_push_branch_job-IsUntouched :
      (repo : RepositorySpec) (branch : String)
      → IsUntouched (ensure_push_branch_job env repo branch)
  unfolding ensure_push_branch_job
  ensure_push_branch_job-IsUntouched repo branch =
      >>=-IsUntouched (gets-IsUntouched _) λ team. ensure_job-IsUntouched _ _

  pub check_job_status-IsUntouched : (name : String) → IsUntouched (check_job_status env name)
  unfolding check_job_status
  check_job_status-IsUntouched name = record { run = Untouched-refl }
