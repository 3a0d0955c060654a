-- ===== src/Team/Phases/Starting.antt =====
-- The phases that reconcilePending and reconcileInitializing can write.
use kagents.Prelude.{refl, String, Option, none, some}
use kagents.Exec.Keeps.{explain-Keeps}
use kagents.Api.Spec.{RepositorySpec, WorkspaceOutputSpec}
use kagents.Team.Names.{output_of}
use kagents.Team.Provision.{JobStatus, completed, failed, unfinished}
use kagents.Team.Provision.Frame.{
  ensure_pvc-IsUntouched, ensure_init_job-IsUntouched, check_job_status-IsUntouched,
}
use kagents.Team.Agents.Frame.{ensure_agent_pod-IsUntouched, deploy_teammates-IsQuiet}
use kagents.Team.PullRequest.{repository_with_url}
use kagents.Team.Runtime.{Env, metric, is_timed_out}
use kagents.Team.Steps.{
  IsQuiet, >>=-IsQuiet, IsUntouched-IsQuiet, gets-IsUntouched, pure-IsUntouched,
  put_condition-IsQuiet, record_event-IsUntouched, emit-IsUntouched, send_event-IsUntouched,
}
use kagents.Team.Phases.Legs.{
  EndsIn, Moves, IsQuiet-EndsIn, IsQuiet-first, Moves-first, >>=-Moves, EndsIn-branch,
  change_status-Moves, put_phase-Moves, update-EndsIn,
}
use kagents.Team.Phases.{
  done, after, enter_phase, end_in, provision_repository, provision_output, reconcile_pending,
  deploy_agents, after_init_job, await_init_job, reconcile_initializing,
}

module _ (env : Env) where
  pub enter_phase-Moves :
      (phase status reason text event_type event_text : String)
      → Moves phase (enter_phase env phase status reason text event_type event_text)
  unfolding enter_phase
  enter_phase-Moves phase status reason text event_type event_text =
      >>=-Moves phase (put_phase-Moves env phase) λ _.
        >>=-IsQuiet (put_condition-IsQuiet env _ _ _)
          λ _. IsUntouched-IsQuiet (record_event-IsUntouched env _ _ _)

  module _ (p : String) (Q : String → Type 0) where
    pub end_in-EndsIn :
        (phase reason text event_text : String)
        → Q phase
        → EndsIn p Q (end_in env phase reason text event_text)
    unfolding end_in
    end_in-EndsIn phase reason text event_text q =
        Moves-first p Q phase (enter_phase-Moves phase _ _ _ _ _)
          λ _. update-EndsIn env phase Q done q

    provision_repository-IsQuiet :
        (repo : Option RepositorySpec) → IsQuiet (provision_repository env repo)
    unfolding provision_repository
    provision_repository-IsQuiet none = IsUntouched-IsQuiet (pure-IsUntouched _)
    provision_repository-IsQuiet (some repo) =
        >>=-IsQuiet (IsUntouched-IsQuiet (gets-IsUntouched _)) λ team.
          >>=-IsQuiet (IsUntouched-IsQuiet (explain-Keeps _ (ensure_pvc-IsUntouched env _ _ _ _)))
            λ _. IsUntouched-IsQuiet (explain-Keeps _ (ensure_init_job-IsUntouched env repo))

    provision_output-IsQuiet :
        (out : Option WorkspaceOutputSpec) → IsQuiet (provision_output env out)
    unfolding provision_output
    provision_output-IsQuiet none = IsUntouched-IsQuiet (pure-IsUntouched _)
    provision_output-IsQuiet (some out) =
        >>=-IsQuiet (IsUntouched-IsQuiet (gets-IsUntouched _))
          λ team. IsUntouched-IsQuiet (explain-Keeps _ (ensure_pvc-IsUntouched env _ _ _ _))

    pub reconcile_pending-EndsIn : Q "Initializing" → EndsIn p Q (reconcile_pending env)
    unfolding reconcile_pending
    reconcile_pending-EndsIn q =
        IsQuiet-first p Q (IsUntouched-IsQuiet (gets-IsUntouched _)) λ team.
          IsQuiet-first p Q
            (IsUntouched-IsQuiet (explain-Keeps _ (ensure_pvc-IsUntouched env _ _ _ _)))
            λ _.
              IsQuiet-first p Q
                (provision_repository-IsQuiet (repository_with_url team.spec.repository))
                λ _.
                  IsQuiet-first p Q (provision_output-IsQuiet (output_of team.spec.workspace)) λ _.
                    Moves-first p Q "Initializing"
                      (change_status-Moves env "Initializing" _ (λ st. refl))
                      λ _. IsQuiet-first _ Q (put_condition-IsQuiet env _ _ _) λ _.
                        IsQuiet-first _ Q (IsUntouched-IsQuiet (record_event-IsUntouched env _ _ _))
                          λ _.
                            IsQuiet-first _ Q
                              (IsUntouched-IsQuiet (emit-IsUntouched env (metric _) tt))
                              λ _. update-EndsIn env "Initializing" Q (after 5) q

    deploy_agents-EndsIn : Q "Running" → EndsIn p Q (deploy_agents env)
    unfolding deploy_agents
    deploy_agents-EndsIn q = IsQuiet-first p Q (IsUntouched-IsQuiet (gets-IsUntouched _)) λ team.
        IsQuiet-first p Q
          (IsUntouched-IsQuiet (explain-Keeps _ (ensure_agent_pod-IsUntouched env _)))
          λ _. IsQuiet-first p Q (deploy_teammates-IsQuiet env team.spec.teammates) λ _.
            Moves-first p Q "Running" (enter_phase-Moves "Running" _ _ _ _ _) λ _.
              IsQuiet-first _ Q (IsUntouched-IsQuiet (send_event-IsUntouched env _ _))
                λ _. update-EndsIn env "Running" Q (after 30) q

    after_init_job-EndsIn :
        Q "Failed" → Q "Running" → (st : JobStatus) → EndsIn p Q (after_init_job env st)
    unfolding after_init_job
    after_init_job-EndsIn f r failed = end_in-EndsIn "Failed" _ _ _ f
    after_init_job-EndsIn f r unfinished =
        IsQuiet-EndsIn p Q (IsUntouched-IsQuiet (pure-IsUntouched _))
    after_init_job-EndsIn f r completed = deploy_agents-EndsIn r

    await_init_job-EndsIn :
        Q "Failed"
        → Q "Running"
        → (repo : Option RepositorySpec) → EndsIn p Q (await_init_job env repo)
    unfolding await_init_job
    await_init_job-EndsIn f r none = deploy_agents-EndsIn r
    await_init_job-EndsIn f r (some repo) =
        IsQuiet-first p Q (IsUntouched-IsQuiet (gets-IsUntouched _)) λ team.
          IsQuiet-first p Q
            (IsUntouched-IsQuiet (explain-Keeps _ (check_job_status-IsUntouched env _)))
            λ st. after_init_job-EndsIn f r st

    pub reconcile_initializing-EndsIn :
        Q "TimedOut" → Q "Failed" → Q "Running" → EndsIn p Q (reconcile_initializing env)
    unfolding reconcile_initializing
    reconcile_initializing-EndsIn t f r = record {
      run = λ s h.
          EndsIn-branch Q s (is_timed_out env s.team) _ _
            ((end_in-EndsIn "TimedOut" _ _ _ t).run s h)
            ((await_init_job-EndsIn f r (repository_with_url s.team.spec.repository)).run s h);
    }
