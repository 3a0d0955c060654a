-- ===== src/Team/Finish/Frame.antt =====
-- The finalization and the completion change the branch, deliveries and pull request in the status
-- in memory, and write no status.
use kagents.Prelude.{refl, String, Option, none, some, List, [], ◌∷◌, ◌==◌, ◌||◌}
use kagents.Result.{Result, ok, err}
use kagents.Exec.Keeps.{explain-Keeps, attempt-Keeps}
use kagents.Team.PullRequest.{repository_with_url}
use kagents.Team.PullRequest.Frame.{execute_create_pr-IsQuiet}
use kagents.Api.Spec.{RepositorySpec, DeliveryTarget, WebhookSpec}
use kagents.Team.Provision.{JobStatus, completed, failed, unfinished}
use kagents.Team.Provision.Frame.{ensure_push_branch_job-IsUntouched, check_job_status-IsUntouched}
use kagents.Team.Runtime.{Env, metric, webhook_of}
use kagents.Team.Steps.{
  IsQuiet, >>=-IsUntouched, >>=-IsQuiet, IsUntouched-IsQuiet, Quiet-refl, Quiet-branch,
  change_status-IsQuiet, emit-IsUntouched, record_event-IsUntouched, gets-IsUntouched,
  lift-IsUntouched, pure-IsUntouched, raise-IsUntouched,
}
use kagents.Team.Finish.{
  on_complete_of, conclude_push, push_branch, finalize_repository, run_finalization,
  report_delivery, send_to, deliver_all, delivery_of, execute_delivery, report_pr, create_pr,
  notify_completed, execute_on_complete,
}

module _ (env : Env) where
  conclude_push-IsQuiet :
      (branch : String) (status : JobStatus) → IsQuiet (conclude_push env branch status)
  unfolding conclude_push
  conclude_push-IsQuiet branch failed = IsUntouched-IsQuiet (raise-IsUntouched _ _)
  conclude_push-IsQuiet branch unfinished = IsUntouched-IsQuiet (pure-IsUntouched _)
  conclude_push-IsQuiet branch completed =
      >>=-IsQuiet (change_status-IsQuiet env _ (λ st. refl)) λ _.
        IsUntouched-IsQuiet
          (>>=-IsUntouched (record_event-IsUntouched env _ _ _) λ _. pure-IsUntouched _)

  push_branch-IsQuiet : (repo : RepositorySpec) → IsQuiet (push_branch env repo)
  unfolding push_branch
  push_branch-IsQuiet repo = >>=-IsQuiet (IsUntouched-IsQuiet (gets-IsUntouched _)) λ team.
      >>=-IsQuiet (IsUntouched-IsQuiet (explain-Keeps _ (lift-IsUntouched _))) λ branch.
        >>=-IsQuiet
          (IsUntouched-IsQuiet
            (explain-Keeps _ (ensure_push_branch_job-IsUntouched env repo branch)))
          λ _.
            >>=-IsQuiet (IsUntouched-IsQuiet (check_job_status-IsUntouched env _))
              λ status. conclude_push-IsQuiet branch status

  finalize_repository-IsQuiet :
      (repo : Option RepositorySpec) → IsQuiet (finalize_repository env repo)
  unfolding finalize_repository
  finalize_repository-IsQuiet none = record { run = Quiet-refl }
  finalize_repository-IsQuiet (some repo) = record {
    run = λ s.
        Quiet-branch s (s.team.status.consolidated_branch == "") _ _
          ((push_branch-IsQuiet repo).run s) (Quiet-refl s);
  }

  pub run_finalization-IsQuiet : IsQuiet (run_finalization env)
  unfolding run_finalization
  run_finalization-IsQuiet = record {
    run = λ s.
        Quiet-branch s
          (on_complete_of s.team.spec.lifecycle == "push-branch"
            || on_complete_of s.team.spec.lifecycle == "create-pr")
          _ _ ((finalize_repository-IsQuiet (repository_with_url s.team.spec.repository)).run s)
          (Quiet-refl s);
  }

  report_delivery-IsQuiet :
      (target : DeliveryTarget) (r : Result (Unit {0})) → IsQuiet (report_delivery env target r)
  unfolding report_delivery
  report_delivery-IsQuiet target (ok u) = record {
    run = λ s.
        (>>=-IsQuiet (IsUntouched-IsQuiet (emit-IsUntouched env (metric _) tt)) λ _.
            >>=-IsQuiet (IsUntouched-IsQuiet (record_event-IsUntouched env _ _ _))
              λ _. change_status-IsQuiet env _ (λ st. refl)).run
          s;
  }
  report_delivery-IsQuiet target (err e) = record {
    run = λ s.
        (>>=-IsQuiet (IsUntouched-IsQuiet (emit-IsUntouched env (metric _) tt)) λ _.
            >>=-IsQuiet (IsUntouched-IsQuiet (record_event-IsUntouched env _ _ _))
              λ _. change_status-IsQuiet env _ (λ st. refl)).run
          s;
  }

  send_to-IsQuiet : (target : DeliveryTarget) → IsQuiet (send_to env target)
  unfolding send_to
  send_to-IsQuiet target = record { run = λ s. (refl, refl, refl, refl) }

  deliver_all-IsQuiet : (targets : List DeliveryTarget) → IsQuiet (deliver_all env targets)
  unfolding deliver_all
  deliver_all-IsQuiet [] = record { run = Quiet-refl }
  deliver_all-IsQuiet (target ∷ targets) = record {
    run = λ s.
        (>>=-IsQuiet (send_to-IsQuiet target) λ r.
            >>=-IsQuiet (report_delivery-IsQuiet target r) λ _. deliver_all-IsQuiet targets).run
          s;
  }

  report_pr-IsQuiet : (r : Result (Unit {0})) → IsQuiet (report_pr env r)
  unfolding report_pr
  report_pr-IsQuiet (ok u) = IsUntouched-IsQuiet (pure-IsUntouched _)
  report_pr-IsQuiet (err e) =
      IsUntouched-IsQuiet
        (>>=-IsUntouched (record_event-IsUntouched env _ _ _) λ _. raise-IsUntouched _ _)

  create_pr-IsQuiet : IsQuiet (create_pr env)
  unfolding create_pr
  create_pr-IsQuiet = >>=-IsQuiet (attempt-Keeps (execute_create_pr-IsQuiet env)) report_pr-IsQuiet

  notify_completed-IsQuiet : (hook : Option WebhookSpec) → IsQuiet (notify_completed env hook)
  unfolding notify_completed
  notify_completed-IsQuiet none = record { run = Quiet-refl }
  notify_completed-IsQuiet (some hook) = record { run = λ s. (refl, refl, refl, refl) }

  pub execute_on_complete-IsQuiet : IsQuiet (execute_on_complete env)
  unfolding execute_on_complete execute_delivery
  execute_on_complete-IsQuiet = record {
    run = λ s.
        Quiet-branch s (on_complete_of s.team.spec.lifecycle == "notify") _ _
          ((notify_completed-IsQuiet (webhook_of env s.team.spec.observability)).run s)
          (Quiet-branch s (on_complete_of s.team.spec.lifecycle == "create-pr") _ _
            (create_pr-IsQuiet.run s)
            (Quiet-branch s (on_complete_of s.team.spec.lifecycle == "deliver") _ _
              ((deliver_all-IsQuiet (delivery_of env s.team.spec.lifecycle)).run s)
              (Quiet-refl s)));
  }
