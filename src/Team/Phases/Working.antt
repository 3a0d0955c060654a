-- ===== src/Team/Phases/Working.antt =====
-- The phases that reconcileRunning can write.
use kagents.Prelude.{refl, String, Bool, true, false, ◌==◌}
use kagents.Result.{Result, ok, err}
use kagents.Exec.Keeps.{attempt-Keeps}
use kagents.Team.Agents.Frame.{spawn_teammates-IsQuiet}
use kagents.Team.Sync.{Outcome, all_done, any_failed, waiting, all_pods_complete}
use kagents.Team.Sync.Frame.{
  terminate_all_pods-IsUntouched, sync_pod_statuses-IsQuiet, updates-metrics,
}
use kagents.Team.Failures.Frame.{
  handle_teammate_failures-IsQuiet, fire_teammate_error_events-IsUntouched,
}
use kagents.Team.Finish.Frame.{run_finalization-IsQuiet, execute_on_complete-IsQuiet}
use kagents.Team.Spending.Frame.{maybe_fire_budget_warning-IsQuiet, export_budget_metrics-IsQuiet}
use kagents.Team.Runtime.{Env, is_timed_out, is_budget_exceeded}
use kagents.Team.Steps.{
  IsQuiet, IsUntouched-IsQuiet, gets-IsUntouched, Quiet-refl, change_status-IsQuiet,
  put_condition-IsQuiet,
}
use kagents.Team.Phases.Legs.{EndsIn, IsQuiet-first, Moves-first, EndsIn-branch, update-EndsIn}
use kagents.Team.Phases.{
  done, after, terminate_in, fail_and_report, after_finalization, conclude_finalization, conclude,
  spawn_and_conclude, refresh_pipeline_status, monitor, check_budget, estimate_and_check,
  reconcile_running,
}
use kagents.Team.Phases.Starting.{enter_phase-Moves, end_in-EndsIn}

module _ (env : Env) where
  refresh_pipeline_status-IsQuiet : IsQuiet (refresh_pipeline_status env)
  unfolding refresh_pipeline_status
  refresh_pipeline_status-IsQuiet = record {
    run = λ s. (refl, refl, refl, updates-metrics _ _ s.effects _);
  }

  module _ (p : String) (Q : String → Type 0) where
    terminate_in-EndsIn :
        (phase reason text event_text : String)
        → Q phase
        → EndsIn p Q (terminate_in env phase reason text event_text)
    unfolding terminate_in
    terminate_in-EndsIn phase reason text event_text q =
        IsQuiet-first p Q (IsUntouched-IsQuiet (terminate_all_pods-IsUntouched env))
          λ _. end_in-EndsIn env p Q phase reason text event_text q

    fail_and_report-EndsIn :
        (reason text event_text : String)
        → Q "Failed"
        → EndsIn p Q (fail_and_report env reason text event_text)
    unfolding fail_and_report
    fail_and_report-EndsIn reason text event_text q =
        Moves-first p Q "Failed" (enter_phase-Moves env "Failed" _ _ _ _ _) λ _.
          IsQuiet-first _ Q (IsUntouched-IsQuiet (gets-IsUntouched _)) λ team.
            IsQuiet-first _ Q (IsUntouched-IsQuiet (fire_teammate_error_events-IsUntouched env _))
              λ _. update-EndsIn env "Failed" Q done q

    module _ (f : Q "Failed") (c : Q "Completed") (same : Q p) where
      after_finalization-EndsIn : (ready : Bool) → EndsIn p Q (after_finalization env ready)
      unfolding after_finalization
      after_finalization-EndsIn false =
          IsQuiet-first p Q (put_condition-IsQuiet env _ _ _)
            λ _. update-EndsIn env p Q (after 10) same
      after_finalization-EndsIn true =
          IsQuiet-first p Q (attempt-Keeps (execute_on_complete-IsQuiet env)) λ _.
            Moves-first p Q "Completed" (enter_phase-Moves env "Completed" _ _ _ _ _)
              λ _. update-EndsIn env "Completed" Q done c

      conclude_finalization-EndsIn : (r : Result Bool) → EndsIn p Q (conclude_finalization env r)
      unfolding conclude_finalization
      conclude_finalization-EndsIn (ok ready) = after_finalization-EndsIn ready
      conclude_finalization-EndsIn (err e) = end_in-EndsIn env p Q "Failed" _ _ _ f

      conclude-EndsIn : (o : Outcome) → EndsIn p Q (conclude env o)
      unfolding conclude
      conclude-EndsIn any_failed = fail_and_report-EndsIn _ _ _ f
      conclude-EndsIn all_done =
          IsQuiet-first p Q (attempt-Keeps (run_finalization-IsQuiet env))
            λ r. conclude_finalization-EndsIn r
      conclude-EndsIn waiting = update-EndsIn env p Q (after 30) same

      spawn_and_conclude-EndsIn : (fatal : String) → EndsIn p Q (spawn_and_conclude env fatal)
      unfolding spawn_and_conclude all_pods_complete
      spawn_and_conclude-EndsIn fatal = record {
        run = λ s h.
            EndsIn-branch Q s (fatal == "") _ _
              ((IsQuiet-first p Q (spawn_teammates-IsQuiet env s.team.spec.teammates) λ _.
                  IsQuiet-first p Q {m = all_pods_complete env} (record { run = Quiet-refl })
                    λ outcome. conclude-EndsIn outcome).run
                s h)
              ((fail_and_report-EndsIn _ _ _ f).run s h);
      }

      monitor-EndsIn : EndsIn p Q (monitor env)
      unfolding monitor
      monitor-EndsIn = IsQuiet-first p Q (sync_pod_statuses-IsQuiet env) λ _.
          IsQuiet-first p Q refresh_pipeline_status-IsQuiet λ _.
            IsQuiet-first p Q (handle_teammate_failures-IsQuiet env)
              λ fatal. spawn_and_conclude-EndsIn fatal

      module _ (b : Q "BudgetExceeded") where
        check_budget-EndsIn : EndsIn p Q (check_budget env)
        unfolding check_budget
        check_budget-EndsIn = record {
          run = λ s h.
              EndsIn-branch Q s (is_budget_exceeded env s.team) _ _
                ((terminate_in-EndsIn "BudgetExceeded" _ _ _ b).run s h) (monitor-EndsIn.run s h);
        }

        estimate_and_check-EndsIn : EndsIn p Q (estimate_and_check env)
        unfolding estimate_and_check
        estimate_and_check-EndsIn = record {
          run = λ s h.
              (IsQuiet-first p Q (change_status-IsQuiet env _ (λ st. refl)) λ _.
                  IsQuiet-first p Q (export_budget_metrics-IsQuiet env) λ _.
                    IsQuiet-first p Q (maybe_fire_budget_warning-IsQuiet env)
                      λ _. check_budget-EndsIn).run
                s h;
        }

        pub reconcile_running-EndsIn : Q "TimedOut" → EndsIn p Q (reconcile_running env)
        unfolding reconcile_running
        reconcile_running-EndsIn t = record {
          run = λ s h.
              EndsIn-branch Q s (is_timed_out env s.team) _ _
                ((terminate_in-EndsIn "TimedOut" _ _ _ t).run s h)
                (estimate_and_check-EndsIn.run s h);
        }
