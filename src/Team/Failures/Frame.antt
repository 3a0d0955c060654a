-- ===== src/Team/Failures/Frame.antt =====
-- The handling of failed pods changes the restart counts in memory and writes no status.
use kagents.Prelude.{refl, ℕ, String, Option, none, some, List, [], ◌∷◌, leb, ◌==◌}
use kagents.Result.{Result, ok, err}
use kagents.Exec.{Found, found, missing, found_or_missing}
use kagents.Exec.Keeps.{explain-Keeps}
use kagents.Api.Spec.{TeammateSpec}
use kagents.Cluster.Objects.{Pod}
use kagents.Team.Restarts.{max_restarts, teammate_restart_count}
use kagents.Team.Agents.{get_pod}
use kagents.Team.Agents.Frame.{ensure_agent_pod-IsUntouched}
use kagents.Team.Sync.Frame.{delete_pod-IsUntouched}
use kagents.Team.Runtime.{Env, Action, metric}
use kagents.Team.Steps.{
  IsUntouched, IsQuiet, >>=-IsUntouched, >>=-IsQuiet, IsUntouched-IsQuiet, Untouched-refl,
  Quiet-refl, Quiet-branch, Untouched-branch, change_status-IsQuiet, emit-IsUntouched,
  send_event-IsUntouched, record_event-IsUntouched,
}
use kagents.Team.Failures.{
  respawn, check_teammate, unless_fatal, check_teammates, handle_teammate_failures, report_failed,
  report_all, fire_teammate_error_events,
}

module _ (env : Env) where
  respawn-IsQuiet :
      (tm : TeammateSpec) (pod : Pod) (count limit : ℕ) → IsQuiet (respawn env tm pod count limit)
  unfolding respawn
  respawn-IsQuiet tm pod count limit = record {
    run = λ s.
        (>>=-IsQuiet (IsUntouched-IsQuiet (explain-Keeps _ (delete_pod-IsUntouched env pod))) λ _.
            >>=-IsQuiet (change_status-IsQuiet env _ (λ st. refl)) λ _. IsUntouched-IsQuiet (
              >>=-IsUntouched (emit-IsUntouched env (metric _) tt) λ _.
                >>=-IsUntouched (send_event-IsUntouched env _ _) λ _.
                  >>=-IsUntouched (record_event-IsUntouched env _ _ _)
                    λ _. explain-Keeps _ (ensure_agent_pod-IsUntouched env _))).run
          s;
  }

  check_teammate-IsQuiet :
      (tm : TeammateSpec) (limit : ℕ) (r : Result (Found Pod))
      → IsQuiet (check_teammate env tm limit r)
  unfolding check_teammate
  check_teammate-IsQuiet tm limit (err e) = record { run = Quiet-refl }
  check_teammate-IsQuiet tm limit (ok missing) = record { run = Quiet-refl }
  check_teammate-IsQuiet tm limit (ok (found pod)) = record {
    run = λ s.
        Quiet-branch s (pod.phase == "Failed") _ _
          (Quiet-branch s (leb limit (teammate_restart_count s.team.status.teammates tm.name)) _ _
            (Quiet-refl s)
            ((>>=-IsQuiet (respawn-IsQuiet tm pod _ limit) λ _. record { run = Quiet-refl }).run s))
          (Quiet-refl s);
  }

  unless_fatal-IsQuiet :
      {next : Action env String}
      → IsQuiet next
      → (r : Option String) → IsQuiet (unless_fatal env next r)
  unless_fatal-IsQuiet q none = record { run = q.run }
  unless_fatal-IsQuiet q (some name) = record { run = Quiet-refl }

  pub check_teammates-IsQuiet :
      (limit : ℕ) (tms : List TeammateSpec) → IsQuiet (check_teammates env limit tms)
  unfolding check_teammates
  check_teammates-IsQuiet limit [] = record { run = Quiet-refl }
  check_teammates-IsQuiet limit (tm ∷ rest) = record {
    run = λ s.
        (>>=-IsQuiet (check_teammate-IsQuiet tm limit (found_or_missing (get_pod env s tm.name)))
            (unless_fatal-IsQuiet (check_teammates-IsQuiet limit rest))).run
          s;
  }

  pub handle_teammate_failures-IsQuiet : IsQuiet (handle_teammate_failures env)
  unfolding handle_teammate_failures
  handle_teammate_failures-IsQuiet = record {
    run = λ s. (check_teammates-IsQuiet (max_restarts s.team) s.team.spec.teammates).run s;
  }

  report_failed-IsUntouched :
      (teammate : String) (r : Result Pod) → IsUntouched (report_failed env teammate r)
  unfolding report_failed
  report_failed-IsUntouched teammate (err e) = record { run = Untouched-refl }
  report_failed-IsUntouched teammate (ok pod) = record {
    run = λ s.
        Untouched-branch s (pod.phase == "Failed") _ _ ((send_event-IsUntouched env _ _).run s)
          (Untouched-refl s);
  }

  report_all-IsUntouched : (names : List String) → IsUntouched (report_all env names)
  unfolding report_all
  report_all-IsUntouched [] = record { run = Untouched-refl }
  report_all-IsUntouched (name ∷ names) = record {
    run = λ s.
        (>>=-IsUntouched (report_failed-IsUntouched name (get_pod env s name))
            λ _. report_all-IsUntouched names).run
          s;
  }

  pub fire_teammate_error_events-IsUntouched :
      (names : List String) → IsUntouched (fire_teammate_error_events env names)
  unfolding fire_teammate_error_events
  fire_teammate_error_events-IsUntouched names = report_all-IsUntouched names
