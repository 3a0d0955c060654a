-- ===== src/Team/Spending/Frame.antt =====
-- The budget warning and the spending metrics write no status.
use kagents.Prelude.{refl, String, Option, none, some}
use kagents.Team.Conditions.{budget_warning_sent}
use kagents.Team.Runtime.{Env, amount, budget_limit_of, new_team_tracker}
use kagents.Team.Steps.{
  IsUntouched, IsQuiet, >>=-IsUntouched, >>=-IsQuiet, IsUntouched-IsQuiet, Untouched-refl,
  Quiet-refl, Quiet-branch, change_status-IsQuiet, emit-IsUntouched, send_event-IsUntouched,
}
use kagents.Team.Spending.{
  give_warning, warn_from, warn_once, maybe_fire_budget_warning, export_remaining, export_limit,
  export_budget_metrics,
}

module _ (env : Env) where
  open env use {float}

  give_warning-IsQuiet : (cost limit : float.F) → IsQuiet (give_warning env cost limit)
  unfolding give_warning
  give_warning-IsQuiet cost limit =
      >>=-IsQuiet (IsUntouched-IsQuiet (send_event-IsUntouched env _ _))
        λ _. change_status-IsQuiet env _ (λ st. refl)

  warn_from-IsQuiet : (limit : Option float.F) → IsQuiet (warn_from env limit)
  unfolding warn_from
  warn_from-IsQuiet none = record { run = Quiet-refl }
  warn_from-IsQuiet (some limit) = record {
    run = λ s. Quiet-branch s (float.le limit (float.of_int 0)) _ _ (Quiet-refl s) (
        Quiet-branch s
          (float.lt (new_team_tracker env s.team).total_cost
            (float.mul (float.div (float.of_int 8) (float.of_int 10)) limit))
          _ _ (Quiet-refl s)
          ((give_warning-IsQuiet (new_team_tracker env s.team).total_cost limit).run s));
  }

  warn_once-IsQuiet : (limit : Option String) → IsQuiet (warn_once env limit)
  unfolding warn_once
  warn_once-IsQuiet none = record { run = Quiet-refl }
  warn_once-IsQuiet (some text) = record {
    run = λ s.
        Quiet-branch s (budget_warning_sent s.team.status.conditions) _ _ (Quiet-refl s)
          ((warn_from-IsQuiet (float.scan text)).run s);
  }

  pub maybe_fire_budget_warning-IsQuiet : IsQuiet (maybe_fire_budget_warning env)
  unfolding maybe_fire_budget_warning
  maybe_fire_budget_warning-IsQuiet = record {
    run = λ s. (warn_once-IsQuiet (budget_limit_of env s.team.spec.lifecycle)).run s;
  }

  export_remaining-IsUntouched : (limit : Option float.F) → IsUntouched (export_remaining env limit)
  unfolding export_remaining
  export_remaining-IsUntouched none = record { run = Untouched-refl }
  export_remaining-IsUntouched (some limit) = record {
    run = λ s. (emit-IsUntouched env (amount _) tt).run s;
  }

  export_limit-IsUntouched : (text : Option String) → IsUntouched (export_limit env text)
  unfolding export_limit
  export_limit-IsUntouched none = record { run = Untouched-refl }
  export_limit-IsUntouched (some text) = export_remaining-IsUntouched (float.scan text)

  pub export_budget_metrics-IsQuiet : IsQuiet (export_budget_metrics env)
  unfolding export_budget_metrics
  export_budget_metrics-IsQuiet = record {
    run = λ s.
        (IsUntouched-IsQuiet (
            >>=-IsUntouched (emit-IsUntouched env (amount _) tt)
              λ _. export_limit-IsUntouched (budget_limit_of env s.team.spec.lifecycle))).run
          s;
  }
