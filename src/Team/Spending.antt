-- ===== src/Team/Spending.antt =====
-- The budget warning and the spending metrics of agentteam_controller.go.
pub mod Warning
pub mod Frame
use kagents.Prelude.{
  String, Bool, true, false, Option, none, some, List, [], ◌∷◌, ◌<>◌, Dict, if◌then◌else◌,
}
use kagents.Result.{ok}
use kagents.Exec.{◌>>=◌, ◌>>◌}
use kagents.Metrics.{record_cost, set_budget_remaining}
use kagents.Team.Conditions.{budget_warning_sent, mark_budget_warning_sent}
use kagents.Team.Runtime.{
  Env, Action, amount, emit, change_status, send_event, budget_limit_of, new_team_tracker,
}

module _ (env : Env) where
  open env use {float, now}

  warning_message : float.F → float.F → String
  warning_message cost limit =
      "Estimated cost "
      <> float.show_cents cost
      <> " reached 80% of budget limit "
      <> float.show_cents limit

  give_warning : float.F → float.F → Action env (Unit {0})
  unfolding warning_message
  give_warning cost limit = do
    send_event env "budget.warning" (
        ("estimatedCost", float.show_cents cost)
        ∷ ("budgetLimit", float.show_cents limit)
        ∷ ("threshold", "80%")
        ∷ [])
    change_status env λ st. record st {
      conditions = mark_budget_warning_sent now (warning_message cost limit) st.conditions;
    }

  -- The limit that was read from the text: the warning is due from 80% of it.
  warn_from : Option float.F → Action env (Unit {0})
  unfolding give_warning
  warn_from none s = (ok tt, s)
  warn_from (some limit) s =
      let current = (new_team_tracker env s.team).total_cost in
      if float.le limit (float.of_int 0)
      then (ok tt, s)
      else if float.lt current (float.mul (float.div (float.of_int 8) (float.of_int 10)) limit)
      then (ok tt, s)
      else give_warning current limit s

  -- No warning where the team's conditions have the marker.
  warn_once : Option String → Action env (Unit {0})
  unfolding warn_from
  warn_once none s = (ok tt, s)
  warn_once (some text) s =
      if budget_warning_sent s.team.status.conditions
      then (ok tt, s)
      else warn_from (float.scan text) s

  unfoldable pub maybe_fire_budget_warning : Action env (Unit {0})
  unfolding warn_once
  maybe_fire_budget_warning s = warn_once (budget_limit_of env s.team.spec.lifecycle) s

  export_remaining : Option float.F → Action env (Unit {0})
  export_remaining none s = (ok tt, s)
  export_remaining (some limit) s =
      emit env
        (amount (
          set_budget_remaining s.team.meta.name s.team.meta.namespace
            (float.sub limit (new_team_tracker env s.team).total_cost)))
        s

  export_limit : Option String → Action env (Unit {0})
  unfolding export_remaining
  export_limit none s = (ok tt, s)
  export_limit (some text) s = export_remaining (float.scan text) s

  unfoldable pub export_budget_metrics : Action env (Unit {0})
  unfolding export_limit
  export_budget_metrics s =
      (do
        emit env (
            amount (
              record_cost s.team.meta.name s.team.meta.namespace
                (new_team_tracker env s.team).total_cost))
        export_limit (budget_limit_of env s.team.spec.lifecycle))
        s
