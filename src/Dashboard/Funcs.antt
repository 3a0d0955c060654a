-- ===== src/Dashboard/Funcs.antt =====
-- templateFuncs of internal/dashboard/templates.go.
pub mod Progress
use kagents.Prelude.{
  ℕ, ◌*◌, ◌/◌, String, Bool, true, false, not, Option, none, some, List, [], ◌∷◌, ◌==◌, ◌||◌, eqb,
  ltb, if◌then◌else◌,
}
use kagents.Api.Spec.{LifecycleSpec}
use kagents.Api.Status.{TeammateStatus, PipelineStatus}
use kagents.Api.Resources.{AgentTeam}
use kagents.Budget.{Float}
use kagents.Team.Restarts.{zero_teammate}

unfoldable pub deref : Option String → String
deref none = ""
deref (some text) = text

-- teammateStatus
unfoldable pub teammate_status : List TeammateStatus → String → TeammateStatus
teammate_status [] name = record zero_teammate { name = name }
teammate_status (s ∷ statuses) name = if s.name == name then s else teammate_status statuses name

unfoldable pub pipeline_percent : Option PipelineStatus → ℕ
pipeline_percent none = 0
pipeline_percent (some p) =
    if eqb p.stages_total 0
    then 0
    else (let pct = p.stages_completed * 100 / p.stages_total in if ltb 100 pct then 100 else pct)

-- The conversions of strconv and of the language: `parse` is ParseFloat with its value on an error and
-- whether there was one, `truncate` is int() of a number, and `none` where that is negative.
module _ (float : Float) (parse : String → float.F × Bool) (truncate : float.F → Option ℕ) where
  open float use {F, of_int}

  abbrev clamp : Option ℕ → ℕ
  clamp none = 0
  clamp (some pct) = if ltb 100 pct then 100 else pct

  percent_of : String → String → ℕ
  percent_of budget cost =
      let limit = parse budget in
      let current = parse cost in
      if limit.1 || float.le limit.0 (of_int 0)
      then 0
      else clamp (truncate (float.mul (float.div current.0 limit.0) (of_int 100)))

  abbrev budget_of : Option LifecycleSpec → Option String
  budget_of none = none
  budget_of (some lifecycle) = lifecycle.budget_limit

  unfoldable pub budget_percent : AgentTeam → ℕ
  unfolding percent_of
  budget_percent team = elim (budget_of team.spec.lifecycle) [
    | none ↦ 0
    | some budget ↦ percent_of budget team.status.estimated_cost
  ]
