-- ===== src/Team/Spending/Warning.antt =====
-- The budget warning and its mark in the team's conditions.
use kagents.Prelude.{
  ◌≡◌, refl, ap, ◌∙◌, false, ◌⊎◌, inl, inr, String, Bool, true, Option, none, some, Dict,
  Bool-cases, arith,
}
use kagents.Result.{Result, ok, err}
use kagents.Api.Status.{AgentTeamStatus}
use kagents.Exec.{continue, ◌>>=◌}
use kagents.Team.Conditions.{budget_warning_sent}
use kagents.Team.Conditions.Laws.{budget_warning_sent-mark}
use kagents.Notifier.{Notifier}
use kagents.Team.Runtime.{
  Env, Pass, budget_limit_of, change_status, send_event, notify, team_notifier, emit,
  new_team_tracker,
}
use kagents.Team.Spending.{give_warning, warn_from, warn_once, maybe_fire_budget_warning}

module _ (env : Env) where
  open env use {World, float}

  abbrev sent : Pass World float.F → Bool
  sent s = budget_warning_sent s.team.status.conditions

  notify-ok :
      (n : Option Notifier) (event_type : String) (fields : Dict String) (s : Pass World float.F)
      → (notify env n event_type fields s).0 ≡ ok tt
  unfolding notify emit
  notify-ok none event_type fields s = refl
  notify-ok (some n) event_type fields s = ground arith

  marked :
      (f : AgentTeamStatus → AgentTeamStatus) (r : Result (Unit {0})) (t : Pass World float.F)
      → r ≡ ok tt
      → ((st : AgentTeamStatus) → budget_warning_sent (f st).conditions ≡ true)
      → sent (continue r (λ _. change_status env f) t).1 ≡ true
  unfolding change_status
  marked f (ok u) t h m = m t.team.status
  marked f (err e) t h m = ground arith

  send-mark :
      (event_type : String) (fields : Dict String) (f : AgentTeamStatus → AgentTeamStatus)
      (s : Pass World float.F)
      → ((st : AgentTeamStatus) → budget_warning_sent (f st).conditions ≡ true)
      → sent ((send_event env event_type fields >>= λ _. change_status env f) s).1 ≡ true
  unfolding ◌>>=◌ send_event
  send-mark event_type fields f s m =
      marked f (send_event env event_type fields s).0 (send_event env event_type fields s).1
        (notify-ok (team_notifier env s.team) event_type fields s) m

  -- From `s` to `t` the one event was sent, and the marker was set.
  abbrev IsGiven : Pass World float.F → Pass World float.F → Type 0
  IsGiven s t =
      (sent t ≡ true)
      × ((fields : Dict String) × (t.effects
            ≡ (send_event env "budget.warning" fields s).1.effects))

  marked-effects :
      (f : AgentTeamStatus → AgentTeamStatus) (r : Result (Unit {0})) (t : Pass World float.F)
      → (continue r (λ _. change_status env f) t).1.effects ≡ t.effects
  unfolding change_status
  marked-effects f (ok u) t = refl
  marked-effects f (err e) t = refl

  give_warning-IsGiven :
      (cost limit : float.F) (s : Pass World float.F) → IsGiven s (give_warning env cost limit s).1
  unfolding give_warning ◌>>=◌
  give_warning-IsGiven cost limit s = (
    send-mark "budget.warning" _ _ s (λ st. budget_warning_sent-mark env.now _ st.conditions),
    (_, marked-effects _ (send_event env "budget.warning" _ s).0 _),
  )

  -- The warning is not due, or the marker is set.
  warn_from_cases :
      (limit : Option float.F) (s : Pass World float.F)
      → (warn_from env limit s ≡ (ok tt, s)) ⊎ IsGiven s (warn_from env limit s).1
  unfolding warn_from
  warn_from_cases none s = inl refl
  warn_from_cases (some limit) s = elim (Bool-cases (float.le limit (float.of_int 0))) [
    | inl none_given ↦ rw none_given (inl refl)
    | inr given ↦
        rw given
          (elim (Bool-cases (
            float.lt (new_team_tracker env s.team).total_cost
              (float.mul (float.div (float.of_int 8) (float.of_int 10)) limit))) [
                | inl early ↦ rw early (inl refl)
                | inr due ↦
                    rw due
                      (inr (give_warning-IsGiven (new_team_tracker env s.team).total_cost limit s))
              ])
  ]

  warn_once_cases :
      (limit : Option String) (s : Pass World float.F)
      → (warn_once env limit s ≡ (ok tt, s))
        ⊎ ((sent s ≡ false) × IsGiven s (warn_once env limit s).1)
  unfolding warn_once
  warn_once_cases none s = inl refl
  warn_once_cases (some text) s = elim (Bool-cases (sent s)) [
    | inl before ↦ rw before (inl refl)
    | inr fresh ↦ rw fresh (elim (warn_from_cases (float.scan text) s) [
      | inl not_due ↦ inl not_due
      | inr given ↦ inr (refl, given)
    ])
  ]

  warn_once-sent :
      (limit : Option String) (s : Pass World float.F)
      → sent s ≡ true
      → warn_once env limit s ≡ (ok tt, s)
  unfolding warn_once
  warn_once-sent none s h = refl
  warn_once-sent (some text) s h = rw h refl

-- A call of maybeFireBudgetWarning either does nothing, or the team has no mark of a warning before it
-- and has one after it, and what the call sends is the event budget.warning, by SendEvent. No later call
-- that meets a team with these conditions does anything: it sends nothing and changes nothing, whatever
-- the operator, the clock, the spending and the rest of the team are by then.
pub maybe_fire_budget_warning_mark :
    (env : Env) (s : Pass env.World env.float.F) (later : Env) (u : Pass later.World later.float.F)
    → let t = (maybe_fire_budget_warning env s).1 in
      u.team.status.conditions ≡ t.team.status.conditions
      → (maybe_fire_budget_warning env s ≡ (ok tt, s))
        ⊎ ((budget_warning_sent s.team.status.conditions ≡ false)
            × (budget_warning_sent t.team.status.conditions ≡ true)
            × ((fields : Dict String) × (t.effects
                  ≡ (send_event env "budget.warning" fields s).1.effects))
            × (maybe_fire_budget_warning later u ≡ (ok tt, u)))
unfolding maybe_fire_budget_warning
maybe_fire_budget_warning_mark env s later u kept =
    elim (warn_once_cases env (budget_limit_of env s.team.spec.lifecycle) s) [
      | inl not_due ↦ inl not_due
      | inr (fresh, (given, told)) ↦
          inr (fresh, given, told, warn_once-sent later _ u (ap budget_warning_sent kept ∙ given))
    ]
