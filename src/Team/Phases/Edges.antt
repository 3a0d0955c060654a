-- ===== src/Team/Phases/Edges.antt =====
-- The phases of a team as a state machine, and the one status that a pass may write.
use kagents.Prelude.{
  ◌≡◌, refl, sym, subst, ◌⊎◌, inl, inr, String, Bool, true, false, [], ◌==◌, ◌||◌, eq_iff, arith,
  if◌then◌else◌, is_some,
}
use kagents.Result.{ok}
use kagents.Exec.{Exec}
use kagents.Api.Resources.{AgentTeam}
use kagents.Team.Sync.Frame.{terminate_all_pods-IsUntouched}
use kagents.Team.Runtime.{Env, Pass, metric}
use kagents.Team.Steps.{updates, IsUntouched-IsQuiet, change_status-IsQuiet, emit-IsUntouched}
use kagents.Team.Phases.Legs.{
  AtMostOne, EndsIn, IsQuiet-first, Moves-first, EndsIn-branch, put_phase-Moves, update-EndsIn,
}
use kagents.Team.Phases.Starting.{reconcile_pending-EndsIn, reconcile_initializing-EndsIn}
use kagents.Team.Phases.Working.{reconcile_running-EndsIn}
use kagents.Team.Phases.{
  done, at_once, stamp_completion, reconcile_terminal, reset_phase, reconcile_phase, reconcile_team,
  after_get, reconcile, start_pass,
}

abbrev pub is_terminal : String → Bool
is_terminal p = p == "Completed" || p == "Failed" || p == "TimedOut" || p == "BudgetExceeded"

abbrev pub is_known : String → Bool
is_known p = p == "" || p == "Pending" || p == "Initializing" || p == "Running" || is_terminal p

-- The phase `p` of a team, and the phases that may come after it.
pub data Edge (p : String) : String → Type 0 where
  started : (p ≡ "") ⊎ (p ≡ "Pending") → Edge p "Initializing"
  deployed : p ≡ "Initializing" → Edge p "Running"
  init_timed_out : p ≡ "Initializing" → Edge p "TimedOut"
  init_failed : p ≡ "Initializing" → Edge p "Failed"
  kept_running : p ≡ "Running" → Edge p p
  all_finished : p ≡ "Running" → Edge p "Completed"
  agents_failed : p ≡ "Running" → Edge p "Failed"
  timed_out : p ≡ "Running" → Edge p "TimedOut"
  over_budget : p ≡ "Running" → Edge p "BudgetExceeded"
  stayed : is_terminal p ≡ true → Edge p p
  reset : is_known p ≡ false → Edge p "Pending"

module _ (env : Env) (p : String) where
  EndsIn-if :
      {A : Type 0} (Q : String → Type 0) (b : Bool) (m n : Exec (Pass env.World env.float.F) A)
      → (b ≡ true → EndsIn p Q m)
      → (b ≡ false → EndsIn p Q n)
      → EndsIn p Q (if b then m else n)
  EndsIn-if Q true m n f g = f refl
  EndsIn-if Q false m n f g = g refl

  module _ (Q : String → Type 0) where
    stamp_completion-EndsIn : Q p → EndsIn p Q (stamp_completion env)
    unfolding stamp_completion
    stamp_completion-EndsIn q = record {
      run = λ s h. EndsIn-branch Q s (is_some s.team.status.completed_at) _ _ (inl refl) (
          (IsQuiet-first p Q (change_status-IsQuiet env _ (λ st. refl))
              λ _. update-EndsIn env p Q done q).run
            s h);
    }

    reconcile_terminal-EndsIn : Q p → EndsIn p Q (reconcile_terminal env)
    unfolding reconcile_terminal
    reconcile_terminal-EndsIn q = record {
      run = λ s h.
          (IsQuiet-first p Q (IsUntouched-IsQuiet (terminate_all_pods-IsUntouched env)) λ _.
              IsQuiet-first p Q (IsUntouched-IsQuiet (emit-IsUntouched env (metric _) tt))
                λ _. stamp_completion-EndsIn q).run
            s h;
    }

    reset_phase-EndsIn : Q "Pending" → EndsIn p Q (reset_phase env)
    unfolding reset_phase
    reset_phase-EndsIn q =
        Moves-first p Q "Pending" (put_phase-Moves env "Pending")
          λ _. update-EndsIn env "Pending" Q at_once q

  reconcile_phase-EndsIn : EndsIn p (Edge p) (reconcile_phase env p)
  unfolding reconcile_phase
  reconcile_phase-EndsIn =
      EndsIn-if (Edge p) (p == "" || p == "Pending") _ _
        (λ h.
          reconcile_pending-EndsIn env p (Edge p)
            (started (ground (arith, eq_iff p "", eq_iff p "Pending"))))
        λ fresh.
          EndsIn-if (Edge p) (p == "Initializing") _ _
            (λ h.
              reconcile_initializing-EndsIn env p (Edge p) (init_timed_out (initializing h))
                (init_failed (initializing h)) (deployed (initializing h)))
            λ not_initializing.
              EndsIn-if (Edge p) (p == "Running") _ _
                (λ h.
                  reconcile_running-EndsIn env p (Edge p) (agents_failed (running h))
                    (all_finished (running h)) (kept_running (running h)) (over_budget (running h))
                    (timed_out (running h)))
                λ not_running.
                  EndsIn-if (Edge p) (is_terminal p) _ _
                    (λ h. reconcile_terminal-EndsIn (Edge p) (stayed h))
                    λ not_terminal. reset_phase-EndsIn (Edge p) (reset (ground arith))
    where
      initializing : (p == "Initializing") ≡ true → p ≡ "Initializing"
      initializing h = ground (arith, eq_iff p "Initializing")

      running : (p == "Running") ≡ true → p ≡ "Running"
      running h = ground (arith, eq_iff p "Running")

pub reconcile-Edge :
    (env : Env) (w : env.World) (namespace name : String) (team : AgentTeam)
    → env.get_team w namespace name ≡ ok team
    → AtMostOne (Edge team.status.phase) [] (updates (reconcile env w namespace name).2)
unfolding reconcile reconcile_team updates
reconcile-Edge env w namespace name team h =
    subst (λ r. AtMostOne (Edge team.status.phase) [] (updates (after_get env w r).2)) (sym h)
      ((reconcile_phase-EndsIn env team.status.phase).run (start_pass env w team) refl)

at_work : (p q : String) → is_terminal q ≡ false → p ≡ q → is_terminal p ≡ true → ⊥
at_work p q f h t = cc

-- A terminal phase is left by no edge.
pub Edge-terminal : (p q : String) → Edge p q → is_terminal p ≡ true → q ≡ p
Edge-terminal p q (started (inl h)) t = absurd (at_work p "" refl h t)
Edge-terminal p q (started (inr h)) t = absurd (at_work p "Pending" refl h t)
Edge-terminal p q (deployed h) t = absurd (at_work p "Initializing" refl h t)
Edge-terminal p q (init_timed_out h) t = absurd (at_work p "Initializing" refl h t)
Edge-terminal p q (init_failed h) t = absurd (at_work p "Initializing" refl h t)
Edge-terminal p q (kept_running h) t = refl
Edge-terminal p q (all_finished h) t = absurd (at_work p "Running" refl h t)
Edge-terminal p q (agents_failed h) t = absurd (at_work p "Running" refl h t)
Edge-terminal p q (timed_out h) t = absurd (at_work p "Running" refl h t)
Edge-terminal p q (over_budget h) t = absurd (at_work p "Running" refl h t)
Edge-terminal p q (stayed h) t = refl
Edge-terminal p q (reset h) t = ground arith
