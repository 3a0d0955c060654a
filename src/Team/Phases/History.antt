-- ===== src/Team/Phases/History.antt =====
-- A team over many passes: its phases as a state machine that is run.
use kagents.Prelude.{
  ◌≡◌, refl, sym, subst, ap, ◌∙◌, inl, inr, ℕ, ◌≤◌, String, true, List, [], ◌==◌, arith, In,
  if◌then◌else◌,
}
use kagents.Result.{ok}
use kagents.Api.Status.{AgentTeamStatus}
use kagents.Api.Resources.{AgentTeam}
use kagents.Team.Runtime.{Env}
use kagents.Team.Steps.{updates}
use kagents.Team.Phases.{reconcile}
use kagents.Team.Phases.Legs.{AtMostOne}
use kagents.Team.Phases.Edges.{
  Edge, started, deployed, init_timed_out, init_failed, kept_running, all_finished, agents_failed,
  timed_out, over_budget, stayed, reset, is_terminal, is_known, Edge-terminal, reconcile-Edge,
}

-- The first phase of a team and its phase after some passes. Each pass meets the phase that the one
-- before it has written; all else may have changed in between: the clock and the settings of the
-- operator, what the cluster and the services around it answer, and the rest of the team.
pub data History (namespace name first : String) : String → Type 1 where
  unwritten : History namespace name first first
  written :
      {q : String}
      → History namespace name first q
      → (env : Env) (w : env.World) (team : AgentTeam) → env.get_team w namespace name ≡ ok team
      → team.status.phase ≡ q
      → (st : AgentTeamStatus) → In st (updates (reconcile env w namespace name).2)
      → History namespace name first st.phase

-- How far a team is.
abbrev pub rank : String → ℕ
rank p =
    if is_terminal p then 3 else if p == "Running" then 2 else if p == "Initializing" then 1 else 0

-- From `p` to `q` nothing is undone.
abbrev pub IsForward : String → String → Type 0
IsForward p q = (is_known q ≡ true) × (rank p ≤ rank q) × (is_terminal p ≡ true → q ≡ p)

Edge-IsForward : (p q : String) → Edge p q → is_known p ≡ true → IsForward p q
Edge-IsForward p q edge known =
    let (later, ranked) = ranks p q edge known in (later, ranked, Edge-terminal p q edge)
  where
    ranks : (p q : String) → Edge p q → is_known p ≡ true → (is_known q ≡ true) × (rank p ≤ rank q)
    ranks p q (started (inl h)) known = (refl, rw h (omega arith))
    ranks p q (started (inr h)) known = (refl, rw h (omega arith))
    ranks p q (deployed h) known = (refl, rw h (omega arith))
    ranks p q (init_timed_out h) known = (refl, rw h (omega arith))
    ranks p q (init_failed h) known = (refl, rw h (omega arith))
    ranks p q (kept_running h) known = (known, omega arith)
    ranks p q (all_finished h) known = (refl, rw h (omega arith))
    ranks p q (agents_failed h) known = (refl, rw h (omega arith))
    ranks p q (timed_out h) known = (refl, rw h (omega arith))
    ranks p q (over_budget h) known = (refl, rw h (omega arith))
    ranks p q (stayed h) known = (known, omega arith)
    ranks p q (reset h) known = cc

IsForward-trans : (p q r : String) → IsForward p q → IsForward q r → IsForward p r
IsForward-trans p q r (known, low, keeps) (known', low', keeps') = (
  known',
  omega arith,
  λ over. let same = keeps over in keeps' (ap is_terminal same ∙ over) ∙ same,
)

one_written :
    (Q : String → Type 0) (sts : List AgentTeamStatus) (st : AgentTeamStatus)
    → AtMostOne Q [] sts
    → In st sts
    → Q st.phase
one_written Q sts st (inl none_written) m = absurd (subst (λ l. In st l) none_written m)
one_written Q sts st (inr (only, one, q)) m = elim (subst (λ l. In st l) one m) [
  | inl e ↦ subst (λ s. Q s.phase) (sym e) q
  | inr nowhere ↦ absurd nowhere
]

-- Over any number of passes, each at a time, with an operator and in a cluster of its own, whatever
-- else changes in between, a team of a known phase stays in known phases and never goes back from
-- Running to Initializing or from there to Pending, and the phase in which it has ended is the one it
-- keeps.
pub History-IsForward :
    (namespace name first last : String)
    → is_known first ≡ true
    → History namespace name first last
    → IsForward first last
History-IsForward namespace name first last known unwritten = (known, omega arith, λ over. refl)
History-IsForward namespace name first last known (written {q} before env w team got phase st m) =
    let earlier = History-IsForward namespace name first q known before in
    let edge =
      one_written (Edge team.status.phase) _ st (reconcile-Edge env w namespace name team got) m in
    IsForward-trans first q st.phase earlier
      (Edge-IsForward q st.phase (subst (λ p. Edge p st.phase) phase edge) earlier.0)
