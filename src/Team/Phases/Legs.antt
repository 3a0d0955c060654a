-- ===== src/Team/Phases/Legs.antt =====
-- Calls that write the team's status at most once, as their last change to it: what is known of the
-- phase before a call (`EndsIn`), and calls that set the phase (`Moves`).
use kagents.Prelude.{
  ◌≡◌, refl, sym, ap, subst, ◌∙◌, ◌⊎◌, inl, inr, String, Bool, true, false, List, [], ◌∷◌, ◌++◌,
  if◌then◌else◌,
}
use kagents.Result.{Result, ok, err}
use kagents.Exec.{Exec, continue, pure, ◌>>=◌}
use kagents.Api.Status.{AgentTeamStatus}
use kagents.Team.Runtime.{Env, Pass, change_status, put_phase, update_status, status_update}
use kagents.Team.Steps.{updates, updates-append, IsQuiet}

-- At most one status was written, and its phase satisfies `Q`.
abbrev pub AtMostOne : (String → Type 0) → List AgentTeamStatus → List AgentTeamStatus → Type 0
AtMostOne Q before after =
    (after ≡ before) ⊎ ((st : AgentTeamStatus) × (after ≡ before ++ st ∷ []) × Q st.phase)

from_before :
    (Q : String → Type 0) {a b c : List AgentTeamStatus} → b ≡ a → AtMostOne Q b c → AtMostOne Q a c
from_before Q e (inl h) = inl (h ∙ e)
from_before Q e (inr (st, h, q)) = inr (st, h ∙ ap (λ l. l ++ st ∷ []) e, q)

module _ {W F : Type 0} where
  -- From a pass whose team is in the phase `p`.
  pub record EndsIn (p : String) (Q : String → Type 0) {A : Type 0} (m : Exec (Pass W F) A)
      : Type 0 where
    pub run :
        (s : Pass W F)
        → s.team.status.phase ≡ p
        → AtMostOne Q (updates s.effects) (updates (m s).1.effects)

  -- The phase becomes `p`, and no status is written.
  pub record Moves (p : String) {A : Type 0} (m : Exec (Pass W F) A) : Type 0 where
    pub run :
        (s : Pass W F)
        → ((m s).1.team.status.phase ≡ p) × (updates (m s).1.effects ≡ updates s.effects)

  module _ (p : String) (Q : String → Type 0) where
    pub IsQuiet-EndsIn : {A : Type 0} {m : Exec (Pass W F) A} → IsQuiet m → EndsIn p Q m
    IsQuiet-EndsIn q = record { run = λ s h. inl (q.run s).3 }

    continue_ends :
        {A B : Type 0} (p' : String) (r : Result A) (k : A → Exec (Pass W F) B) (s t : Pass W F)
        → t.team.status.phase ≡ p'
        → updates t.effects ≡ updates s.effects
        → ((a : A) → EndsIn p' Q (k a))
        → AtMostOne Q (updates s.effects) (updates (continue r k t).1.effects)
    continue_ends p' (ok a) k s t h e f = from_before Q e ((f a).run t h)
    continue_ends p' (err x) k s t h e f = inl e

    -- A quiet call, and what follows it.
    pub IsQuiet-first :
        {A B : Type 0} {m : Exec (Pass W F) A} {k : A → Exec (Pass W F) B}
        → IsQuiet m
        → ((a : A) → EndsIn p Q (k a))
        → EndsIn p Q (m >>= k)
    unfolding ◌>>=◌
    IsQuiet-first {m = m} {k = k} q f = record {
      run = λ s h. continue_ends p (m s).0 k s (m s).1 ((q.run s).2 ∙ h) (q.run s).3 f;
    }

    -- A call that sets the phase, and what follows it.
    pub Moves-first :
        {A B : Type 0} (p' : String) {m : Exec (Pass W F) A} {k : A → Exec (Pass W F) B}
        → Moves p' m
        → ((a : A) → EndsIn p' Q (k a))
        → EndsIn p Q (m >>= k)
    unfolding ◌>>=◌
    Moves-first p' {m} {k} q f = record {
      run = λ s h. continue_ends p' (m s).0 k s (m s).1 (q.run s).0 (q.run s).1 f;
    }

  pub EndsIn-branch :
      (Q : String → Type 0) {A : Type 0} (s : Pass W F) (b : Bool) (x y : Result A × Pass W F)
      → AtMostOne Q (updates s.effects) (updates x.1.effects)
      → AtMostOne Q (updates s.effects) (updates y.1.effects)
      → AtMostOne Q (updates s.effects) (updates (if b then x else y).1.effects)
  EndsIn-branch Q s true x y f g = f
  EndsIn-branch Q s false x y f g = g

  continue_moves :
      {A B : Type 0} (p : String) (r : Result A) (k : A → Exec (Pass W F) B) (s t : Pass W F)
      → t.team.status.phase ≡ p
      → updates t.effects ≡ updates s.effects
      → ((a : A) → IsQuiet (k a))
      → ((continue r k t).1.team.status.phase ≡ p)
        × (updates (continue r k t).1.effects ≡ updates s.effects)
  continue_moves p (ok a) k s t h e f = (((f a).run t).2 ∙ h, ((f a).run t).3 ∙ e)
  continue_moves p (err x) k s t h e f = (h, e)

  pub >>=-Moves :
      {A B : Type 0} (p : String) {m : Exec (Pass W F) A} {k : A → Exec (Pass W F) B}
      → Moves p m
      → ((a : A) → IsQuiet (k a))
      → Moves p (m >>= k)
  unfolding ◌>>=◌
  >>=-Moves p {m} {k} q f = record {
    run = λ s. continue_moves p (m s).0 k s (m s).1 (q.run s).0 (q.run s).1 f;
  }

module _ (env : Env) where
  pub change_status-Moves :
      (p : String) (f : AgentTeamStatus → AgentTeamStatus)
      → ((st : AgentTeamStatus) → (f st).phase ≡ p)
      → Moves p (change_status env f)
  unfolding change_status
  change_status-Moves p f h = record { run = λ s. (h s.team.status, refl) }

  pub put_phase-Moves : (p : String) → Moves p (put_phase env p)
  unfolding put_phase
  put_phase-Moves p = change_status-Moves p _ (λ st. refl)

  written :
      {A : Type 0} (Q : String → Type 0) (r : Result (Unit {0})) (a : A)
      (s : Pass env.World env.float.F) (t : Pass env.World env.float.F) (st : AgentTeamStatus)
      → t.effects ≡ s.effects ++ status_update st ∷ []
      → Q st.phase
      → AtMostOne Q (updates s.effects) (updates (continue r (λ _. pure a) t).1.effects)
  unfolding pure updates
  written Q (ok u) a s t st e q = inr (st, ap updates e ∙ updates-append s.effects _, q)
  written Q (err x) a s t st e q = inr (st, ap updates e ∙ updates-append s.effects _, q)

  -- The write of the status at the end of a handler.
  pub update-EndsIn :
      {A : Type 0} (p : String) (Q : String → Type 0) (a : A)
      → Q p
      → EndsIn p Q (update_status env >>= λ _. pure a)
  unfolding ◌>>=◌ update_status
  update-EndsIn p Q a q = record {
    run = λ s h.
        written Q (env.update_status s.world s.team).0 a s _ s.team.status refl (subst Q (sym h) q);
  }
