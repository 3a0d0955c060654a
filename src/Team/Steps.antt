-- ===== src/Team/Steps.antt =====
-- What a call leaves of a pass of the AgentTeam reconciler: the team in memory (`Untouched`), or its
-- spec, metadata and phase (`Quiet`); neither writes a status.
use kagents.Prelude.{
  ◌≡◌, refl, ap, ◌∙◌, String, Bool, true, false, Option, none, some, List, [], ◌∷◌, ◌++◌,
  append-nil, Dict, if◌then◌else◌,
}
use kagents.Result.{Error, Result}
use kagents.Exec.{Exec, pure, raise, gets, lift, ◌>>=◌}
use kagents.Exec.Keeps.{Keeps, >>=-Keeps, pure-Keeps, raise-Keeps, gets-Keeps, lift-Keeps}
use kagents.Api.Status.{AgentTeamStatus}
use kagents.Notifier.{Notifier, is_subscribed}
use kagents.Team.Runtime.{
  Env, Pass, Effect, event, posted, metric, amount, status_update, emit, record_event,
  change_status, put_condition, write, notify, team_notifier, send_event, in_world,
}

-- The statuses that were written, in order.
unfoldable pub updates : {F : Type 0} → List (Effect F) → List AgentTeamStatus
updates [] = []
updates (event a b c ∷ es) = updates es
updates (posted a b c d e ∷ es) = updates es
updates (metric m ∷ es) = updates es
updates (amount a ∷ es) = updates es
updates (status_update st ∷ es) = st ∷ updates es

pub updates-append :
    {F : Type 0} (es fs : List (Effect F)) → updates (es ++ fs) ≡ updates es ++ updates fs
unfolding updates
updates-append [] fs = refl
updates-append (event a b c ∷ es) fs = updates-append es fs
updates-append (posted a b c d e ∷ es) fs = updates-append es fs
updates-append (metric m ∷ es) fs = updates-append es fs
updates-append (amount a ∷ es) fs = updates-append es fs
updates-append (status_update st ∷ es) fs = ap (λ us. st ∷ us) (updates-append es fs)

module _ {W F : Type 0} where
  abbrev pub Untouched : Pass W F → Pass W F → Type 0
  Untouched s t = (t.team ≡ s.team) × (updates t.effects ≡ updates s.effects)

  pub Untouched-refl : (s : Pass W F) → Untouched s s
  Untouched-refl s = (refl, refl)

  pub Untouched-trans : (s t u : Pass W F) → Untouched s t → Untouched t u → Untouched s u
  Untouched-trans s t u f g = (g.0 ∙ f.0, g.1 ∙ f.1)

  abbrev pub Quiet : Pass W F → Pass W F → Type 0
  Quiet s t =
      (t.team.spec ≡ s.team.spec)
      × (t.team.meta ≡ s.team.meta)
      × (t.team.status.phase ≡ s.team.status.phase)
      × (updates t.effects ≡ updates s.effects)

  pub Quiet-refl : (s : Pass W F) → Quiet s s
  Quiet-refl s = (refl, refl, refl, refl)

  pub Quiet-trans : (s t u : Pass W F) → Quiet s t → Quiet t u → Quiet s u
  Quiet-trans s t u f g = (g.0 ∙ f.0, g.1 ∙ f.1, g.2 ∙ f.2, g.3 ∙ f.3)

  pub Untouched-Quiet : (s t : Pass W F) → Untouched s t → Quiet s t
  Untouched-Quiet s t f =
      (ap (λ a. a.spec) f.0, ap (λ a. a.meta) f.0, ap (λ a. a.status.phase) f.0, f.1)

  abbrev pub IsUntouched : {A : Type 0} → Exec (Pass W F) A → Type 0
  IsUntouched m = Keeps Untouched m

  abbrev pub IsQuiet : {A : Type 0} → Exec (Pass W F) A → Type 0
  IsQuiet m = Keeps Quiet m

  pub >>=-IsUntouched :
      {A B : Type 0} {m : Exec (Pass W F) A} {k : A → Exec (Pass W F) B}
      → IsUntouched m
      → ((a : A) → IsUntouched (k a))
      → IsUntouched (m >>= k)
  >>=-IsUntouched = >>=-Keeps Untouched Untouched-refl Untouched-trans

  pub >>=-IsQuiet :
      {A B : Type 0} {m : Exec (Pass W F) A} {k : A → Exec (Pass W F) B}
      → IsQuiet m
      → ((a : A) → IsQuiet (k a))
      → IsQuiet (m >>= k)
  >>=-IsQuiet = >>=-Keeps Quiet Quiet-refl Quiet-trans

  pub Untouched-branch :
      {A : Type 0} (s : Pass W F) (b : Bool) (x y : Result A × Pass W F)
      → Untouched s x.1
      → Untouched s y.1
      → Untouched s (if b then x else y).1
  Untouched-branch s true x y f g = f
  Untouched-branch s false x y f g = g

  pub Quiet-branch :
      {A : Type 0} (s : Pass W F) (b : Bool) (x y : Result A × Pass W F)
      → Quiet s x.1
      → Quiet s y.1
      → Quiet s (if b then x else y).1
  Quiet-branch s true x y f g = f
  Quiet-branch s false x y f g = g

  pub IsUntouched-IsQuiet : {A : Type 0} {m : Exec (Pass W F) A} → IsUntouched m → IsQuiet m
  IsUntouched-IsQuiet {m = m} f = record { run = λ s. Untouched-Quiet s (m s).1 (f.run s) }

  pub Quiet-then :
      {A : Type 0} (s t : Pass W F) {m : Exec (Pass W F) A}
      → Quiet s t
      → IsQuiet m
      → Quiet s (m t).1
  Quiet-then s t {m} f q = Quiet-trans s t (m t).1 f (q.run t)

  pub lift-IsUntouched : {A : Type 0} (r : Result A) → IsUntouched (lift r)
  lift-IsUntouched = lift-Keeps Untouched Untouched-refl Untouched-trans

  pub gets-IsUntouched : {A : Type 0} (f : Pass W F → A) → IsUntouched (gets f)
  gets-IsUntouched = gets-Keeps Untouched Untouched-refl Untouched-trans

  pub pure-IsUntouched : {A : Type 0} (a : A) → IsUntouched (pure a)
  pure-IsUntouched = pure-Keeps Untouched Untouched-refl Untouched-trans

  pub raise-IsUntouched : (A : Type 0) (e : Error) → IsUntouched (raise {A = A} e)
  raise-IsUntouched A = raise-Keeps Untouched Untouched-refl Untouched-trans

pub write-IsUntouched :
    (env : Env) (f : env.World → Result (Unit {0}) × env.World) → IsUntouched (write env f)
unfolding write
write-IsUntouched env f = record { run = λ s. (refl, refl) }

pub in_world-IsUntouched :
    (env : Env) {A : Type 0} (m : Exec env.World A) → IsUntouched (in_world env m)
unfolding in_world
in_world-IsUntouched env m = record { run = λ s. (refl, refl) }

-- An effect other than a write of the status.
abbrev pub IsNote : {F : Type 0} → Effect F → Type 0
IsNote (event a b c) = Unit
IsNote (posted a b c d e) = Unit
IsNote (metric m) = Unit
IsNote (amount a) = Unit
IsNote (status_update st) = ⊥

updates-note : {F : Type 0} (e : Effect F) → IsNote e → updates (e ∷ []) ≡ []
unfolding updates
updates-note (event a b c) n = refl
updates-note (posted a b c d e) n = refl
updates-note (metric m) n = refl
updates-note (amount a) n = refl
updates-note (status_update st) n = absurd n

module _ (env : Env) where
  pub emit-IsUntouched : (e : Effect env.float.F) → IsNote e → IsUntouched (emit env e)
  unfolding emit
  emit-IsUntouched e n = record {
    run = λ s. (
      refl,
      updates-append s.effects (e ∷ [])
          ∙ ap (λ us. updates s.effects ++ us) (updates-note e n)
          ∙ append-nil (updates s.effects),
    );
  }

  pub record_event-IsUntouched :
      (event_type reason message : String)
      → IsUntouched (record_event env event_type reason message)
  unfolding record_event
  record_event-IsUntouched event_type reason message = record {
    run = λ s.
        Untouched-branch s env.reconciler.has_recorder _ _
          ((emit-IsUntouched (event event_type reason message) tt).run s) (Untouched-refl s);
  }

  notify-IsUntouched :
      (n : Option Notifier) (event_type : String) (fields : Dict String)
      → IsUntouched (notify env n event_type fields)
  unfolding notify
  notify-IsUntouched none event_type fields = record { run = Untouched-refl }
  notify-IsUntouched (some n) event_type fields = record {
    run = λ s.
        Untouched-branch s (is_subscribed n event_type) _ _
          ((emit-IsUntouched (posted n.url event_type s.team.meta.name s.team.meta.namespace fields)
              tt).run
            s)
          (Untouched-refl s);
  }

  pub send_event-IsUntouched :
      (event_type : String) (fields : Dict String) → IsUntouched (send_event env event_type fields)
  unfolding send_event
  send_event-IsUntouched event_type fields = record {
    run = λ s. (notify-IsUntouched (team_notifier env s.team) event_type fields).run s;
  }

  pub change_status-IsQuiet :
      (f : AgentTeamStatus → AgentTeamStatus)
      → ((st : AgentTeamStatus) → (f st).phase ≡ st.phase)
      → IsQuiet (change_status env f)
  unfolding change_status
  change_status-IsQuiet f h = record { run = λ s. (refl, refl, h s.team.status, refl) }

  pub put_condition-IsQuiet :
      (status reason message : String) → IsQuiet (put_condition env status reason message)
  unfolding put_condition
  put_condition-IsQuiet status reason message = change_status-IsQuiet _ (λ st. refl)
