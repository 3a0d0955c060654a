-- ===== src/Team/Failures/Bounded.antt =====
-- A teammate is restarted within its limit.
use kagents.Prelude.{
  ◌≡◌, refl, sym, subst, ◌≤◌, ℕ, suc, String, Bool, true, false, Option, none, some, List, [], ◌∷◌,
  leb, ◌==◌, arith, Bool-cases, inl, inr, if◌then◌else◌,
}
use kagents.Result.{Result, ok, err}
use kagents.Exec.{Exec, Found, found, missing, found_or_missing, ◌>>=◌}
use kagents.Exec.Keeps.{Keeps, explain-Keeps, >>=-Keeps}
use kagents.Api.Spec.{TeammateSpec}
use kagents.Cluster.Objects.{Pod}
use kagents.Team.Restarts.{max_restarts, teammate_restart_count, set_teammate_restart_count}
use kagents.Team.Restarts.Laws.{restart_count-set}
use kagents.Team.Agents.{get_pod}
use kagents.Team.Agents.Frame.{ensure_agent_pod-IsUntouched}
use kagents.Team.Sync.Frame.{delete_pod-IsUntouched}
use kagents.Team.Runtime.{Env, Pass, Action, metric, change_status}
use kagents.Team.Steps.{
  IsUntouched, >>=-IsUntouched, emit-IsUntouched, send_event-IsUntouched, record_event-IsUntouched,
}
use kagents.Team.Failures.{
  respawn, check_teammate, unless_fatal, check_teammates, handle_teammate_failures,
}

module _ {W F : Type 0} where
  abbrev pub count_of : Pass W F → String → ℕ
  count_of s j = teammate_restart_count s.team.status.teammates j

  -- No count rises above the limit.
  abbrev pub Within : ℕ → Pass W F → Pass W F → Type 0
  Within limit s t = (j : String) → count_of s j ≤ limit → count_of t j ≤ limit

  Within-refl : (limit : ℕ) (s : Pass W F) → Within limit s s
  Within-refl limit s j h = h

  Within-trans :
      (limit : ℕ) (s t u : Pass W F) → Within limit s t → Within limit t u → Within limit s u
  Within-trans limit s t u f g j h = g j (f j h)

  module _ (limit : ℕ) where
    abbrev IsWithin : {A : Type 0} → Exec (Pass W F) A → Type 0
    IsWithin m = Keeps (Within limit) m

    IsUntouched-IsWithin : {A : Type 0} {m : Exec (Pass W F) A} → IsUntouched m → IsWithin m
    IsUntouched-IsWithin {m = m} f = record {
      run = λ s j h.
          subst (λ team. teammate_restart_count team.status.teammates j ≤ limit) (sym (f.run s).0)
            h;
    }

    >>=-IsWithin :
        {A B : Type 0} {m : Exec (Pass W F) A} {k : A → Exec (Pass W F) B}
        → IsWithin m
        → ((a : A) → IsWithin (k a))
        → IsWithin (m >>= k)
    >>=-IsWithin = >>=-Keeps (Within limit) (Within-refl limit) (Within-trans limit)

module _ (env : Env) (limit : ℕ) where
  count-IsWithin :
      (name : String) (n : ℕ)
      → n ≤ limit
      → IsWithin limit (
          change_status env
            λ st. record st { teammates = set_teammate_restart_count st.teammates name n })
  unfolding change_status
  count-IsWithin name n h = record {
    run = λ s j b. ground (arith, restart_count-set s.team.status.teammates name j n);
  }

  respawn-IsWithin :
      (tm : TeammateSpec) (pod : Pod) (count shown : ℕ)
      → suc count ≤ limit
      → IsWithin limit (respawn env tm pod count shown)
  unfolding respawn
  respawn-IsWithin tm pod count shown h = record {
    run = λ s.
        (>>=-IsWithin limit
            (IsUntouched-IsWithin limit (explain-Keeps _ (delete_pod-IsUntouched env pod)))
            λ _. >>=-IsWithin limit (count-IsWithin tm.name (suc count) h) λ _.
              IsUntouched-IsWithin limit (
                >>=-IsUntouched (emit-IsUntouched env (metric _) tt) λ _.
                  >>=-IsUntouched (send_event-IsUntouched env _ _) λ _.
                    >>=-IsUntouched (record_event-IsUntouched env _ _ _)
                      λ _. explain-Keeps _ (ensure_agent_pod-IsUntouched env _))).run
          s;
  }

  check_failed :
      (tm : TeammateSpec) (pod : Pod) (s : Pass env.World env.float.F) (count : ℕ) (b : Bool)
      → leb limit count ≡ b
      → Within limit s
          (if b
            then (ok (some tm.name), s)
            else (respawn env tm pod count limit >>= λ _ t. (ok none, t)) s).1
  check_failed tm pod s count true e = Within-refl limit s
  check_failed tm pod s count false e =
      (>>=-IsWithin limit (respawn-IsWithin tm pod count limit (ground arith))
          λ _. record { run = Within-refl limit }).run
        s

  check_teammate-IsWithin :
      (tm : TeammateSpec) (r : Result (Found Pod)) → IsWithin limit (check_teammate env tm limit r)
  unfolding check_teammate
  check_teammate-IsWithin tm (err e) = record { run = Within-refl limit }
  check_teammate-IsWithin tm (ok missing) = record { run = Within-refl limit }
  check_teammate-IsWithin tm (ok (found pod)) = record {
    run = λ s. elim (Bool-cases (pod.phase == "Failed")) [
      | inl failed ↦
          rw failed
            (check_failed tm pod s (teammate_restart_count s.team.status.teammates tm.name) _ refl)
      | inr well ↦ rw well (Within-refl limit s)
    ];
  }

  unless_fatal-IsWithin :
      {next : Action env String}
      → IsWithin limit next
      → (r : Option String) → IsWithin limit (unless_fatal env next r)
  unless_fatal-IsWithin q none = record { run = q.run }
  unless_fatal-IsWithin q (some name) = record { run = Within-refl limit }

  check_teammates-IsWithin :
      (tms : List TeammateSpec) → IsWithin limit (check_teammates env limit tms)
  unfolding check_teammates
  check_teammates-IsWithin [] = record { run = Within-refl limit }
  check_teammates-IsWithin (tm ∷ rest) = record {
    run = λ s.
        (>>=-IsWithin limit (check_teammate-IsWithin tm (found_or_missing (get_pod env s tm.name)))
            (unless_fatal-IsWithin (check_teammates-IsWithin rest))).run
          s;
  }

-- handleTeammateFailures raises no restart count above the team's maxRestarts, whatever the cluster
-- answers and wherever an error ends it.
pub handle_teammate_failures-Within :
    (env : Env) (s : Pass env.World env.float.F) (j : String)
    → count_of s j ≤ max_restarts s.team
    → count_of (handle_teammate_failures env s).1 j ≤ max_restarts s.team
unfolding handle_teammate_failures
handle_teammate_failures-Within env s =
    (check_teammates-IsWithin env (max_restarts s.team) s.team.spec.teammates).run s
