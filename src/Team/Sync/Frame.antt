-- ===== src/Team/Sync/Frame.antt =====
-- What the syncing of the pods and their deletion leave of a pass.
use kagents.Prelude.{
  refl, ap, ◌∙◌, ◌≡◌, Bool, true, false, if◌then◌else◌, List, [], ◌∷◌, ◌++◌, map, append-nil,
  is_some,
}
use kagents.Result.{Result, ok, err}
use kagents.Exec.Keeps.{if-Keeps}
use kagents.Metrics.{Metric}
use kagents.Api.Spec.{TeammateSpec}
use kagents.Api.Status.{AgentTeamStatus}
use kagents.Cluster.Objects.{Pod}
use kagents.Team.Runtime.{Env, Pass, Effect, metric}
use kagents.Team.Steps.{
  updates, updates-append, Quiet, IsUntouched, IsQuiet, >>=-IsUntouched, Untouched-refl, Quiet-refl,
  Quiet-then, change_status-IsQuiet,
}
use kagents.Team.Agents.{get_pod}
use kagents.Team.Sync.{
  record_artifacts, record_succeeded, has_succeeded, lead_status, sync_pod_statuses, delete_pod,
  delete_pods, terminate_all_pods,
}

module _ (F : Type 0) {A : Type 0} (f : A → Metric) where
  abbrev metrics : List A → List (Effect F)
  metrics = map (λ x. metric (f x))

  updates_metrics : (xs : List A) → updates (metrics xs) ≡ []
  unfolding updates
  updates_metrics [] = refl
  updates_metrics (x ∷ xs) = updates_metrics xs

  -- Metrics are no status.
  pub updates-metrics :
      (es : List (Effect F)) (xs : List A) → updates (es ++ metrics xs) ≡ updates es
  updates-metrics es xs =
      updates-append es (metrics xs)
      ∙ ap (λ us. updates es ++ us) (updates_metrics xs)
      ∙ append-nil (updates es)

lead_status-phase :
    (env : Env) (st : AgentTeamStatus) (r : Result Pod) → (lead_status env st r).phase ≡ st.phase
lead_status-phase env st (ok pod) = refl
lead_status-phase env st (err e) = refl

module _ (env : Env) where
  pub delete_pod-IsUntouched : (pod : Pod) → IsUntouched (delete_pod env pod)
  unfolding delete_pod
  delete_pod-IsUntouched pod = record { run = λ s. (refl, refl) }

  delete_pods-IsUntouched : (pods : List Pod) → IsUntouched (delete_pods env pods)
  unfolding delete_pods
  delete_pods-IsUntouched [] = record { run = Untouched-refl }
  delete_pods-IsUntouched (pod ∷ rest) = record {
    run = λ s.
        (>>=-IsUntouched
            (if-Keeps (is_some pod.deletion_timestamp) (record { run = Untouched-refl })
              (delete_pod-IsUntouched pod))
            λ _. delete_pods-IsUntouched rest).run
          s;
  }

  pub terminate_all_pods-IsUntouched : IsUntouched (terminate_all_pods env)
  unfolding terminate_all_pods
  terminate_all_pods-IsUntouched =
      >>=-IsUntouched (record { run = Untouched-refl }) λ pods. delete_pods-IsUntouched pods

  record_artifacts-IsQuiet : (tm : TeammateSpec) → IsQuiet (record_artifacts env tm)
  unfolding record_artifacts
  record_artifacts-IsQuiet tm = record {
    run = λ s. (refl, refl, refl, updates-metrics _ _ s.effects _);
  }

  record_succeeded-IsQuiet : (tms : List TeammateSpec) → IsQuiet (record_succeeded env tms)
  unfolding record_succeeded
  record_succeeded-IsQuiet [] = record { run = Quiet-refl }
  record_succeeded-IsQuiet (tm ∷ rest) = record {
    run = λ s.
        Quiet-then s
          (if has_succeeded env (get_pod env s tm.name) then (record_artifacts env tm s).1 else s)
          (one tm s (has_succeeded env (get_pod env s tm.name))) (record_succeeded-IsQuiet rest);
  }
    where
      one :
          (t : TeammateSpec) (s : Pass env.World env.float.F) (b : Bool)
          → Quiet s (if b then (record_artifacts env t s).1 else s)
      one t s true = (record_artifacts-IsQuiet t).run s
      one t s false = Quiet-refl s

  pub sync_pod_statuses-IsQuiet : IsQuiet (sync_pod_statuses env)
  unfolding sync_pod_statuses
  sync_pod_statuses-IsQuiet = record {
    run = λ s.
        Quiet-then s (record_succeeded env s.team.spec.teammates s).1
          ((record_succeeded-IsQuiet s.team.spec.teammates).run s)
          (change_status-IsQuiet env _ (λ st. lead_status-phase env st (get_pod env s "lead")));
  }
