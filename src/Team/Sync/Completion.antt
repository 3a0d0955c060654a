-- ===== src/Team/Sync/Completion.antt =====
-- What allPodsComplete answers, by the pods alone.
use kagents.Prelude.{
  ◌≡◌, ◌↔◌, refl, String, Bool, true, false, List, [], ◌∷◌, All, In, arith, ◌==◌, ◌⊎◌, inl, inr,
  ◌≢◌,
}
use kagents.Result.{Result, Error, ok, err}
use kagents.Exec.{found_or_missing}
use kagents.Cluster.Objects.{Pod}
use kagents.Team.Runtime.{Env, Pass}
use kagents.Team.Agents.{get_pod}
use kagents.Team.Sync.{
  Outcome, all_done, any_failed, waiting, check_pod, scan_pods, agent_names, all_pods_complete,
}

-- The pod could be read, and it is in the phase.
abbrev pub is_in_phase : String → Result Pod → Bool
is_in_phase phase (ok pod) = pod.phase == phase
is_in_phase phase (err e) = false

check_pod-all_done :
    (r : Result Pod)
    → (check_pod (found_or_missing r) ≡ ok all_done) ↔ (is_in_phase "Succeeded" r ≡ true)
check_pod-all_done (ok pod) = ground arith
check_pod-all_done (err (Error.not_found m)) = ground arith
check_pod-all_done (err (Error.already_exists m)) = ground arith
check_pod-all_done (err (Error.other m)) = ground arith

module _ (env : Env) (s : Pass env.World env.float.F) where
  scan_pods-waiting : (names : List String) → scan_pods env s waiting names ≢ ok all_done
  unfolding scan_pods
  scan_pods-waiting [] h = ground arith
  scan_pods-waiting (name ∷ names) h = ground (arith, scan_pods-waiting names)

  scan_pods-all_done :
      (names : List String)
      → (scan_pods env s all_done names ≡ ok all_done)
        ↔ All (λ n. is_in_phase "Succeeded" (get_pod env s n) ≡ true) names
  unfolding scan_pods
  scan_pods-all_done [] = ((λ h. tt), (λ h. refl))
  scan_pods-all_done (name ∷ names) = (
    λ h. ground (
      arith,
      check_pod-all_done (get_pod env s name),
      scan_pods-waiting names,
      scan_pods-all_done names,
    ),
    λ h. ground (arith, check_pod-all_done (get_pod env s name), scan_pods-all_done names),
  )

  check_pod-any_failed :
      (r : Result Pod)
      → check_pod (found_or_missing r) ≡ ok any_failed
      → is_in_phase "Failed" r ≡ true
  check_pod-any_failed (ok pod) h = ground arith
  check_pod-any_failed (err (Error.not_found m)) h = ground arith
  check_pod-any_failed (err (Error.already_exists m)) h = ground arith
  check_pod-any_failed (err (Error.other m)) h = ground arith

  -- The name of an agent whose pod has failed.
  abbrev pub Failing : List String → Type 0
  Failing names = (n : String) × In n names × (is_in_phase "Failed" (get_pod env s n) ≡ true)

  Failing-later : (name : String) (names : List String) → Failing names → Failing (name ∷ names)
  Failing-later name names (n, m, f) = (n, inr m, f)

  -- The answers of one round of the scan.
  check_cases : (r : Result Outcome) → ((e : Error) × (r ≡ err e)) ⊎ ((o : Outcome) × (r ≡ ok o))
  check_cases (err e) = inl (e, refl)
  check_cases (ok o) = inr (o, refl)

  scan_pods-any_failed :
      (o : Outcome) (names : List String)
      → o ≢ any_failed
      → scan_pods env s o names ≡ ok any_failed
      → Failing names
  unfolding scan_pods
  scan_pods-any_failed o [] n h = absurd (n (ground arith))
  scan_pods-any_failed o (name ∷ names) n h =
      elim (check_cases (check_pod (found_or_missing (get_pod env s name)))) [
        | inl (e, c) ↦ ground arith
        | inr (all_done, c) ↦
            Failing-later name names (scan_pods-any_failed o names n (rw (c, scan_pods) at h))
        | inr (any_failed, c) ↦ (name, inl refl, check_pod-any_failed (get_pod env s name) c)
        | inr (waiting, c) ↦
            Failing-later name names
              (scan_pods-any_failed waiting names (λ e. ground arith) (rw (c, scan_pods) at h))
      ]

-- allPodsComplete answers that all is done exactly if the pod of every agent, the lead's included,
-- can be read and has succeeded; and where it answers that an agent failed, the pod of some agent
-- has failed.
pub all_pods_complete_exact :
    (env : Env) (s : Pass env.World env.float.F)
    → (((all_pods_complete env s).0 ≡ ok all_done)
        ↔ All (λ n. is_in_phase "Succeeded" (get_pod env s n) ≡ true) (agent_names env s.team))
      × ((all_pods_complete env s).0 ≡ ok any_failed → Failing env s (agent_names env s.team))
unfolding all_pods_complete
all_pods_complete_exact env s = (
  scan_pods-all_done env s (agent_names env s.team),
  scan_pods-any_failed env s all_done (agent_names env s.team) (λ e. ground arith),
)
