-- ===== src/Team/Agents/Gates.antt =====
-- What keeps a teammate from being spawned.
use kagents.Prelude.{
  ◌≡◌, refl, ap, ◌∙◌, inl, inr, String, false, some, List, [], ◌∷◌, ◌<>◌, All, Bool-cases,
}
use kagents.Result.{Result, ok, err}
use kagents.Exec.{Found, found, missing, found_or_missing, continue, explain, ◌>>=◌, raise, pure}
use kagents.Api.Spec.{TeammateSpec, StageSpec}
use kagents.Api.Status.{AgentTeamStatus}
use kagents.Cluster.Objects.{Pod}
use kagents.Team.Order.{
  effective_dependencies, pipeline_dependencies, stage_for_teammate, stage_approval_granted,
  is_annotated,
}
use kagents.Team.Names.{agent_pod_name}
use kagents.Team.Restarts.{set_teammate_pending_approval}
use kagents.Team.Runtime.{Env, Pass, Action, change_status}
use kagents.Team.Agents.{
  get_pod, dependencies_met, blocking_stage, pass_gates, when_unblocked, spawn_missing,
  spawn_teammates, deploy_teammates, ensure_agent_pod, teammate_agent,
}

module _ (env : Env) where
  open env use {World}

  -- What holds a teammate back, whatever the approval gates say.
  pub data Held (s : Pass World env.float.F) (tm : TeammateSpec) : Type 0 where
    unmet : dependencies_met env s (effective_dependencies s.team tm) ≡ false → Held s tm
    unapproved :
        (stage : StageSpec)
        → stage_for_teammate s.team tm.name ≡ some stage
        → stage_approval_granted s.team stage ≡ false
        → Held s tm

  -- The pass with another status of the team.
  abbrev with_status : Pass World env.float.F → AgentTeamStatus → Pass World env.float.F
  with_status s st = record s { team = record s.team { status = st } }

  dependencies_met-with_status :
      (s : Pass World env.float.F) (st : AgentTeamStatus) (deps : List String)
      → dependencies_met env (with_status s st) deps ≡ dependencies_met env s deps
  unfolding dependencies_met agent_pod_name
  dependencies_met-with_status s st [] = refl
  dependencies_met-with_status s st (dep ∷ deps) = rw (dependencies_met-with_status s st deps) refl

  Held-with_status :
      (s : Pass World env.float.F) (st : AgentTeamStatus) (tm : TeammateSpec)
      → Held s tm
      → Held (with_status s st) tm
  unfolding effective_dependencies stage_for_teammate stage_approval_granted is_annotated
      pipeline_dependencies
  Held-with_status s st tm (unmet h) = unmet (dependencies_met-with_status s st _ ∙ h)
  Held-with_status s st tm (unapproved stage h a) = unapproved stage h a

  when_unblocked-Held :
      (tm : TeammateSpec) (spawn : Action env (Unit {0})) (s : Pass World env.float.F)
      → Held s tm
      → (st : AgentTeamStatus) × (when_unblocked env tm spawn s ≡ (ok tt, with_status s st))
  unfolding when_unblocked blocking_stage pass_gates change_status
  when_unblocked-Held tm spawn s (unmet h) = rw h (s.team.status, refl)
  when_unblocked-Held tm spawn s (unapproved stage h a) =
      elim (Bool-cases (dependencies_met env s (effective_dependencies s.team tm))) [
        | inl met ↦
            rw (met, h, a)
              (
                record s.team.status {
                  teammates =
                      set_teammate_pending_approval s.team.status.teammates tm.name
                        ("stage-" <> stage.name);
                },
                refl,
              )
        | inr not_met ↦ rw not_met (s.team.status, refl)
      ]

  -- Whatever the Get of the pod said, the world stays, and the team changes in its status alone.
  spawn_missing-Held :
      (tm : TeammateSpec) (s : Pass World env.float.F)
      → Held s tm
      → (r : Result (Found Pod))
      → (st : AgentTeamStatus) × ((spawn_missing env tm r s).1 ≡ with_status s st)
  unfolding spawn_missing raise pure
  spawn_missing-Held tm s h (err e) = (s.team.status, refl)
  spawn_missing-Held tm s h (ok (found pod)) = (s.team.status, refl)
  spawn_missing-Held tm s h (ok missing) =
      let (st, e) = when_unblocked-Held tm _ s h in (st, ap (λ r. r.1) e)

  All-Held :
      (s : Pass World env.float.F) (st : AgentTeamStatus) (tms : List TeammateSpec)
      → All (Held s) tms
      → All (Held (with_status s st)) tms
  All-Held s st [] h = tt
  All-Held s st (tm ∷ rest) h = (Held-with_status s st tm h.0, All-Held s st rest h.1)

  continue_world :
      (r : Result (Unit {0})) (k : Unit {0} → Action env (Unit {0})) (t : Pass World env.float.F)
      (w : World)
      → t.world ≡ w
      → (k tt t).1.world ≡ w
      → (continue r k t).1.world ≡ w
  continue_world (ok tt) k t w h f = f
  continue_world (err e) k t w h f = h

  -- In the spawning loop of a running team, where every teammate of the list has a dependency whose pod
  -- has not succeeded, or a stage that waits for its approval, the cluster stays as it is: no pod,
  -- account, role or config map is made for any of them.
  pub spawn_teammates-Held :
      (tms : List TeammateSpec) (s : Pass World env.float.F)
      → All (Held s) tms
      → (spawn_teammates env tms s).1.world ≡ s.world
  unfolding spawn_teammates ◌>>=◌
  spawn_teammates-Held [] s h = refl
  spawn_teammates-Held (tm ∷ rest) s h =
      let (st, e) = spawn_missing-Held tm s h.0 (found_or_missing (get_pod env s tm.name)) in
      continue_world _ (λ _. spawn_teammates env rest) _ s.world (ap (λ t. t.world) e)
        (rw e (spawn_teammates-Held rest (with_status s st) (All-Held s st rest h.1)))

  -- In the loop that deploys the teammates of an initializing team, where every teammate of the list has
  -- a dependency whose pod has not succeeded, or a stage that waits for its approval, the cluster stays
  -- as it is, and the loop ends without an error.
  pub deploy_teammates-Held :
      (tms : List TeammateSpec) (s : Pass World env.float.F)
      → All (Held s) tms
      → ((deploy_teammates env tms s).0 ≡ ok tt) × ((deploy_teammates env tms s).1.world ≡ s.world)
  unfolding deploy_teammates ◌>>=◌
  deploy_teammates-Held [] s h = (refl, refl)
  deploy_teammates-Held (tm ∷ rest) s h =
      let (st, e) =
        when_unblocked-Held tm
          (explain ("ensuring teammate pod " <> tm.name) (ensure_agent_pod env (teammate_agent tm)))
          s h.0 in
      rw e (deploy_teammates-Held rest (with_status s st) (All-Held s st rest h.1))
