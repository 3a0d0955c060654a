-- ===== src/Trigger/Firing.antt =====
-- What an accepted request leaves in the cluster.
use kagents.Prelude.{
  ◌≡◌, ◌≢◌, refl, sym, ap, ◌∙◌, String, ◌⊎◌, inl, inr, true, ◌==◌, ◌<>◌, eq_iff, arith, Bool-cases,
}
use kagents.Result.{Result, Error, ok, err, is_already_exists, is_not_found}
use kagents.Exec.{continue, ◌>>=◌}
use kagents.Api.Resources.{AgentTeamRun}
use kagents.Api.Triggers.{AgentTeamTrigger}
use kagents.Trigger.{
  Listener, Response, run_name, triggered_run, create_payload, create_team_run, create_run,
  accepted, delete_run, fired, fire, replaced, apply_policy, tolerate_existing,
}

module _ (listener : Listener) where
  open listener use {World, Bytes, now}

  -- The run was created in a cluster `before`, or was there already.
  abbrev pub IsCreated : AgentTeamRun → World → World → Type 0
  IsCreated run before w =
      (listener.create_run before run ≡ (ok tt, w))
      ⊎ ((e : Error) × (listener.create_run before run ≡ (err e, w)) × (is_already_exists e ≡ true))

  tolerate_existing-IsCreated :
      (run : AgentTeamRun) (before : World) (r : Result (Unit {0})) (w : World)
      → listener.create_run before run ≡ (r, w)
      → tolerate_existing "creating run" r ≡ ok tt
      → IsCreated run before w
  tolerate_existing-IsCreated run before (ok u) w e h = inl e
  tolerate_existing-IsCreated run before (err x) w e h = elim (Bool-cases (is_already_exists x)) [
    | inl known ↦ inr (x, e, known)
    | inr other ↦ ground arith
  ]

  abbrev pub new_run : AgentTeamTrigger → AgentTeamRun
  new_run trig = triggered_run trig (run_name trig now) (run_name trig now <> "-payload")

  -- From the cluster `start`, the call for the payload succeeded, then the run was created, and the answer
  -- names it.
  abbrev pub IsMade : AgentTeamTrigger → Bytes → World → Response × World → Type 0
  IsMade trig body start (answer, w) =
      (before : World) × (create_payload listener trig (run_name trig now <> "-payload") body start
        ≡ (ok tt, before))
      × IsCreated (new_run trig) before w
      × (answer ≡ accepted listener trig (run_name trig now))

  fired-IsMade :
      (trig : AgentTeamTrigger) (body : Bytes) (start before : World) (r : Result (Unit {0}))
      (w : World)
      → create_payload listener trig (run_name trig now <> "-payload") body start ≡ (ok tt, before)
      → (r ≡ ok tt → IsCreated (new_run trig) before w)
      → (fired listener trig (run_name trig now) (r, w)).0.code ≡ 202
      → IsMade trig body start (fired listener trig (run_name trig now) (r, w))
  unfolding fired
  fired-IsMade trig body start before (ok u) w stored made h = (before, stored, made refl, refl)
  fired-IsMade trig body start before (err e) w stored made h = ground arith

  after_payload :
      (trig : AgentTeamTrigger) (body : Bytes) (start w : World) (r : Result (Unit {0}))
      → create_payload listener trig (run_name trig now <> "-payload") body start ≡ (r, w)
      → let answer =
          fired listener trig
            (run_name trig now)
            (continue r (λ _. create_team_run listener (new_run trig)) w) in
        answer.0.code ≡ 202 → IsMade trig body start answer
  unfolding create_team_run fired
  after_payload trig body start w (ok u) stored =
      let run = new_run trig in
      fired-IsMade trig body start w _ (listener.create_run w run).1 stored (
        tolerate_existing-IsCreated run w (listener.create_run w run).0
          (listener.create_run w run).1 refl)
  after_payload trig body start w (err e) stored = λ h. ground arith

  fire-IsMade :
      (trig : AgentTeamTrigger) (body : Bytes) (start : World)
      → (fire listener trig body start).0.code ≡ 202
      → IsMade trig body start (fire listener trig body start)
  unfolding fire create_run ◌>>=◌
  fire-IsMade trig body start =
      let (r, w) = create_payload listener trig (run_name trig now <> "-payload") body start in
      after_payload trig body start w r refl

  -- The active run was deleted, or was gone, which leaves the cluster `start`.
  abbrev pub IsCleared : AgentTeamTrigger → World → World → Type 0
  IsCleared trig w start =
      let deletion = delete_run listener trig.meta.namespace trig.status.active_run w in
      (deletion ≡ (ok tt, start))
      ⊎ ((e : Error) × (deletion ≡ (err e, start)) × (is_not_found e ≡ true))

  -- What the policy has done before the run is created.
  abbrev pub IsPrepared : AgentTeamTrigger → World → World → Type 0
  IsPrepared trig w start =
      let policy = trig.spec.concurrency_policy in
      let active = trig.status.active_run in
      (policy ≡ "Forbid" → active ≡ "")
      × (policy ≡ "Replace" → active ≢ "" → IsCleared trig w start)
      × ((policy ≢ "Replace") ⊎ (active ≡ "") → start ≡ w)

  -- The new run is made where the policy lets it be.
  abbrev IsHonest : AgentTeamTrigger → Bytes → World → Response × World → Type 0
  IsHonest trig body w answer =
      answer.0.code ≡ 202
      → (start : World) × IsPrepared trig w start × IsMade trig body start answer

  -- Without a deletion.
  idle-IsHonest :
      (trig : AgentTeamTrigger) (body : Bytes) (w : World)
      → IsPrepared trig w w
      → IsHonest trig body w (fire listener trig body w)
  idle-IsHonest trig body w prepared accepted_it =
      (w, prepared, fire-IsMade trig body w accepted_it)

  cleared-IsPrepared :
      (trig : AgentTeamTrigger) (w start : World)
      → trig.spec.concurrency_policy ≡ "Replace"
      → trig.status.active_run ≢ ""
      → IsCleared trig w start
      → IsPrepared trig w start
  cleared-IsPrepared trig w start replace busy cleared = (
    λ forbid. let e : ◌≡◌ {A = String} "Replace" "Forbid" = sym replace ∙ forbid in cc,
    λ _ _. cleared,
    λ none. elim none [ inl other ↦ absurd (other replace) | inr idle ↦ absurd (busy idle) ],
  )

  replaced-IsHonest :
      (trig : AgentTeamTrigger) (body : Bytes) (w start : World) (r : Result (Unit {0}))
      → ((r ≡ ok tt) ⊎ ((e : Error) × (r ≡ err e) × (is_not_found e ≡ true))
          → IsPrepared trig w start)
      → IsHonest trig body w (replaced listener trig body (r, start))
  unfolding replaced
  replaced-IsHonest trig body w start (ok u) cleared h =
      (start, cleared (inl refl), fire-IsMade trig body start h)
  replaced-IsHonest trig body w start (err e) cleared h = elim (Bool-cases (is_not_found e)) [
    | inl gone ↦
        rw gone (start, cleared (inr (e, refl, gone)), fire-IsMade trig body start (rw gone at h))
    | inr kept ↦ ground arith
  ]

  -- A request is accepted only with the run made: in the cluster that the policy has left, the payload's
  -- ConfigMap, where the trigger asks for one, was created or found to be there, then the run was created
  -- or found to be there, and the answer names this run. The policy Forbid lets it be only where no run
  -- is active; under Replace an active run is deleted first, or was gone, and the new run is made in the
  -- cluster of after this deletion; else nothing comes before.
  pub apply_policy-IsHonest :
      (trig : AgentTeamTrigger) (body : Bytes) (w : World)
      → (apply_policy listener trig body w).0.code ≡ 202
      → (start : World) × IsPrepared trig w start
        × IsMade trig body start (apply_policy listener trig body w)
  unfolding apply_policy
  apply_policy-IsHonest trig body w =
      let policy = trig.spec.concurrency_policy in
      let active = trig.status.active_run in
      elim (Bool-cases (policy == "Forbid")) [
        | inl forbid ↦
            let is_forbid = (eq_iff policy "Forbid").0 forbid in
            elim (Bool-cases (active == "")) [
              | inl idle ↦
                  let is_idle = (eq_iff active "").0 idle in
                  rw (forbid, idle)
                    (idle-IsHonest trig body w
                      ((λ _. is_idle), (λ _ busy. absurd (busy is_idle)), (λ _. refl)))
              | inr busy ↦ rw (forbid, busy) (λ h. ground arith)
            ]
        | inr other ↦
            let not_forbid : policy ≢ "Forbid" = λ e. ground (arith, eq_iff policy "Forbid") in
            elim (Bool-cases (policy == "Replace")) [
              | inl replace ↦
                  let is_replace = (eq_iff policy "Replace").0 replace in
                  elim (Bool-cases (active == "")) [
                    | inl idle ↦
                        let is_idle = (eq_iff active "").0 idle in
                        rw (other, replace, idle)
                          (idle-IsHonest trig body w
                            ((λ _. is_idle), (λ _ busy. absurd (busy is_idle)), (λ _. refl)))
                    | inr busy ↦
                        let is_busy : active ≢ "" = λ e. ground (arith, eq_iff active "") in
                        let deletion = delete_run listener trig.meta.namespace active w in
                        rw (other, replace, busy)
                          (replaced-IsHonest trig body w deletion.1 deletion.0 λ gone.
                            cleared-IsPrepared trig w deletion.1 is_replace is_busy (elim gone [
                              | inl done ↦ inl (ap (λ r. (r, deletion.1)) done)
                              | inr (e, failed, missing) ↦
                                  inr (e, ap (λ r. (r, deletion.1)) failed, missing)
                            ]))
                  ]
              | inr allow ↦
                  let not_replace : policy ≢ "Replace" =
                    λ e. ground (arith, eq_iff policy "Replace") in
                  rw (other, allow)
                    (idle-IsHonest trig body w
                      ((λ e. absurd (not_forbid e)), (λ e _. absurd (not_replace e)), (λ _. refl)))
            ]
      ]
