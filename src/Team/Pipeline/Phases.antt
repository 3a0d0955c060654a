-- ===== src/Team/Pipeline/Phases.antt =====
-- The phase of a stage, described by the phases of its teammates.
use kagents.Prelude.{
  ◌+◌, ◌≤◌, ◌<◌, String, ◌≡◌, refl, ◌≢◌, ◌↔◌, ◌⊎◌, inl, inr, Bool, true, false, List, [], ◌∷◌,
  arith, All, eq_iff, Dict, lookup_or, length, In, contains→In,
}
use kagents.Api.Spec.{StageSpec}
use kagents.Api.Status.{Time, StageStatus}
use kagents.Api.Resources.{AgentTeam}
use kagents.Team.Order.{stage_approval_granted}
use kagents.Team.Pipeline.{
  Tally, tally_phase, tally_teammates, zero_tally, stage_phase, upstream_ready, refresh_stage,
  stage_status,
}

tally_failed :
    (phase : String) (t : Tally)
    → ((tally_phase phase t).any_failed ≡ true) ↔ ((t.any_failed ≡ true) ⊎ (phase ≡ "Failed"))
tally_failed phase t = (
  λ h. ground (arith, eq_iff phase "Completed", eq_iff phase "Failed"),
  λ h. elim h [ inl a ↦ ground arith | inr e ↦ rw e ],
)

tally_ready_le : (phase : String) (t : Tally) → (tally_phase phase t).ready ≤ t.ready + 1
tally_ready_le phase t = ground arith

tally_ready_iff :
    (phase : String) (t : Tally)
    → ((tally_phase phase t).ready ≡ t.ready + 1) ↔ (phase ≡ "Completed")
tally_ready_iff phase t = (λ h. ground (arith, eq_iff phase "Completed"), λ e. rw e (omega arith))

module _ (phases : Dict String) where
  abbrev pub PhaseIs : String → String → Type 0
  PhaseIs phase name = lookup_or "" name phases ≡ phase

  -- Some teammate is Failed.
  abbrev pub AnyFailed : List String → Type 0
  AnyFailed [] = ⊥
  AnyFailed (name ∷ names) = PhaseIs "Failed" name ⊎ AnyFailed names

  failed-tally :
      (t : Tally) (names : List String)
      → ((tally_teammates phases t names).any_failed ≡ true)
        ↔ ((t.any_failed ≡ true) ⊎ AnyFailed names)
  unfolding tally_teammates
  failed-tally t [] = (λ h. inl h, λ h. elim h [ inl a ↦ a | inr e ↦ absurd e ])
  failed-tally t (name ∷ names) =
      let phase = lookup_or "" name phases in
      let ih = failed-tally (tally_phase phase t) names in
      let one = tally_failed phase t in
      (
        λ h. elim (ih.0 h) [
          | inl a ↦ elim (one.0 a) [ inl b ↦ inl b | inr e ↦ inr (inl e) ]
          | inr more ↦ inr (inr more)
        ],
        λ h. ih.1 (elim h [
          | inl a ↦ inl (one.1 (inl a))
          | inr k ↦ elim k [ inl e ↦ inl (one.1 (inr e)) | inr more ↦ inr more ]
        ]),
      )

  ready-tally :
      (t : Tally) (names : List String)
      → (tally_teammates phases t names).ready ≤ t.ready + length names
  unfolding tally_teammates
  ready-tally t [] = omega arith
  ready-tally t (name ∷ names) =
      let phase = lookup_or "" name phases in
      omega (arith, ready-tally (tally_phase phase t) names, tally_ready_le phase t)

  full-tally :
      (t : Tally) (names : List String)
      → ((tally_teammates phases t names).ready ≡ t.ready + length names)
        ↔ All (PhaseIs "Completed") names
  unfolding tally_teammates
  full-tally t [] = (λ h. tt, λ h. omega arith)
  full-tally t (name ∷ names) =
      let phase = lookup_or "" name phases in
      let t' = tally_phase phase t in
      let ih = full-tally t' names in
      let one = tally_ready_iff phase t in
      (
        λ h. (
          one.0 (omega (arith, ready-tally t' names, tally_ready_le phase t)),
          ih.0 (omega (arith, ready-tally t' names, tally_ready_le phase t)),
        ),
        λ h. omega (arith, one.1 h.0, ih.1 h.1),
      )

module _ (team : AgentTeam) (s : StageSpec) (t : Tally) (upstream : Bool) where
  switch_failed : (stage_phase team s t upstream ≡ "Failed") ↔ (t.any_failed ≡ true)
  unfolding stage_phase
  switch_failed = (
    λ h. ground (
      arith,
      eq_iff "Completed" "Failed",
      eq_iff "Waiting" "Failed",
      eq_iff "PendingApproval" "Failed",
      eq_iff "Running" "Failed",
    ),
    λ h. rw h,
  )

  switch_completed :
      (stage_phase team s t upstream ≡ "Completed")
      ↔ ((t.any_failed ≡ false) × (t.ready ≡ length s.teammates) × (0 < length s.teammates))
  unfolding stage_phase
  switch_completed = (
    λ h. ground (
      arith,
      eq_iff "Failed" "Completed",
      eq_iff "Waiting" "Completed",
      eq_iff "PendingApproval" "Completed",
      eq_iff "Running" "Completed",
    ),
    λ h. ground arith,
  )

  switch_running :
      stage_phase team s t upstream ≡ "Running"
      → (upstream ≡ true) × (stage_approval_granted team s ≡ true) × (t.any_spawned ≡ true)
  unfolding stage_phase stage_approval_granted
  switch_running h = ground (
    arith,
    eq_iff "Failed" "Running",
    eq_iff "Waiting" "Running",
    eq_iff "PendingApproval" "Running",
    eq_iff "Completed" "Running",
  )

length-pos : (xs : List String) → (0 < length xs) ↔ (xs ≢ [])
length-pos [] = (λ h. absurd (omega arith), λ h. absurd (h refl))
length-pos (x ∷ xs) = (λ h e. cc, λ h. omega arith)

not_true : (b : Bool) → ¬ (b ≡ true) → b ≡ false
not_true true h = absurd (h refl)
not_true false h = refl

pub upstream_ready-All :
    (completed deps : List String)
    → upstream_ready completed deps ≡ true
    → All (λ dep. In dep completed) deps
unfolding upstream_ready
upstream_ready-All completed [] h = tt
upstream_ready-All completed (dep ∷ deps) h =
    (contains→In dep completed (ground arith), upstream_ready-All completed deps (ground arith))

-- A stage is given the phase Failed exactly if a teammate of it failed; Completed exactly if none
-- failed, it has teammates, and all of them completed; Running only if every stage that it depends on
-- is among those found completed before it in the pass, and its approval, where one is required, is
-- granted.
pub refresh_stage_outcome :
    (team : AgentTeam) (phases : Dict String) (prev : Dict StageStatus) (now : Time)
    (completed : List String) (s : StageSpec)
    → let phase = (refresh_stage team phases prev now completed s).phase in
      ((phase ≡ "Failed") ↔ AnyFailed phases s.teammates)
      × ((phase ≡ "Completed") ↔ (
          (¬ AnyFailed phases s.teammates)
          × (s.teammates ≢ [])
          × All (PhaseIs phases "Completed") s.teammates))
      × (phase ≡ "Running"
          → All (λ dep. In dep completed) s.depends_on × (stage_approval_granted team s ≡ true))
unfolding refresh_stage stage_status
refresh_stage_outcome team phases prev now completed s = (
  (
    λ h. failed.0 ((switch_failed team s t upstream).0 h),
    λ h. (switch_failed team s t upstream).1 (failed.1 h),
  ),
  (
    λ h.
        let c = (switch_completed team s t upstream).0 h in
        ((λ f. cc (failed.1 f, c.0)), (length-pos s.teammates).0 c.2, full.0 c.1),
    λ h.
        (switch_completed team s t upstream).1 (
          not_true t.any_failed (λ f. h.0 (failed.0 f)),
          full.1 h.2,
          (length-pos s.teammates).1 h.1,
        ),
  ),
  λ h.
      let r = switch_running team s t upstream h in
      (upstream_ready-All completed s.depends_on r.0, r.1),
)
  where
    t : Tally
    t = tally_teammates phases zero_tally s.teammates

    upstream : Bool
    upstream = upstream_ready completed s.depends_on

    failed : (t.any_failed ≡ true) ↔ AnyFailed phases s.teammates
    failed = (
      λ h. elim ((failed-tally phases zero_tally s.teammates).0 h) [ inl e ↦ cc | inr k ↦ k ],
      λ k. (failed-tally phases zero_tally s.teammates).1 (inr k),
    )

    full : (t.ready ≡ length s.teammates) ↔ All (PhaseIs phases "Completed") s.teammates
    full = (
      λ h. (full-tally phases zero_tally s.teammates).0 (omega arith),
      λ h. let e = (full-tally phases zero_tally s.teammates).1 h in omega arith,
    )
