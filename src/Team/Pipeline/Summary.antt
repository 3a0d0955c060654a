-- ===== src/Team/Pipeline/Summary.antt =====
-- The loop over the stages against a description without its variables.
use mathlib.Core.List.{append_assoc, append-nil}
use kagents.Prelude.{
  ℕ, suc, ◌+◌, String, ◌≡◌, refl, sym, ap, ◌∙◌, inl, inr, Bool, true, some, List, [], ◌∷◌, ◌++◌,
  arith, In, All, Bool-cases, ◌==◌, ◌||◌, eq_iff, Dict, lookup_or, length, if◌then◌else◌,
}
use kagents.Api.Spec.{StageSpec}
use kagents.Api.Status.{Time, StageStatus, PipelineStatus}
use kagents.Api.Resources.{AgentTeam}
use kagents.Team.Order.{stage_approval_granted}
use kagents.Team.Pipeline.{
  Progress, start, index_phases, index_stage_statuses, zero_stage, stage_status, record_stage,
  refresh_stage, run_stages, refresh_pipeline, update_pipeline_status, stage_statuses,
}
use kagents.Team.Pipeline.Phases.{refresh_stage_outcome}

abbrev pub is_completed : StageStatus → Bool
is_completed ss = ss.phase == "Completed"

abbrev pub count_completed : List StageStatus → ℕ
count_completed [] = 0
count_completed (ss ∷ rest) =
    if is_completed ss then suc (count_completed rest) else count_completed rest

abbrev pub completed_names : List StageStatus → List String
completed_names [] = []
completed_names (ss ∷ rest) =
    if is_completed ss then ss.name ∷ completed_names rest else completed_names rest

-- The first stage with a name that is not Completed.
abbrev pub first_open : List StageStatus → String
first_open [] = ""
first_open (ss ∷ rest) = if is_completed ss || ss.name == "" then first_open rest else ss.name

module _ (team : AgentTeam) (phases : Dict String) (prev : Dict StageStatus) (now : Time) where
  -- The new statuses, one for each stage, given the names of the stages completed before them.
  abbrev pub new_stages : List String → List StageSpec → List StageStatus
  new_stages completed [] = []
  new_stages completed (s ∷ rest) =
      let ss = refresh_stage team phases prev now completed s in
      ss ∷ new_stages (if is_completed ss then s.name ∷ completed else completed) rest

  abbrev after : Progress → StageSpec → Progress
  after p s =
      record_stage team s (lookup_or zero_stage s.name prev).phase
        (refresh_stage team phases prev now p.stage_completed s) p

  refresh_stage-name :
      (completed : List String) (s : StageSpec)
      → (refresh_stage team phases prev now completed s).name ≡ s.name
  unfolding refresh_stage stage_status
  refresh_stage-name completed s = refl

  run_stages-stages :
      (p : Progress) (specs : List StageSpec)
      → (run_stages team phases prev now p specs).stages
        ≡ p.stages ++ new_stages p.stage_completed specs
  unfolding run_stages record_stage
  run_stages-stages p [] = sym (append-nil p.stages)
  run_stages-stages p (s ∷ rest) = run_stages-stages (after p s) rest ∙ append_assoc p.stages _ _

  run_stages-completed :
      (p : Progress) (specs : List StageSpec)
      → (run_stages team phases prev now p specs).completed
        ≡ p.completed + count_completed (new_stages p.stage_completed specs)
  unfolding run_stages record_stage
  run_stages-completed p [] = omega arith
  run_stages-completed p (s ∷ rest) = ground (arith, run_stages-completed (after p s) rest)

  run_stages-current_stage :
      (p : Progress) (specs : List StageSpec)
      → (run_stages team phases prev now p specs).current_stage ≡ (
          if p.current_stage == ""
          then first_open (new_stages p.stage_completed specs)
          else p.current_stage)
  unfolding run_stages record_stage
  run_stages-current_stage p [] = ground (arith, eq_iff p.current_stage "")
  run_stages-current_stage p (s ∷ rest) = ground (
    arith,
    eq_iff p.current_stage "",
    eq_iff s.name "",
    refresh_stage-name p.stage_completed s,
    run_stages-current_stage (after p s) rest,
  )

abbrev pub stages_after : AgentTeam → Time → List StageSpec → List StageStatus
stages_after team now specs =
    new_stages team (index_phases [] team.status.teammates)
      (index_stage_statuses [] (stage_statuses team.status.pipeline)) now [] specs

refresh_pipeline-some :
    (team : AgentTeam) (now : Time) (s : StageSpec) (rest : List StageSpec)
    → let stages = stages_after team now (s ∷ rest) in
      (refresh_pipeline team now (some (record { stages = s ∷ rest }))).0
      ≡ some (record {
        current_stage = first_open stages;
        stages_completed = count_completed stages;
        stages_total = length (s ∷ rest);
        stages = stages;
      })
unfolding refresh_pipeline
refresh_pipeline-some team now s rest =
    let phases = index_phases [] team.status.teammates in
    let prev = index_stage_statuses [] (stage_statuses team.status.pipeline) in
    λ i. some (record {
      current_stage = run_stages-current_stage team phases prev now start (s ∷ rest) i;
      stages_completed = counted i;
      stages_total = length (s ∷ rest);
      stages = run_stages-stages team phases prev now start (s ∷ rest) i;
    })
  where
    phases : Dict String
    phases = index_phases [] team.status.teammates

    prev : Dict StageStatus
    prev = index_stage_statuses [] (stage_statuses team.status.pipeline)

    counted :
        (run_stages team phases prev now start (s ∷ rest)).completed
        ≡ count_completed (stages_after team now (s ∷ rest))
    counted = omega (arith, run_stages-completed team phases prev now start (s ∷ rest))

-- The status of a pipeline with stages lists one entry for each stage, in order; it counts those that
-- are Completed, and names as the current one the first stage with a name that is not, or none.
pub update_pipeline_status_summary :
    (team : AgentTeam) (now : Time) (s : StageSpec) (rest : List StageSpec)
    → team.spec.pipeline ≡ some (record { stages = s ∷ rest })
    → let stages = stages_after team now (s ∷ rest) in
      (update_pipeline_status team now).0
      ≡ some (record {
        current_stage = first_open stages;
        stages_completed = count_completed stages;
        stages_total = length (s ∷ rest);
        stages = stages;
      })
unfolding update_pipeline_status
update_pipeline_status_summary team now s rest e =
    ap (λ o. (refresh_pipeline team now o).0) e ∙ refresh_pipeline-some team now s rest

-- Statuses beside the specifications of their stages, where a running stage is in its turn: all the
-- stages that it depends on are in `done`, and its approval is granted.
abbrev pub RunsInTurn : AgentTeam → List String → List StageSpec → List StageStatus → Type 0
RunsInTurn team done [] statuses = Unit
RunsInTurn team done (s ∷ specs) [] = ⊥
RunsInTurn team done (s ∷ specs) (ss ∷ statuses) =
    (ss.phase ≡ "Running"
      → All (λ dep. In dep done) s.depends_on × (stage_approval_granted team s ≡ true))
    × RunsInTurn team done specs statuses

All-In-mono :
    (xs ys : List String) (sub : (x : String) → In x xs → In x ys) (deps : List String)
    → All (λ dep. In dep xs) deps
    → All (λ dep. In dep ys) deps
All-In-mono xs ys sub [] h = tt
All-In-mono xs ys sub (dep ∷ deps) h = (sub dep h.0, All-In-mono xs ys sub deps h.1)

module _ (team : AgentTeam) (phases : Dict String) (prev : Dict StageStatus) (now : Time) where
  new_stages-RunsInTurn :
      (done : List String) (completed : List String) (specs : List StageSpec)
      → ((x : String) → In x completed → In x done)
      → ((x : String)
          → In x (completed_names (new_stages team phases prev now completed specs))
          → In x done)
      → RunsInTurn team done specs (new_stages team phases prev now completed specs)
  new_stages-RunsInTurn done completed [] old new = tt
  new_stages-RunsInTurn done completed (s ∷ rest) old new = (
    λ running.
        let r = (refresh_stage_outcome team phases prev now completed s).2 running in
        (All-In-mono completed done old s.depends_on r.0, r.1),
    elim (Bool-cases (is_completed (refresh_stage team phases prev now completed s))) [
      | inl e ↦
          let held = rw e at new in
          rw e (
            new_stages-RunsInTurn done (s.name ∷ completed) rest
              (λ x m. elim m [
                | inl here ↦
                    held x (inl (here ∙ sym (refresh_stage-name team phases prev now completed s)))
                | inr earlier ↦ old x earlier
              ])
              (λ x m. held x (inr m)))
      | inr e ↦
          let held = rw e at new in
          rw e (new_stages-RunsInTurn done completed rest old (λ x m. held x m))
    ],
  )

-- In the status that updatePipelineStatus gives a pipeline with stages, a stage is Running only while
-- every stage that it depends on is Completed in the same status, and its approval, where one is
-- required, is granted.
pub update_pipeline_status-RunsInTurn :
    (team : AgentTeam) (now : Time) (s : StageSpec) (rest : List StageSpec)
    → team.spec.pipeline ≡ some (record { stages = s ∷ rest })
    → (st : PipelineStatus) × ((update_pipeline_status team now).0 ≡ some st)
      × RunsInTurn team (completed_names st.stages) (s ∷ rest) st.stages
update_pipeline_status-RunsInTurn team now s rest e = (
  _,
  update_pipeline_status_summary team now s rest e,
  new_stages-RunsInTurn team (index_phases [] team.status.teammates)
      (index_stage_statuses [] (stage_statuses team.status.pipeline)) now _ [] (s ∷ rest)
      (λ x m. absurd m) (λ x m. m),
)

pub length-new_stages :
    (team : AgentTeam) (phases : Dict String) (prev : Dict StageStatus) (now : Time)
    (specs : List StageSpec) (completed : List String)
    → length (new_stages team phases prev now completed specs) ≡ length specs
length-new_stages team phases prev now [] completed = refl
length-new_stages team phases prev now (s ∷ rest) completed =
    ap (λ n. suc n) (length-new_stages team phases prev now rest _)
