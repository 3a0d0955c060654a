-- ===== src/Dashboard/Funcs/Progress.antt =====
-- The progress bar of a pipeline against the statuses that the reconciler writes.
use native.Mathlib.Nat.{le-div_iff_mul-le, div-le_of_le-mul}
use kagents.Prelude.{
  ◌≡◌, refl, ◌↔◌, inl, inr, ℕ, suc, ◌*◌, ◌/◌, ◌≤◌, ◌<◌, true, false, some, List, [], ◌∷◌, All,
  length, eqb, ltb, arith, Bool-cases,
}
use kagents.Api.Spec.{StageSpec}
use kagents.Api.Status.{Time, StageStatus, PipelineStatus}
use kagents.Api.Resources.{AgentTeam}
use kagents.Team.Pipeline.{update_pipeline_status}
use kagents.Team.Pipeline.Summary.{
  is_completed, count_completed, stages_after, update_pipeline_status_summary, length-new_stages,
  first_open,
}
use kagents.Dashboard.Funcs.{pipeline_percent}

count_completed-le : (stages : List StageStatus) → count_completed stages ≤ length stages
count_completed-le [] = omega arith
count_completed-le (ss ∷ rest) = ground (arith, count_completed-le rest)

count_completed-All :
    (stages : List StageStatus)
    → (length stages ≤ count_completed stages) ↔ All (λ ss. is_completed ss ≡ true) stages
count_completed-All [] = (λ h. tt, λ h. omega arith)
count_completed-All (ss ∷ rest) = elim (Bool-cases (is_completed ss)) [
  | inl completed ↦ rw completed (
    λ h. (refl, (count_completed-All rest).0 (omega arith)),
    λ h. let k = (count_completed-All rest).1 h.1 in omega arith,
  )
  | inr open_stage ↦ rw open_stage (
    λ h.
        let k = count_completed-le rest in
        let no : suc (length rest) ≤ count_completed rest = h in absurd (omega arith),
    λ h. cc,
  )
]

abbrev PercentFacts : ℕ → ℕ → Type 0
PercentFacts c t = let pct = c * 100 / t in (pct ≤ 100) × ((pct ≡ 100) ↔ (t ≤ c))

-- c of t in percent
percent_exact : (c t : ℕ) → 0 < t → c ≤ t → PercentFacts c t
percent_exact c t positive h = (
  div-le_of_le-mul t (omega arith),
  (
    λ e.
        let k = (le-div_iff_mul-le {k = t} {x = 100} {y = c * 100} positive).0 (omega arith) in
        omega arith,
    λ k.
        let at_least =
          (le-div_iff_mul-le {k = t} {x = 100} {y = c * 100} positive).1 (omega arith) in
        let at_most = div-le_of_le-mul t {m = c * 100} {n = 100} (omega arith) in omega arith,
  ),
)

clamped :
    (p : PipelineStatus)
    → 0 < p.stages_total
    → p.stages_completed ≤ p.stages_total
    → (pipeline_percent (some p) ≤ 100)
      × ((pipeline_percent (some p) ≡ 100) ↔ (p.stages_total ≤ p.stages_completed))
unfolding pipeline_percent
clamped p positive h =
    let (bounded, full) = percent_exact p.stages_completed p.stages_total positive h in
    let some_stages : eqb p.stages_total 0 ≡ false = ground arith in
    let kept : ltb 100 (p.stages_completed * 100 / p.stages_total) ≡ false = ground arith in
    rw (some_stages, kept) (bounded, full)

-- The progress bar of a team with stages shows at most 100, and 100 exactly where each stage is
-- Completed in the status that the reconciler has just computed.
pub pipeline_percent_exact :
    (team : AgentTeam) (now : Time) (s : StageSpec) (rest : List StageSpec)
    → team.spec.pipeline ≡ some (record { stages = s ∷ rest })
    → let pct = pipeline_percent (update_pipeline_status team now).0 in
      (pct ≤ 100)
      × ((pct ≡ 100) ↔ All (λ ss. is_completed ss ≡ true) (stages_after team now (s ∷ rest)))
pipeline_percent_exact team now s rest e =
    let stages = stages_after team now (s ∷ rest) in
    let whole : length stages ≡ length (s ∷ rest) = length-new_stages team _ _ now (s ∷ rest) [] in
    let at_most = count_completed-le stages in
    let (bounded, full) =
      clamped
        (record {
          current_stage = first_open stages;
          stages_completed = count_completed stages;
          stages_total = length (s ∷ rest);
          stages = stages;
        })
        (omega arith) (omega arith) in
    let (there, back) = count_completed-All stages in
    rw (update_pipeline_status_summary team now s rest e) (
      bounded,
      (λ k. let l = full.0 k in there (omega arith), λ k. let l = back k in full.1 (omega arith)),
    )
