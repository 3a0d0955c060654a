-- ===== src/Schedule/Names.antt =====
-- scheduledRunName: the windows of a schedule and the names of their runs.
use text.Mathlib.TextLemmas.{append_cancel_left}
use kagents.Prelude.{
  ◌≡◌, ◌≢◌, refl, inl, inr, ◌/◌, String, List, ◌<>◌, show_nat_inj, eq_iff, Bool-cases, arith,
}
use kagents.Api.Status.{Time}
use kagents.Api.Resources.{ScheduledRunStatus, AgentTeamSchedule}
use kagents.Schedule.History.{has_run-snoc}
use kagents.Schedule.{has_run, record_run, scheduled_run_name}

-- The Unix time.
abbrev pub unix : Time → Time
unix t = t / 1_000_000_000

scheduled_run_name_inj :
    (sched : AgentTeamSchedule) (t u : Time)
    → scheduled_run_name sched t ≡ scheduled_run_name sched u
    → unix t ≡ unix u
unfolding scheduled_run_name ◌<>◌
scheduled_run_name_inj sched t u h =
    show_nat_inj (unix t) (unix u)
      (append_cancel_left "-" _ _ (append_cancel_left sched.meta.name _ _ h))

record_run-other :
    (name other : String) (at : Time) (runs : List ScheduledRunStatus)
    → name ≢ other
    → has_run other (record_run name at runs) ≡ has_run other runs
unfolding record_run
record_run-other name other at runs apart = elim (Bool-cases (has_run name runs)) [
  | inl there ↦ rw there refl
  | inr new ↦
      let added =
        has_run-snoc other runs (record { name = name; scheduled_at = at; phase = "Pending" }) in
      rw (new, added) (ground (arith, eq_iff name other))
]

-- Two windows of a schedule in different seconds have runs of different names, so the run of the one is
-- not taken for the run of the other, which would be skipped: that the first is in the history does not
-- make the second count as recorded.
pub scheduled_run_name-record_run :
    (sched : AgentTeamSchedule) (t u : Time) (runs : List ScheduledRunStatus)
    → unix t ≢ unix u
    → (scheduled_run_name sched t ≢ scheduled_run_name sched u)
      × (has_run (scheduled_run_name sched u) (record_run (scheduled_run_name sched t) t runs)
          ≡ has_run (scheduled_run_name sched u) runs)
scheduled_run_name-record_run sched t u runs apart =
    let differ : scheduled_run_name sched t ≢ scheduled_run_name sched u =
      λ e. apart (scheduled_run_name_inj sched t u e) in
    (differ, record_run-other _ _ t runs differ)
