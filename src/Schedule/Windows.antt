-- ===== src/Schedule/Windows.antt =====
-- createRunForWindow: a window is recorded once, however often its pass is repeated.
use kagents.Prelude.{
  ◌≡◌, refl, sym, ap, ◌∙◌, ◌⊎◌, inl, inr, String, true, List, arith, eq_refl, Bool-cases,
}
use kagents.Result.{Result, ok, err, is_already_exists}
use kagents.Exec.{explain, raise}
use kagents.Api.Status.{Time}
use kagents.Api.Resources.{ScheduledRunStatus, AgentTeamRun, AgentTeamSchedule}
use kagents.Schedule.History.{has_run-snoc}
use kagents.Schedule.{
  ScheduleClient, SchedulePass, has_run, record_run, scheduled_run_name, note_run, tolerate_exists,
  create_owned, create_with_owner, create_run_for_window, run_of,
}

-- The schedule with the run of a window noted.
pub noted : Time → AgentTeamSchedule → AgentTeamSchedule
noted window_at sched = record sched {
  status = record sched.status {
    active_run = scheduled_run_name sched window_at;
    runs = record_run (scheduled_run_name sched window_at) window_at sched.status.runs;
  };
}

has_run-record_run :
    (name : String) (at : Time) (runs : List ScheduledRunStatus)
    → has_run name (record_run name at runs) ≡ true
unfolding record_run
has_run-record_run name at runs = elim (Bool-cases (has_run name runs)) [
  | inl h ↦ rw h h
  | inr h ↦
      rw
        (
          h,
          has_run-snoc name runs (record { name = name; scheduled_at = at; phase = "Pending" }),
          h,
        )
        (eq_refl name)
]

record_run-known :
    (name : String) (at : Time) (runs : List ScheduledRunStatus)
    → has_run name runs ≡ true
    → record_run name at runs ≡ runs
unfolding record_run
record_run-known name at runs h = rw h refl

record_run_idem :
    (name : String) (at : Time) (runs : List ScheduledRunStatus)
    → record_run name at (record_run name at runs) ≡ record_run name at runs
record_run_idem name at runs =
    record_run-known name at (record_run name at runs) (has_run-record_run name at runs)

noted_idem :
    (window_at : Time) (sched : AgentTeamSchedule)
    → noted window_at (noted window_at sched) ≡ noted window_at sched
unfolding noted scheduled_run_name
noted_idem window_at sched =
    ap
      (λ runs. record sched {
        status = record sched.status {
          active_run = scheduled_run_name sched window_at;
          runs = runs;
        };
      })
      (record_run_idem (scheduled_run_name sched window_at) window_at sched.status.runs)

module _ (client : ScheduleClient) where
  open client use {World, now}

  -- Success notes the run, and an error leaves the schedule.
  abbrev Notes : Time → AgentTeamSchedule → Result (Unit {0}) × SchedulePass client → Type 0
  Notes window_at sched (r, t) =
      (r ≡ ok tt → t.sched ≡ noted window_at sched)
      × ((t.sched ≡ sched) ⊎ (t.sched ≡ noted window_at sched))

  tolerate_exists-Notes :
      (window_at : Time) (r : Result (Unit {0})) (s : SchedulePass client)
      → Notes window_at s.sched (tolerate_exists client window_at r s)
  unfolding tolerate_exists note_run noted
  tolerate_exists-Notes window_at (ok u) s = (λ _. refl, inr refl)
  tolerate_exists-Notes window_at (err e) s = elim (Bool-cases (is_already_exists e)) [
    | inl known ↦ rw known (λ _. refl, inr refl)
    | inr other ↦ rw other (λ h. ground arith, inl refl)
  ]

  create_with_owner-Notes :
      (window_at : Time) (r : Result AgentTeamRun) (s : SchedulePass client)
      → Notes window_at s.sched (create_with_owner client window_at r s)
  unfolding create_with_owner create_owned explain raise
  create_with_owner-Notes window_at (ok run) s =
      tolerate_exists-Notes window_at (client.create_run s.world run).0
        (record s { world = (client.create_run s.world run).1 })
  create_with_owner-Notes window_at (err e) s = (λ h. ground arith, inl refl)

  create_run_for_window-Notes :
      (window_at : Time) (s : SchedulePass client)
      → Notes window_at s.sched (create_run_for_window client window_at s)
  unfolding create_run_for_window
  create_run_for_window-Notes window_at s =
      create_with_owner-Notes window_at (client.set_owner s.sched (run_of client s.sched window_at))
        s

  -- Once a window's run is created, or found to be there, the same call again leaves the schedule as it
  -- is, whatever the cluster answers to it: the window is not listed twice.
  pub create_run_for_window_idem :
      (window_at : Time) (s : SchedulePass client)
      → (create_run_for_window client window_at s).0 ≡ ok tt
      → (create_run_for_window client window_at
          (create_run_for_window client window_at s).1).1.sched
        ≡ (create_run_for_window client window_at s).1.sched
  create_run_for_window_idem window_at s done =
      let t = (create_run_for_window client window_at s).1 in
      let first = (create_run_for_window-Notes window_at s).0 done in
      elim (create_run_for_window-Notes window_at t).1 [
        | inl same ↦ same
        | inr again ↦ again ∙ ap (noted window_at) first ∙ noted_idem window_at s.sched ∙ sym first
      ]
