-- ===== src/Schedule/Collected.antt =====
-- The deletions of gcOldRuns, one after another.
use kagents.Prelude.{
  ◌≡◌, refl, ◌∙◌, ℕ, ◌-◌, arith, leb, ◌||◌, true, false, List, [], ◌∷◌, length, Bool-cases, eqb,
  String, ◌⊎◌, inl, inr, if◌then◌else◌,
}
use kagents.Result.{Result, Error, ok, err, is_not_found}
use kagents.Exec.Keeps.{Keeps, >>=-Keeps}
use kagents.Exec.{Found, found, missing, found_or_missing, continue, ◌>>=◌}
use kagents.Api.Resources.{ScheduledRunStatus, AgentTeamRun}
use kagents.Schedule.{
  ScheduleClient, SchedulePass, take_runs, tolerate_missing, delete_found, delete_runs,
}

-- The entries to collect: the oldest terminal ones beyond the limit, or none where the limit is 0.
abbrev pub excess_of : ℕ → List ScheduledRunStatus → List ScheduledRunStatus
excess_of limit terminal = if eqb limit 0 then [] else take_runs (length terminal - limit) terminal

module _ (client : ScheduleClient) where
  open client use {World}

  -- A deletion is done where the run was deleted or has gone meanwhile.
  abbrev pub IsDone : Result (Unit {0}) → Type 0
  IsDone r = (r ≡ ok tt) ⊎ ((e : Error) × (r ≡ err e) × (is_not_found e ≡ true))

  -- From one cluster to another by the deletion of the runs of the entries, in order: a run that is
  -- there is deleted, one that is gone is passed over, and any other answer ends it with an error.
  pub data Collected (namespace : String)
      : List ScheduledRunStatus → World → Result (Unit {0}) → World → Type 0 where
    all_collected : {w : World} → Collected namespace [] w (ok tt) w
    gone :
        {rs : ScheduledRunStatus} {rest : List ScheduledRunStatus} {w v : World}
        {r : Result (Unit {0})} (e : Error)
        → client.get_run w namespace rs.name ≡ err e
        → is_not_found e ≡ true
        → Collected namespace rest w r v
        → Collected namespace (rs ∷ rest) w r v
    deleted :
        {rs : ScheduledRunStatus} {rest : List ScheduledRunStatus} {w v : World}
        {r : Result (Unit {0})} (run : AgentTeamRun)
        → client.get_run w namespace rs.name ≡ ok run
        → IsDone (client.delete_run w run).0
        → Collected namespace rest (client.delete_run w run).1 r v
        → Collected namespace (rs ∷ rest) w r v
    not_fetched :
        {rs : ScheduledRunStatus} {rest : List ScheduledRunStatus} {w : World} (e told : Error)
        → client.get_run w namespace rs.name ≡ err e
        → is_not_found e ≡ false
        → Collected namespace (rs ∷ rest) w (err told) w
    not_deleted :
        {rs : ScheduledRunStatus} {rest : List ScheduledRunStatus} {w : World} (run : AgentTeamRun)
        (e told : Error)
        → client.get_run w namespace rs.name ≡ ok run
        → (client.delete_run w run).0 ≡ err e
        → is_not_found e ≡ false
        → Collected namespace (rs ∷ rest) w (err told) (client.delete_run w run).1

  abbrev Collects :
      List ScheduledRunStatus
      → SchedulePass client
      → Result (Unit {0}) × SchedulePass client
      → Type 0
  Collects runs s (r, t) = Collected s.sched.meta.namespace runs s.world r t.world

  after_delete :
      (rs : ScheduledRunStatus) (rest : List ScheduledRunStatus) (s : SchedulePass client)
      (run : AgentTeamRun) (r : Result (Unit {0}))
      → client.get_run s.world s.sched.meta.namespace rs.name ≡ ok run
      → (client.delete_run s.world run).0 ≡ r
      → ((t : SchedulePass client) → Collects rest t (delete_runs client rest t))
      → Collects (rs ∷ rest) s (
          continue
            (tolerate_missing client rs.name r)
            (λ _. delete_runs client rest)
            (record s { world = (client.delete_run s.world run).1 }))
  unfolding tolerate_missing
  after_delete rs rest s run (ok u) got done later = deleted run got (inl done) (later _)
  after_delete rs rest s run (err e) got done later = elim (Bool-cases (is_not_found e)) [
    | inl absent ↦ rw absent (deleted run got (inr (e, done, absent)) (later _))
    | inr failed ↦ rw failed (not_deleted run e _ got done failed)
  ]

  after_get :
      (rs : ScheduledRunStatus) (rest : List ScheduledRunStatus) (s : SchedulePass client)
      (r : Result AgentTeamRun)
      → client.get_run s.world s.sched.meta.namespace rs.name ≡ r
      → ((t : SchedulePass client) → Collects rest t (delete_runs client rest t))
      → Collects
          (rs ∷ rest)
          s
          ((delete_found client rs.name (found_or_missing r) >>= λ _. delete_runs client rest) s)
  unfolding delete_found ◌>>=◌
  after_get rs rest s (ok run) got later =
      after_delete rs rest s run (client.delete_run s.world run).0 got refl later
  after_get rs rest s (err (Error.not_found m)) got later = gone _ got refl (later s)
  after_get rs rest s (err (Error.already_exists m)) got later = not_fetched _ _ got refl
  after_get rs rest s (err (Error.other m)) got later = not_fetched _ _ got refl

  pub delete_runs-Collects :
      (runs : List ScheduledRunStatus) (s : SchedulePass client)
      → Collected s.sched.meta.namespace runs s.world
          (delete_runs client runs s).0
          (delete_runs client runs s).1.world
  unfolding delete_runs
  delete_runs-Collects [] s = all_collected
  delete_runs-Collects (rs ∷ rest) s =
      after_get rs rest s (client.get_run s.world s.sched.meta.namespace rs.name) refl
        (delete_runs-Collects rest)

  -- The schedule is as it was.
  abbrev pub SameSched : SchedulePass client → SchedulePass client → Type 0
  SameSched s t = t.sched ≡ s.sched

  delete_found-SameSched :
      (name : String) (r : Result (Found AgentTeamRun))
      → Keeps SameSched (delete_found client name r)
  unfolding delete_found
  delete_found-SameSched name (ok missing) = record { run = λ s. refl }
  delete_found-SameSched name (ok (found run)) = record { run = λ s. refl }
  delete_found-SameSched name (err e) = record { run = λ s. refl }

  pub delete_runs-SameSched :
      (runs : List ScheduledRunStatus) → Keeps SameSched (delete_runs client runs)
  unfolding delete_runs
  delete_runs-SameSched [] = record { run = λ s. refl }
  delete_runs-SameSched (rs ∷ runs) = record {
    run = λ s.
        (>>=-Keeps SameSched (λ a. refl) (λ a b c f g. g ∙ f)
            (delete_found-SameSched rs.name
              (found_or_missing (client.get_run s.world s.sched.meta.namespace rs.name)))
            λ _. delete_runs-SameSched runs).run
          s;
  }

pub excess_of_none :
    (limit : ℕ) (terminal : List ScheduledRunStatus)
    → leb limit 0 || leb (length terminal - limit) 0 ≡ true
    → excess_of limit terminal ≡ []
excess_of_none limit terminal few = elim (Bool-cases (eqb limit 0)) [
  | inl zero_limit ↦ rw zero_limit refl
  | inr given ↦ let e : length terminal - limit ≡ 0 = ground arith in rw (given, e) refl
]

pub excess_of_some :
    (limit : ℕ) (terminal : List ScheduledRunStatus)
    → leb limit 0 || leb (length terminal - limit) 0 ≡ false
    → excess_of limit terminal ≡ take_runs (length terminal - limit) terminal
excess_of_some limit terminal many = let given : eqb limit 0 ≡ false = ground arith in rw given refl
