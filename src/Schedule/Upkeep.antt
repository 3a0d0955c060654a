-- ===== src/Schedule/Upkeep.antt =====
-- What a pass of the schedule reconciler leaves of the history.
use kagents.Prelude.{
  ◌≡◌, ◌≢◌, refl, sym, subst, ap, ◌∙◌, ◌≤◌, ℕ, zero, suc, ◌-◌, String, true, List, [], ◌∷◌, ◌||◌,
  length, arith, Bool-cases, inl, inr, leb, ltb,
}
use kagents.Result.{Result, ok, err, is_already_exists}
use kagents.Exec.{Exec, continue, ◌>>=◌}
use kagents.Exec.Keeps.{Keeps, >>=-Keeps, explain-Keeps, attempt-Keeps, pure-Keeps, raise-Keeps}
use kagents.Api.Status.{Time}
use kagents.Api.Resources.{ScheduledRunStatus, AgentTeamRun}
use kagents.Schedule.{
  ScheduleClient, SchedulePass, has_run, refresh_run, terminal_runs, take_runs, note_run,
  tolerate_exists, create_owned, create_with_owner, create_run_for_window, run_of, refresh_all,
  refresh_run_phases, delete_runs, drop_runs, gc_old_runs, advance, fire, keep_up,
}
use kagents.Schedule.Collected.{
  Collected, delete_runs-SameSched, all_collected, excess_of, delete_runs-Collects, excess_of_none,
  excess_of_some,
}
use kagents.Schedule.History.{
  IsDistinct, live_runs, drop_runs_of, compact_exact, compact-IsDistinct, record_run-IsDistinct,
}

length-drop_runs_of :
    (n : ℕ) (runs : List ScheduledRunStatus) → length (drop_runs_of n runs) ≡ length runs - n
length-drop_runs_of zero runs = omega arith
length-drop_runs_of (suc n) [] = omega arith
length-drop_runs_of (suc n) (rs ∷ runs) = omega (arith, length-drop_runs_of n runs)

few_enough : (limit len : ℕ) → limit ≢ 0 → leb limit 0 || leb (len - limit) 0 ≡ true → len ≤ limit
few_enough limit len given few = ground arith

at_most : (limit len n : ℕ) → n ≡ len - (len - limit) → n ≤ limit
at_most limit len n e = omega arith

refresh_run-name :
    (rs : ScheduledRunStatus) (r : Result AgentTeamRun) → (refresh_run rs r).name ≡ rs.name
unfolding refresh_run
refresh_run-name rs (ok run) = refl
refresh_run-name rs (err e) = refl

module _ (client : ScheduleClient) where
  open client use {World, now}

  abbrev pub history : SchedulePass client → List ScheduledRunStatus
  history s = s.sched.status.runs

  -- After the deletions: an error leaves the history, and success compacts it.
  after_deletes :
      (excess : ℕ) (r : Result (Unit {0})) (s t : SchedulePass client)
      → t.sched ≡ s.sched
      → let u = continue r (λ _. drop_runs client excess) t in
        (u.0 ≡ r)
        × (u.1.world ≡ t.world)
        × (live_runs (history u.1) ≡ live_runs (history s))
        × (r ≡ ok tt
            → terminal_runs (history u.1) ≡ drop_runs_of excess (terminal_runs (history s)))
  unfolding drop_runs
  after_deletes excess (ok v) s t e =
      let (live, terminal) = compact_exact excess (history t) in
      (
        refl,
        refl,
        live ∙ ap (λ x. live_runs x.status.runs) e,
        λ _. terminal ∙ ap (λ x. drop_runs_of excess (terminal_runs x.status.runs)) e,
      )
  after_deletes excess (err x) s t e =
      (refl, refl, ap (λ y. live_runs y.status.runs) e, λ h. ground arith)

  -- What the garbage collection promises.
  abbrev pub IsCollection : SchedulePass client → Result (Unit {0}) × SchedulePass client → Type 0
  IsCollection s (r, t) =
      let limit = s.sched.spec.history_limit in
      Collected client s.sched.meta.namespace (excess_of limit (terminal_runs (history s))) s.world
        r t.world
      × (live_runs (history t) ≡ live_runs (history s))
      × (r ≡ ok tt → limit ≢ 0 → length (terminal_runs (history t)) ≤ limit)

  -- The garbage collection deletes, one after another, the runs of the oldest terminal entries beyond
  -- the limit, and does nothing else to the cluster; a limit of 0 keeps them all. Whatever the cluster
  -- answers, the history keeps every run that may still go on; and where the limit is positive and no
  -- call fails, at most that many terminal runs are left in it.
  pub gc_old_runs_exact : (s : SchedulePass client) → IsCollection s (gc_old_runs client s)
  unfolding gc_old_runs ◌>>=◌
  gc_old_runs_exact s =
      let limit = s.sched.spec.history_limit in
      let terminal = terminal_runs (history s) in
      let excess = length terminal - limit in
      elim (Bool-cases (leb limit 0 || leb excess 0)) [
        | inl few ↦
            rw (few, excess_of_none limit terminal few)
              (all_collected, refl, λ _ given. few_enough limit (length terminal) given few)
        | inr many ↦
            let (r, t) = delete_runs client (take_runs excess terminal) s in
            let (same, world, live, dropped) =
              after_deletes excess r s t
                ((delete_runs-SameSched client (take_runs excess terminal)).run s) in
            rw (many, excess_of_some limit terminal many, same, world)
              (
                delete_runs-Collects client (take_runs excess terminal) s,
                live,
                λ done _.
                    at_most limit (length terminal) _
                      (ap length (dropped done) ∙ length-drop_runs_of excess terminal),
              )
      ]

  -- A name that is listed once stays listed once.
  abbrev KeepsDistinct : SchedulePass client → SchedulePass client → Type 0
  KeepsDistinct s t = IsDistinct (history s) → IsDistinct (history t)

  abbrev IsTidy : {A : Type 0} → Exec (SchedulePass client) A → Type 0
  IsTidy m = Keeps KeepsDistinct m

  >>=-IsTidy :
      {A B : Type 0} {m : Exec (SchedulePass client) A} {k : A → Exec (SchedulePass client) B}
      → IsTidy m
      → ((a : A) → IsTidy (k a))
      → IsTidy (m >>= k)
  >>=-IsTidy = >>=-Keeps KeepsDistinct (λ s d. d) (λ a b c f g d. g (f d))

  note_run-IsTidy : (window_at : Time) → IsTidy (note_run client window_at)
  unfolding note_run
  note_run-IsTidy window_at = record {
    run = λ s d. record_run-IsDistinct _ window_at (history s) d;
  }

  tolerate_exists-IsTidy :
      (window_at : Time) (r : Result (Unit {0})) → IsTidy (tolerate_exists client window_at r)
  unfolding tolerate_exists
  tolerate_exists-IsTidy window_at (ok u) = record { run = (note_run-IsTidy window_at).run }
  tolerate_exists-IsTidy window_at (err e) = record {
    run = λ s d. elim (Bool-cases (is_already_exists e)) [
      | inl known ↦ rw known ((note_run-IsTidy window_at).run s d)
      | inr other ↦ rw other d
    ];
  }

  create_with_owner-IsTidy :
      (window_at : Time) (r : Result AgentTeamRun) → IsTidy (create_with_owner client window_at r)
  unfolding create_with_owner create_owned
  create_with_owner-IsTidy window_at (ok run) = record {
    run = λ s.
        (tolerate_exists-IsTidy window_at (client.create_run s.world run).0).run
          (record s { world = (client.create_run s.world run).1 });
  }
  create_with_owner-IsTidy window_at (err e) =
      explain-Keeps _ (raise-Keeps KeepsDistinct (λ s d. d) (λ a b c f g d. g (f d)) e)

  create_run_for_window-IsTidy :
      (window_at : Time) → IsTidy (create_run_for_window client window_at)
  unfolding create_run_for_window
  create_run_for_window-IsTidy window_at = record {
    run = λ s.
        (create_with_owner-IsTidy window_at
            (client.set_owner s.sched (run_of client s.sched window_at))).run
          s;
  }

  has_run-refresh_all :
      (w : World) (namespace name : String) (runs : List ScheduledRunStatus)
      → has_run name (refresh_all client w namespace runs) ≡ has_run name runs
  unfolding refresh_all
  has_run-refresh_all w namespace name [] = refl
  has_run-refresh_all w namespace name (rs ∷ runs) =
      rw
        (
          refresh_run-name rs (client.get_run w namespace rs.name),
          has_run-refresh_all w namespace name runs,
        )
        refl

  refresh_all-IsDistinct :
      (w : World) (namespace : String) (runs : List ScheduledRunStatus)
      → IsDistinct runs
      → IsDistinct (refresh_all client w namespace runs)
  unfolding refresh_all
  refresh_all-IsDistinct w namespace [] d = tt
  refresh_all-IsDistinct w namespace (rs ∷ runs) d = (
    rw
        (
          refresh_run-name rs (client.get_run w namespace rs.name),
          has_run-refresh_all w namespace rs.name runs,
        )
        d.0,
    refresh_all-IsDistinct w namespace runs d.1,
  )

  refresh_run_phases-IsTidy : IsTidy (refresh_run_phases client)
  unfolding refresh_run_phases
  refresh_run_phases-IsTidy = record {
    run = λ s. refresh_all-IsDistinct s.world s.sched.meta.namespace (history s);
  }

  gc_old_runs-IsTidy : IsTidy (gc_old_runs client)
  unfolding gc_old_runs drop_runs
  gc_old_runs-IsTidy = record {
    run = λ s d.
        elim (Bool-cases (
          leb s.sched.spec.history_limit 0
          || leb (length (terminal_runs (history s)) - s.sched.spec.history_limit) 0)) [
            | inl few ↦ rw few d
            | inr many ↦ rw many (
                (>>=-IsTidy
                    (record {
                      run = λ t.
                          subst (λ x. IsDistinct x.status.runs)
                            (sym ((delete_runs-SameSched client _).run t));
                    })
                    λ _. record { run = λ t. compact-IsDistinct _ (history t) }).run
                  s d)
          ];
  }

  fire-IsTidy : (window_at : Time) (next : Time → Time) → IsTidy (fire client window_at next)
  unfolding fire advance
  fire-IsTidy window_at next = record {
    run = λ s d. elim (Bool-cases (ltb now window_at)) [
      | inl early ↦ rw early d
      | inr due ↦ rw due (
          (>>=-IsTidy (explain-Keeps _ (create_run_for_window-IsTidy window_at))
              λ _. record { run = λ t e. e }).run
            s d)
    ];
  }

  -- Where no two entries of the history have one name, a pass keeps it so, whatever the cluster answers.
  pub keep_up-IsDistinct :
      (window_at : Time) (next : Time → Time) (s : SchedulePass client)
      → IsDistinct (history s)
      → IsDistinct (history (keep_up client window_at next s).1)
  unfolding keep_up
  keep_up-IsDistinct window_at next =
      (>>=-IsTidy (fire-IsTidy window_at next) λ _. >>=-IsTidy refresh_run_phases-IsTidy λ _.
        >>=-IsTidy (attempt-Keeps gc_old_runs-IsTidy)
          λ _. pure-Keeps KeepsDistinct (λ s d. d) (λ a b c f g d. g (f d)) tt).run
