-- ===== src/Metrics/Registry/Gauge.antt =====
-- The gauge of active teams against the teams that were started and not finished.
use kagents.Prelude.{
  ◌≡◌, ◌↔◌, refl, ap, ◌∙◌, inl, inr, String, true, false, List, [], ◌∷◌, ◌==◌, ◌||◌, contains,
  length, eq_iff, arith, Bool-cases,
}
use kagents.Metrics.{
  Metric, record_team_start, record_team_complete, record_team_failed, record_token_usage,
  record_task_completed, set_active_teams, record_teammate_restart, set_pipeline_stage_active,
  observe_pipeline_stage_duration, record_artifact_produced, record_delivery_success,
  record_delivery_failure,
}
use kagents.Metrics.Registry.{
  pos, dec, Registry, Sample, team_key, load_or_store, started, finished, apply, apply_all, fresh,
}
use kagents.Metrics.Registry.Kinds.{
  Kind, starts, finishes, overrides, elsewhere, kind_of, IsTurn, seen_after, InTurn, starts_key,
  finishes_key, is_started, is_finished, Distinct,
}
use kagents.Metrics.Registry.Live.{live, contains-live, live-Distinct, length-live}

-- What the calls keep true of the state.
record WellKept {F : Type 0} (reg : Registry F) : Type 0 where
  distinct : Distinct reg.started_teams
  within :
      (key : String)
      → contains key reg.finished_teams ≡ true
      → contains key reg.started_teams ≡ true
  counted : reg.team_active ≡ pos (length (live reg.started_teams reg.finished_teams))

-- What a call of the kind does to the state.
record Facts {F : Type 0} (kind : Kind) (reg after : Registry F) : Type 0 where
  kept : WellKept after
  adds :
      (key : String)
      → contains key after.started_teams ≡ (starts_key key kind || contains key reg.started_teams)
  ends :
      (key : String)
      → contains key after.finished_teams
        ≡ (finishes_key key kind || contains key reg.finished_teams)

module _ {F : Type 0} where
  started-Facts :
      (key : String) (reg : Registry F)
      → WellKept reg
      → Facts (starts key) reg (started (load_or_store key reg.started_teams) reg)
  unfolding started live contains
  started-Facts key reg h = elim (Bool-cases (contains key reg.started_teams)) [
    | inl seen ↦
        rw seen (record { kept = h; adds = λ k. ground (arith, eq_iff k key); ends = λ k. refl })
    | inr new ↦
        let unfinished : contains key reg.finished_teams ≡ false = ground (arith, h.within key) in
        rw new (record {
          kept = record {
            distinct = (new, h.distinct);
            within = λ k m. ground (arith, h.within k);
            counted = rw (unfinished, h.counted) refl;
          };
          adds = λ k. refl;
          ends = λ k. refl;
        })
  ]

  finished-kept :
      (key : String) (reg : Registry F)
      → contains key reg.started_teams ≡ true
      → contains key reg.finished_teams ≡ false
      → WellKept reg
      → WellKept (record reg {
        finished_teams = key ∷ reg.finished_teams;
        team_active = dec reg.team_active;
      })
  unfolding contains
  finished-kept key reg known new h = record {
    distinct = h.distinct;
    within = λ k m. elim (Bool-cases (k == key)) [
      | inl same ↦ rw ((eq_iff k key).0 same) known
      | inr differs ↦ h.within k (ground arith)
    ];
    counted =
        rw (h.counted, length-live key reg.started_teams reg.finished_teams h.distinct known new)
          refl;
  }

  finished-Facts :
      (key : String) (also : Registry F → Registry F) (reg : Registry F)
      → ((r : Registry F)
          → WellKept r
          → WellKept (also r)
            × ((also r).started_teams ≡ r.started_teams)
            × ((also r).finished_teams ≡ r.finished_teams))
      → contains key reg.started_teams ≡ true
      → WellKept reg
      → Facts (finishes key) reg (finished (load_or_store key reg.finished_teams) also reg)
  unfolding finished contains
  finished-Facts key also reg keeps known h = elim (Bool-cases (contains key reg.finished_teams)) [
    | inl seen ↦
        rw seen (record { kept = h; adds = λ k. refl; ends = λ k. ground (arith, eq_iff k key) })
    | inr new ↦
        let (kept, same_started, same_finished) = keeps _ (finished-kept key reg known new h) in
        rw new (record {
          kept = kept;
          adds = λ k. ap (λ x. contains k x) same_started;
          ends = λ k. ap (λ x. contains k x) same_finished;
        })
  ]

  -- A sample leaves the gauge and the two sets.
  sampled-Facts :
      (sample : Sample F) (reg : Registry F)
      → WellKept reg
      → Facts elsewhere reg (record reg { samples = sample ∷ reg.samples })
  sampled-Facts sample reg h = record {
    kept = record { distinct = h.distinct; within = h.within; counted = h.counted };
    adds = λ k. refl;
    ends = λ k. refl;
  }

  apply-Facts :
      (seen : List String) (call : Metric) (reg : Registry F)
      → ((key : String) → contains key seen ≡ true → contains key reg.started_teams ≡ true)
      → IsTurn seen (kind_of call)
      → WellKept reg
      → Facts (kind_of call) reg (apply call reg)
  unfolding apply
  apply-Facts seen (record_team_start name namespace) reg known turn h =
      started-Facts (team_key name namespace) reg h
  apply-Facts seen (record_team_complete name namespace duration) reg known turn h =
      finished-Facts (team_key name namespace) _ reg
        (λ r k.
          (record { distinct = k.distinct; within = k.within; counted = k.counted }, refl, refl))
        (known _ turn) h
  apply-Facts seen (record_team_failed name namespace) reg known turn h =
      finished-Facts (team_key name namespace) (λ r. r) reg (λ r k. (k, refl, refl)) (known _ turn)
        h
  apply-Facts seen (record_token_usage team teammate model tokens) reg known turn h =
      sampled-Facts _ reg h
  apply-Facts seen (record_task_completed team teammate) reg known turn h = sampled-Facts _ reg h
  apply-Facts seen (set_active_teams count) reg known turn h = absurd turn
  apply-Facts seen (record_teammate_restart team teammate) reg known turn h = sampled-Facts _ reg h
  apply-Facts seen (set_pipeline_stage_active team namespace stage active) reg known turn h =
      sampled-Facts _ reg h
  apply-Facts seen (observe_pipeline_stage_duration team namespace stage from until) reg known turn
        h =
      sampled-Facts _ reg h
  apply-Facts seen (record_artifact_produced team namespace teammate) reg known turn h =
      sampled-Facts _ reg h
  apply-Facts seen (record_delivery_success team namespace delivery_type) reg known turn h =
      sampled-Facts _ reg h
  apply-Facts seen (record_delivery_failure team namespace delivery_type) reg known turn h =
      sampled-Facts _ reg h

  -- The keys that were started are known afterwards.
  known_after :
      (seen : List String) (kind : Kind) (reg after : Registry F)
      → Facts kind reg after
      → ((key : String) → contains key seen ≡ true → contains key reg.started_teams ≡ true)
      → (key : String) → contains key (seen_after seen kind) ≡ true
      → contains key after.started_teams ≡ true
  unfolding contains
  known_after seen (starts other) reg after facts known key m =
      ground (arith, facts.adds key, known key)
  known_after seen (finishes other) reg after facts known key m = facts.adds key ∙ known key m
  known_after seen overrides reg after facts known key m = facts.adds key ∙ known key m
  known_after seen elsewhere reg after facts known key m = facts.adds key ∙ known key m

  -- After all calls.
  record Outcome (calls : List Metric) (reg after : Registry F) : Type 0 where
    kept : WellKept after
    adds :
        (key : String)
        → contains key after.started_teams
          ≡ (is_started key calls || contains key reg.started_teams)
    ends :
        (key : String)
        → contains key after.finished_teams
          ≡ (is_finished key calls || contains key reg.finished_teams)

  apply_all-Outcome :
      (seen : List String) (calls : List Metric) (reg : Registry F)
      → ((key : String) → contains key seen ≡ true → contains key reg.started_teams ≡ true)
      → InTurn seen calls
      → WellKept reg
      → Outcome calls reg (apply_all calls reg)
  unfolding apply_all
  apply_all-Outcome seen [] reg known turns h = record {
    kept = h;
    adds = λ k. refl;
    ends = λ k. refl;
  }
  apply_all-Outcome seen (call ∷ calls) reg known turns h =
      let facts = apply-Facts seen call reg known turns.0 h in
      let rest =
        apply_all-Outcome (seen_after seen (kind_of call)) calls (apply call reg)
          (known_after seen (kind_of call) reg (apply call reg) facts known) turns.1 facts.kept in
      record {
        kept = rest.kept;
        adds = λ k. ground (arith, rest.adds k, facts.adds k);
        ends = λ k. ground (arith, rest.ends k, facts.ends k);
      }

  fresh-WellKept : WellKept {F = F} fresh
  unfolding live contains
  fresh-WellKept = record { distinct = tt; within = λ k m. cc; counted = refl }

-- From the start of the process on, when no call finishes a team before one starts it and the gauge is
-- not set, the gauge of active teams is the number of teams that a call has started and none has
-- finished, however often either is called.
pub apply_all-live :
    (F : Type 0) (calls : List Metric)
    → InTurn [] calls
    → (teams : List String) × Distinct teams
      × ((key : String)
          → (contains key teams ≡ true)
            ↔ ((is_started key calls ≡ true) × (is_finished key calls ≡ false)))
      × ((apply_all calls (fresh {F = F})).team_active ≡ pos (length teams))
unfolding contains
apply_all-live F calls turns =
    let all = apply_all-Outcome {F = F} [] calls fresh (λ k m. cc) turns fresh-WellKept in
    let after = apply_all calls (fresh {F = F}) in
    (
      live after.started_teams after.finished_teams,
      live-Distinct after.started_teams after.finished_teams all.kept.distinct,
      λ key.
          let there = contains-live key after.started_teams after.finished_teams in
          let added = all.adds key in
          let ended = all.ends key in (λ m. (ground arith, ground arith), λ m. ground arith),
      all.kept.counted,
    )
