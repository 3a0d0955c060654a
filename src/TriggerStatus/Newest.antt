-- ===== src/TriggerStatus/Newest.antt =====
-- What the status of a trigger says of its runs.
use kagents.Prelude.{
  ◌≡◌, ◌≢◌, refl, subst, sym, ◌∙◌, ◌⊎◌, ◌↔◌, inl, inr, ◌≤◌, ℕ, zero, suc, String, Bool, true, false,
  not, Option, some, List, [], ◌∷◌, In, ◌==◌, eq_iff, length, arith, Bool-cases,
}
use kagents.Api.Resources.{AgentTeamRun}
use kagents.Api.Triggers.{AgentTeamTriggerStatus}
use kagents.Schedule.{is_run_terminal}
use kagents.TriggerStatus.{trigger_history_limit, history_of, active_of, last_time, status_for}

abbrev pub created : AgentTeamRun → ℕ
created run = run.meta.creation_timestamp

abbrev pub is_active : AgentTeamRun → Bool
is_active run = not (is_run_terminal run.status.phase)

abbrev pub IsNewestFirst : List AgentTeamRun → Type 0
IsNewestFirst [] = Unit {0}
IsNewestFirst (run ∷ runs) =
    ((q : AgentTeamRun) → In q runs → created q ≤ created run) × IsNewestFirst runs

-- What is used of sort.Slice: the result has the runs that were given, and is in order.
pub record Sorts (runs sorted : List AgentTeamRun) : Type 0 where
  pub same : (r : AgentTeamRun) → In r runs ↔ In r sorted
  pub as_many : length sorted ≡ length runs
  pub ordered : IsNewestFirst sorted

active_of-found :
    (active : String) (runs : List AgentTeamRun) → active ≢ "" → active_of active runs ≡ active
unfolding active_of
active_of-found active [] found = refl
active_of-found active (run ∷ runs) found = elim (Bool-cases (active == "")) [
  | inl e ↦ absurd (found ((eq_iff active "").0 e))
  | inr e ↦ rw e (active_of-found active runs found)
]

-- The name is that of the newest active run, or no run is active and there is none.
abbrev pub IsNewestActive : List AgentTeamRun → String → Type 0
IsNewestActive runs name =
    ((name ≡ "") × ((r : AgentTeamRun) → In r runs → is_active r ≡ false))
    ⊎ ((r : AgentTeamRun) × In r runs
        × (r.meta.name ≡ name)
        × (is_active r ≡ true)
        × ((q : AgentTeamRun) → In q runs → is_active q ≡ true → created q ≤ created r))

cons-IsNewestActive :
    (run : AgentTeamRun) (runs : List AgentTeamRun) (name : String)
    → is_active run ≡ false
    → IsNewestActive runs name
    → IsNewestActive (run ∷ runs) name
cons-IsNewestActive run runs name done (inl (e, all)) =
    inl (e, λ r h. elim h [ inl same ↦ rw same done | inr later ↦ all r later ])
cons-IsNewestActive run runs name done (inr (r, at, e, on, newest)) = inr (
  r,
  inr at,
  e,
  on,
  λ q h qon. elim h [
    | inl same ↦ absurd (true_not_false (sym (subst (λ x. is_active x ≡ true) same qon) ∙ done))
    | inr later ↦ newest q later qon
  ],
)
  where
    true_not_false : true ≢ false
    true_not_false = λ h. ground arith

active_of-IsNewestActive :
    (runs : List AgentTeamRun)
    → IsNewestFirst runs
    → ((r : AgentTeamRun) → In r runs → r.meta.name ≢ "")
    → IsNewestActive runs (active_of "" runs)
unfolding active_of
active_of-IsNewestActive [] sorted named = inl (refl, λ r h. absurd h)
active_of-IsNewestActive (run ∷ runs) sorted named =
    elim (Bool-cases (is_run_terminal run.status.phase)) [
      | inl done ↦ rw done (
          cons-IsNewestActive run runs _ (rw done refl)
            (active_of-IsNewestActive runs sorted.1 (λ r h. named r (inr h))))
      | inr on ↦
          let found = active_of-found run.meta.name runs (named run (inl refl)) in
          rw (on, found)
            (inr (
              run,
              inl refl,
              refl,
              rw on refl,
              λ q h qon. elim h [
                | inl same ↦ rw same (ground arith)
                | inr later ↦ sorted.0 q later
              ],
            ))
    ]

move-IsNewestActive :
    (runs sorted : List AgentTeamRun) (name : String)
    → ((r : AgentTeamRun) → In r runs ↔ In r sorted)
    → IsNewestActive sorted name
    → IsNewestActive runs name
move-IsNewestActive runs sorted name same (inl (e, all)) = inl (e, λ r h. all r ((same r).0 h))
move-IsNewestActive runs sorted name same (inr (r, at, e, on, newest)) =
    inr (r, (same r).1 at, e, on, λ q h qon. newest q ((same q).0 h) qon)

length-history_of : (limit : ℕ) (runs : List AgentTeamRun) → length (history_of limit runs) ≤ limit
unfolding history_of
length-history_of zero runs = omega arith
length-history_of (suc limit) [] = omega arith
length-history_of (suc limit) (run ∷ runs) = omega (arith, length-history_of limit runs)

-- The time is the latest creation time of the runs, or stays where there are none.
abbrev pub IsLatest : List AgentTeamRun → Option ℕ → Option ℕ → Type 0
IsLatest runs old time =
    ((runs ≡ []) × (time ≡ old))
    ⊎ ((r : AgentTeamRun) × In r runs
        × (time ≡ some (created r))
        × ((q : AgentTeamRun) → In q runs → created q ≤ created r))

last_time-IsLatest :
    (old : AgentTeamTriggerStatus) (runs sorted : List AgentTeamRun)
    → Sorts runs sorted
    → IsLatest runs old.last_triggered_at (last_time old sorted)
last_time-IsLatest old [] [] sorts = inl (refl, refl)
last_time-IsLatest old (q ∷ runs) [] sorts = absurd ((sorts.same q).0 (inl refl))
last_time-IsLatest old runs (run ∷ sorted) sorts = inr (
  run,
  (sorts.same run).1 (inl refl),
  refl,
  λ q h. elim ((sorts.same q).0 h) [
    | inl same ↦ rw same (ground arith)
    | inr later ↦ sorts.ordered.0 q later
  ],
)

-- For the runs of a trigger that the cluster has, which all have a name, whatever order sort.Slice gives
-- runs of one time: the status counts these runs (not those that were deleted before), names the newest
-- that is not terminal as the active one (none where all are terminal), holds the latest creation time,
-- and lists no more than the limit, which is 20 where none is set.
pub status_for_exact :
    (limit : ℕ) (old : AgentTeamTriggerStatus) (runs sorted : List AgentTeamRun)
    → Sorts runs sorted
    → ((r : AgentTeamRun) → In r runs → r.meta.name ≢ "")
    → let st = status_for limit old sorted in
      (st.total_runs ≡ length runs)
      × IsNewestActive runs st.active_run
      × IsLatest runs old.last_triggered_at st.last_triggered_at
      × (length st.runs ≤ trigger_history_limit limit)
unfolding status_for
status_for_exact limit old runs sorted sorts named = (
  sorts.as_many,
  move-IsNewestActive runs sorted _ sorts.same
      (active_of-IsNewestActive sorted sorts.ordered (λ r h. named r ((sorts.same r).1 h))),
  last_time-IsLatest old runs sorted sorts,
  length-history_of (trigger_history_limit limit) sorted,
)
