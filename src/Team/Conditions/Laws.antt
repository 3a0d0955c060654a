-- ===== src/Team/Conditions/Laws.antt =====
-- What a write of a condition changes, and what it leaves alone.
use kagents.Prelude.{
  String, ◌≡◌, refl, ◌≢◌, true, Option, none, some, List, [], ◌∷◌, arith, ◌==◌, eq_iff, eq_refl,
  if◌then◌else◌,
}
use kagents.Api.Status.{Time, Condition}
use kagents.Team.Conditions.{
  write_condition, set_condition, budget_warning_sent, mark_budget_warning_sent, progressing,
  budget_warning,
}

-- The first condition of a type, as `kubectl` and meta.FindStatusCondition read it.
pub find_condition : String → List Condition → Option Condition
find_condition type [] = none
find_condition type (c ∷ cs) = if c.type == type then some c else find_condition type cs

-- The time that a write of `status` at `now` leaves on a condition.
abbrev pub transition_time : Time → String → Option Condition → Time
transition_time now status none = now
transition_time now status (some c) = if c.status == status then c.last_transition_time else now

module _ (type : String) (now : Time) (status reason message : String) where
  pub write_condition_self :
      (cs : List Condition)
      → find_condition type (write_condition type now status reason message cs)
        ≡ some (record {
          type = type;
          status = status;
          reason = reason;
          message = message;
          last_transition_time = transition_time now status (find_condition type cs);
        })
  unfolding find_condition write_condition
  write_condition_self [] = rw (eq_refl type)
  write_condition_self (c ∷ cs) = ground (arith, eq_iff c.type type, write_condition_self cs)

  write_condition_other :
      (t : String) (cs : List Condition)
      → t ≢ type
      → find_condition t (write_condition type now status reason message cs) ≡ find_condition t cs
  unfolding find_condition write_condition
  write_condition_other t [] h = ground (arith, eq_iff type t)
  write_condition_other t (c ∷ cs) h =
      ground (arith, eq_iff c.type type, eq_iff c.type t, write_condition_other t cs h)

-- setCondition leaves exactly the given status, reason and message under `Progressing`, moves its
-- transition time only if the status differs from the one before, and changes the first condition of
-- no other type.
pub set_condition_exact :
    (now : Time) (status reason message : String) (cs : List Condition)
    → (find_condition progressing (set_condition now status reason message cs)
        ≡ some (record {
          type = progressing;
          status = status;
          reason = reason;
          message = message;
          last_transition_time = transition_time now status (find_condition progressing cs);
        }))
      × ((t : String)
          → t ≢ progressing
          → find_condition t (set_condition now status reason message cs) ≡ find_condition t cs)
unfolding set_condition
set_condition_exact now status reason message cs = (
  write_condition_self progressing now status reason message cs,
  λ t h. write_condition_other progressing now status reason message t cs h,
)

-- Once the budget warning is marked, it stays marked whatever conditions are set afterwards.
pub budget_warning_sent-set_condition :
    (now : Time) (status reason message : String) (cs : List Condition)
    → budget_warning_sent (set_condition now status reason message cs) ≡ budget_warning_sent cs
unfolding budget_warning_sent set_condition write_condition
budget_warning_sent-set_condition now status reason message [] = refl
budget_warning_sent-set_condition now status reason message (c ∷ cs) = ground (
  arith,
  eq_iff c.type progressing,
  eq_iff c.type budget_warning,
  budget_warning_sent-set_condition now status reason message cs,
  kinds_differ,
)
  where
    kinds_differ : ◌≢◌ {A = String} progressing budget_warning
    kinds_differ = ground (arith, eq_iff progressing budget_warning)

pub budget_warning_sent-mark :
    (now : Time) (message : String) (cs : List Condition)
    → budget_warning_sent (mark_budget_warning_sent now message cs) ≡ true
unfolding budget_warning_sent mark_budget_warning_sent
budget_warning_sent-mark now message [] = refl
budget_warning_sent-mark now message (c ∷ cs) =
    ground (arith, budget_warning_sent-mark now message cs)
