-- ===== src/Team/Conditions.antt =====
-- The conditions of a team's status: setCondition and the budget-warning marker of
-- agentteam_controller.go.
pub mod Laws
use kagents.Prelude.{
  String, Bool, true, false, List, [], ◌∷◌, ◌++◌, ◌==◌, ◌&&◌, ◌||◌, if◌then◌else◌,
}
use kagents.Api.Status.{Time, Condition, condition_true}

-- The loop of setCondition over the conditions, and of its two copies for runs and templates.
unfoldable pub write_condition :
    String → Time → String → String → String → List Condition → List Condition
write_condition cond_type now status reason message [] =
    record {
      type = cond_type;
      status = status;
      reason = reason;
      message = message;
      last_transition_time = now;
    }
    ∷ []
write_condition cond_type now status reason message (c ∷ cs) =
    if c.type == cond_type
    then record c {
      status = status;
      reason = reason;
      message = message;
      last_transition_time = if c.status == status then c.last_transition_time else now;
    }
      ∷ cs
    else c ∷ write_condition cond_type now status reason message cs

abbrev pub progressing : String
progressing = "Progressing"

unfoldable pub set_condition : Time → String → String → String → List Condition → List Condition
set_condition now status reason message = write_condition progressing now status reason message

abbrev pub budget_warning : String
budget_warning = "BudgetWarningSent"

unfoldable pub budget_warning_sent : List Condition → Bool
budget_warning_sent [] = false
budget_warning_sent (c ∷ cs) =
    c.type == budget_warning && c.status == condition_true || budget_warning_sent cs

-- The message carries the formatted cost and limit, which the caller passes as a text.
unfoldable pub mark_budget_warning_sent : Time → String → List Condition → List Condition
mark_budget_warning_sent now message conditions =
    conditions
    ++ record {
      type = budget_warning;
      status = condition_true;
      reason = "ThresholdReached";
      message = message;
      last_transition_time = now;
    }
      ∷ []
