-- ===== src/Template/Status.antt =====
-- setTemplateReady, trimMessage and Reconcile of internal/controller/agentteamtemplate_controller.go.
-- A message is ASCII text, so that a character is a byte.
use kagents.Prelude.{ℕ, zero, suc, String, Bool, true, false, ◌<>◌, leb, if◌then◌else◌, trim_space}
use kagents.Result.{Result, ok, err, message, is_not_found}
use kagents.Api.Status.{Time, condition_true, condition_false}
use kagents.Api.Resources.{AgentTeamTemplate}
use kagents.Team.Conditions.{write_condition}
use kagents.Template.{validate_template}

text_length : String → ℕ
text_length String.[] = 0
text_length (String.◌∷◌ c s) = suc (text_length s)

-- s[:n]
text_take : ℕ → String → String
text_take zero s = ""
text_take (suc n) String.[] = ""
text_take (suc n) (String.◌∷◌ c s) = String.◌∷◌ c (text_take n s)

unfoldable pub trim_message : String → ℕ → String
unfolding text_length text_take trim_space
trim_message s n = if leb (text_length s) n then s else trim_space (text_take n s) <> "…"

abbrev pub ready_condition : String
ready_condition = "Ready"

abbrev pub status_text : Bool → String
status_text ready = if ready then condition_true else condition_false

unfoldable pub set_template_ready :
    Time → AgentTeamTemplate → Bool → String → String → AgentTeamTemplate
set_template_ready now tmpl ready reason text = record tmpl {
  status = record {
    ready = ready;
    conditions =
        write_condition ready_condition now (status_text ready) reason (trim_message text 256)
          tmpl.status.conditions;
  };
}

-- The template with the outcome of its validation.
abbrev pub conclude : Time → AgentTeamTemplate → Result (Unit {0}) → AgentTeamTemplate
conclude now tmpl (ok u) = set_template_ready now tmpl true "Valid" "Template passed validation"
conclude now tmpl (err e) = set_template_ready now tmpl false "ValidationFailed" (message e)

unfoldable pub judge : Time → AgentTeamTemplate → AgentTeamTemplate
judge now tmpl = conclude now tmpl (validate_template tmpl.spec)

-- Reconcile, with the two calls of the API client and the clock.
module _ {W : Type 0} (get_template : W → String → String → Result AgentTeamTemplate)
    (update_status : W → AgentTeamTemplate → Result (Unit {0}) × W) (now : Time) where
  after_get : W → Result AgentTeamTemplate → Result (Unit {0}) × W
  after_get w (ok tmpl) = update_status w (judge now tmpl)
  after_get w (err e) = (if is_not_found e then ok tt else err e, w)

  unfoldable pub reconcile_template : W → String → String → Result (Unit {0}) × W
  unfolding after_get
  reconcile_template w namespace name = after_get w (get_template w namespace name)
