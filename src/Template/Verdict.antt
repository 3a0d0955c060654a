-- ===== src/Template/Verdict.antt =====
-- What a pass of the template reconciler writes.
use kagents.Prelude.{◌≡◌, refl, ap, ◌↔◌, String, true, Option, none, some, arith}
use kagents.Result.{Result, ok, err}
use kagents.Api.Status.{Time, Condition}
use kagents.Api.Resources.{AgentTeamTemplate}
use kagents.Team.Conditions.Laws.{find_condition, write_condition_self}
use kagents.Template.{validate_template}
use kagents.Template.Valid.{IsValid, validate_template-IsValid}
use kagents.Template.Status.{ready_condition, status_text, set_template_ready, conclude, judge}

abbrev pub status_of : Option Condition → Option String
status_of none = none
status_of (some c) = some c.status

conclude-exact :
    (now : Time) (tmpl : AgentTeamTemplate) (r : Result (Unit {0}))
    → let st = (conclude now tmpl r).status in
      ((st.ready ≡ true) ↔ (r ≡ ok tt))
      × (status_of (find_condition ready_condition st.conditions) ≡ some (status_text st.ready))
unfolding set_template_ready
conclude-exact now tmpl (ok tt) = (
  ((λ h. refl), (λ h. refl)),
  ap status_of (write_condition_self ready_condition now _ _ _ tmpl.status.conditions),
)
conclude-exact now tmpl (err e) = (
  ((λ h. ground arith), (λ h. ground arith)),
  ap status_of (write_condition_self ready_condition now _ _ _ tmpl.status.conditions),
)

-- A pass marks a template ready exactly if its spec is valid, and the condition Ready of the status
-- says the same as the mark.
pub judge-IsValid :
    (now : Time) (tmpl : AgentTeamTemplate)
    → let st = (judge now tmpl).status in
      ((st.ready ≡ true) ↔ IsValid tmpl.spec)
      × (status_of (find_condition ready_condition st.conditions) ≡ some (status_text st.ready))
unfolding judge
judge-IsValid now tmpl =
    let (mark, condition) = conclude-exact now tmpl (validate_template tmpl.spec) in
    let valid = validate_template-IsValid tmpl.spec in
    (((λ h. valid.0 (mark.0 h)), (λ v. mark.1 (valid.1 v))), condition)
