-- ===== src/Examples/Specs.antt =====
-- Templates and dependencies at concrete teams.
use kagents.Prelude.{String, ◌≡◌, ◌≢◌, ◌↔◌, ◌⊎◌, In}
use kagents.Result.{ok}
use kagents.Template.{validate_template}
use kagents.Template.Valid.{IsValid, validate_template-IsValid}
use kagents.Team.Order.{effective_dependencies, ordering_sources, input_sources}
use kagents.Team.Order.Effective.{IsClean, effective_dependencies_exact}
use kagents.Examples.Data.{report_team, writer, report_template}

validate_template_example : (validate_template report_template ≡ ok tt) ↔ IsValid report_template
validate_template_example = validate_template-IsValid report_template

effective_dependencies_example :
    IsClean (effective_dependencies report_team writer)
    × ((x : String)
        → In x (effective_dependencies report_team writer) ↔ (
            (x ≢ "")
            × (In x (ordering_sources report_team writer) ⊎ In x (input_sources writer.inputs))))
effective_dependencies_example = effective_dependencies_exact report_team writer
