-- ===== src/Template.antt =====
-- validateTemplate of internal/controller/agentteamtemplate_controller.go.
pub mod Valid
pub mod Status
pub mod Verdict
use kagents.Prelude.{String, Bool, not, List, [], ◌∷◌, ◌==◌, ◌<>◌, ◌&&◌, contains, if◌then◌else◌}
use kagents.Result.{Result, ok, err, other, ◌>>=◌, ◌>>◌}
use kagents.Fmt.{quote}
use kagents.Api.Spec.{TeammateSpec}
use kagents.Api.Resources.{AgentTeamTemplateSpec}

abbrev pub valid_models : List String
valid_models = "opus" ∷ "sonnet" ∷ "haiku" ∷ []

-- The first loop: the set of names, unless a name comes twice.
pub collect_names : List String → List TeammateSpec → Result (List String)
collect_names names [] = ok names
collect_names names (tm ∷ rest) =
    let next = collect_names (tm.name ∷ names) rest in
    if contains tm.name names
    then err (other ("duplicate teammate name " <> quote tm.name))
    else next

pub check_model : TeammateSpec → Result (Unit {0})
check_model tm =
    if not (tm.model == "") && not (contains tm.model valid_models)
    then err (
        other (
          "teammate "
          <> quote tm.name
          <> " has invalid model "
          <> quote tm.model
          <> " (allowed: opus|sonnet|haiku)"))
    else ok tt

pub check_depends_on : List String → String → List String → Result (Unit {0})
check_depends_on names name [] = ok tt
check_depends_on names name (dep ∷ deps) =
    let rest = check_depends_on names name deps in
    if dep == name
    then err (other ("teammate " <> quote name <> " cannot depend on itself"))
    else if not (contains dep names)
    then err (other ("teammate " <> quote name <> " depends on unknown teammate " <> quote dep))
    else rest

-- The second loop.
pub check_teammates : List String → List TeammateSpec → Result (Unit {0})
check_teammates names [] = ok tt
check_teammates names (tm ∷ rest) = do
  check_model tm
  check_depends_on names tm.name tm.depends_on
  check_teammates names rest

pub validate_template : AgentTeamTemplateSpec → Result (Unit {0})
validate_template spec = do
  names ← collect_names [] spec.teammates
  check_teammates names spec.teammates
