-- ===== src/Examples/Gauges.antt =====
-- The gauge of active teams at concrete calls.
use kagents.Prelude.{◌≡◌, ◌↔◌, refl, ℕ, String, true, false, List, [], ◌∷◌, contains, length, ◌<>◌}
use kagents.Metrics.{
  Metric, record_team_start, record_team_complete, record_team_failed, record_token_usage,
}
use kagents.Metrics.Registry.{pos, negsuc, team_key, apply, apply_all, fresh}
use kagents.Metrics.Registry.Kinds.{Distinct, InTurn, is_started, is_finished}
use kagents.Metrics.Registry.Gauge.{apply_all-live}

-- Two teams start, one of them is reported as finished in two passes.
abbrev calls : List Metric
calls =
    record_team_start "report" "cowork"
    ∷ record_team_start "review" "cowork"
    ∷ record_team_start "report" "cowork"
    ∷ record_token_usage "report" "lead" "opus" 7
    ∷ record_team_failed "report" "cowork"
    ∷ record_team_failed "report" "cowork"
    ∷ []

in_turn : InTurn [] calls
unfolding team_key contains ◌<>◌
in_turn = (tt, (tt, (tt, (tt, (refl, (refl, tt))))))

apply_all_example :
    (teams : List String) × Distinct teams
    × ((key : String)
        → (contains key teams ≡ true)
          ↔ ((is_started key calls ≡ true) × (is_finished key calls ≡ false)))
    × ((apply_all calls (fresh {F = ℕ})).team_active ≡ pos (length teams))
apply_all_example = apply_all-live ℕ calls in_turn

-- A process that was restarted meets a team that finished before.
apply_all_runs :
    ((apply_all calls (fresh {F = ℕ})).team_active ≡ pos 1)
    × ((apply_all (record_team_complete "report" "cowork" 7 ∷ []) (fresh {F = ℕ})).team_active
        ≡ negsuc 0)
unfolding apply_all apply team_key contains ◌<>◌
apply_all_runs = (refl, refl)
