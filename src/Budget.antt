-- ===== src/Budget.antt =====
-- internal/budget/tracker.go. The numbers of type float64 and their operations are the parameter
-- `Float`; a test that must hold of them is a named hypothesis of the theorem that needs it. The
-- int64 products stay below 2 ^ 63 for any session shorter than five million years.
use kagents.Prelude.{ℕ, ◌*◌, ◌/◌, String, Bool, false, Option, ◌==◌, eqb, if◌then◌else◌}

-- float64: conversions, arithmetic, comparisons, the verb %f of fmt.Sscanf, and %.2f of fmt.Sprintf.
pub record Float : Type 1 where
  pub F : Type 0
  pub of_int : ℕ → F
  pub add : F → F → F
  pub sub : F → F → F
  pub mul : F → F → F
  pub div : F → F → F
  pub le : F → F → Bool
  pub lt : F → F → Bool
  pub scan : String → Option F
  pub show_cents : F → String

abbrev pub input_tokens_per_minute : ℕ
input_tokens_per_minute = 50_000

abbrev pub output_tokens_per_minute : ℕ
output_tokens_per_minute = 5_000

abbrev pub total_tokens_per_minute : ℕ
total_tokens_per_minute = 55_000

-- A duration that is not positive is 0.
unfoldable pub estimate_tokens : String → ℕ → ℕ
estimate_tokens model duration_seconds =
    if eqb duration_seconds 0 then 0 else total_tokens_per_minute * duration_seconds / 60

module _ (float : Float) where
  open float use {F, of_int, add, mul, div, le, lt}

  pub record CostRate : Type 0 where
    pub input_per_million : F
    pub output_per_million : F

  unfoldable pub rate_for : String → CostRate
  rate_for model =
      if model == "opus"
      then record { input_per_million = of_int 5; output_per_million = of_int 25 }
      else record { input_per_million = of_int 3; output_per_million = of_int 15 }

  unfoldable pub estimate_cost : String → ℕ → ℕ → F
  estimate_cost model input_tokens output_tokens =
      let r = rate_for model in
      add (mul (div (of_int input_tokens) (of_int 1_000_000)) r.input_per_million)
        (mul (div (of_int output_tokens) (of_int 1_000_000)) r.output_per_million)

  pub record Tracker : Type 0 where
    pub budget_limit : F
    pub total_cost : F

  unfoldable pub new_tracker : F → Tracker
  new_tracker limit = record { budget_limit = limit; total_cost = of_int 0 }

  unfoldable pub record_session : String → ℕ → Tracker → Tracker
  record_session model duration_seconds t = if eqb duration_seconds 0 then t else record t {
    total_cost = add t.total_cost (
        estimate_cost model (input_tokens_per_minute * duration_seconds / 60)
          (output_tokens_per_minute * duration_seconds / 60));
  }

  unfoldable pub is_over_budget : Tracker → Bool
  is_over_budget t = if le t.budget_limit (of_int 0) then false else le t.budget_limit t.total_cost
