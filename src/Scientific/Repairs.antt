-- ===== src/Scientific/Repairs.antt =====
-- repairs.py: the repair engine with its budget and its audit trail. The clock is an argument.
pub mod Budget
pub mod Effect
use auditable_scientific_age.Prelude.{
  ℕ, ◌+◌, ◌-◌, max, String, true, false, Option, none, some, List, [], ◌∷◌, ◌++◌, length, ltb,
  if◌then◌else◌,
}
use auditable_scientific_age.Prelude.Int.{ℤ, pos, pos_part}
use auditable_scientific_age.Prelude.Text.{str, ◌<>◌}
use auditable_scientific_age.Prelude.Dict.{get}
use auditable_scientific_age.Scientific.Modelspec.{ModelSpec, Model, ArimaSpec, Order}
use auditable_scientific_age.Scientific.Validators.{Diagnostic, Code, Value}

-- What a repair changed, before and after.
pub data Changes : Type 0 where
  order_change : Order → Order → Changes
  window_change : ℕ → ℕ → Changes

pub record RepairProposal : Type 0 where
  pub repair_id : String
  pub diagnostic_code : Code
  pub proposed_changes : Changes
  pub rationale : String
  pub attempt_number : ℕ
  pub timestamp : ℕ

pub record BoundedRepairEngine : Type 0 where
  pub max_attempts : ℕ
  pub repair_history : List RepairProposal

-- A repair that succeeds returns the specification, and the engine with one more entry; a refusal is
-- `None`; evidence that is no number raises a TypeError.
pub data RepairOutcome : Type 0 where
  repaired : ModelSpec → BoundedRepairEngine → RepairOutcome
  refused : RepairOutcome
  type_error : RepairOutcome

abbrev append_proposal : BoundedRepairEngine → RepairProposal → BoundedRepairEngine
append_proposal engine proposal = record engine {
  repair_history = engine.repair_history ++ proposal ∷ [];
}

abbrev pub current_attempt : BoundedRepairEngine → ℕ
current_attempt engine = length engine.repair_history + 1

-- (1, d, 1)
abbrev pub reduced : Order → Order
reduced order = record order { p = pos 1; q = pos 1 }

unfoldable pub reduction_logged : BoundedRepairEngine → ℕ → ArimaSpec → BoundedRepairEngine
reduction_logged engine now m = append_proposal engine (record {
  repair_id = "rep_arima_non_convergence_" <> str (current_attempt engine);
  diagnostic_code = Code.arima_non_convergence;
  proposed_changes = Changes.order_change m.order (reduced m.order);
  rationale =
      "Non-convergence repair: the high-order autoregressive parameter matrix is not invertible, so the system reduced model order.";
  attempt_number = current_attempt engine;
  timestamp = now;
})

unfoldable pub reduce_order : BoundedRepairEngine → ℕ → ModelSpec → ArimaSpec → RepairOutcome
unfolding reduction_logged
reduce_order engine now spec m =
    RepairOutcome.repaired
      (record spec {
        model = Model.arima (record { order = reduced m.order; seasonal_order = m.seasonal_order });
      })
      (reduction_logged engine now m)

-- `diagnostic.evidence.get("actual_rows", 20)`, as a number; a bool counts as 0 or 1
abbrev pub rows_of : Option Value → Option ℤ
rows_of none = some (pos 20)
rows_of (some (Value.int z)) = some z
rows_of (some (Value.flag true)) = some (pos 1)
rows_of (some (Value.flag false)) = some (pos 0)
rows_of (some _) = none

-- `max(10, actual_rows - horizon - 2)`: below 0 the difference is below 10 too, so truncation at 0
-- and reading negative rows as 0 change nothing
abbrev pub contracted : ℤ → ℕ → ℕ
contracted actual_rows horizon = max 10 (pos_part actual_rows - horizon - 2)

unfoldable pub contract_window : BoundedRepairEngine → ℕ → ModelSpec → Option ℤ → RepairOutcome
contract_window engine now spec none = RepairOutcome.type_error
contract_window engine now spec (some actual_rows) =
    let new_window = contracted actual_rows spec.backtest.horizon in
    RepairOutcome.repaired
      (record spec { backtest = record spec.backtest { initial_window = new_window } })
      (append_proposal engine (record {
        repair_id = "rep_sample_" <> str (current_attempt engine);
        diagnostic_code = Code.insufficient_sample;
        proposed_changes = Changes.window_change spec.backtest.initial_window new_window;
        rationale =
            "Insufficient-sample repair: the system contracted the initial rolling-backtest window to fit the available history.";
        attempt_number = current_attempt engine;
        timestamp = now;
      }))

-- The choice of a strategy, by the code of the diagnostic and the family of the model.
unfoldable pub strategy :
    BoundedRepairEngine → ℕ → ModelSpec → Diagnostic → Code → Model → RepairOutcome
unfolding reduce_order contract_window
strategy engine now spec diagnostic Code.arima_non_convergence (Model.arima m) =
    reduce_order engine now spec m
strategy engine now spec diagnostic Code.insufficient_sample model =
    contract_window engine now spec (rows_of (get "actual_rows" diagnostic.evidence))
strategy engine now spec diagnostic code model = RepairOutcome.refused

unfoldable pub attempt_auto_repair :
    BoundedRepairEngine → ℕ → ModelSpec → Diagnostic → RepairOutcome
unfolding strategy
attempt_auto_repair engine now spec diagnostic =
    if ltb engine.max_attempts (current_attempt engine)
    then RepairOutcome.refused
    else if diagnostic.repairable
    then strategy engine now spec diagnostic diagnostic.code spec.model
    else RepairOutcome.refused
