-- ===== src/Scientific/Executor.antt =====
-- executor.py: the allowlist of operations, the simulated ARIMA fit, and the dispatch of one step.
pub mod Allowlist
use auditable_scientific_age.Prelude.{ℕ, String, Bool, true, List, [], ◌∷◌, ◌==◌, if◌then◌else◌}
use auditable_scientific_age.Prelude.Int.{pos, ◌+ℤ◌, ltb_ℤ}
use auditable_scientific_age.Prelude.Text.{◌<>◌}
use auditable_scientific_age.Prelude.Dict.{is_in}
use auditable_scientific_age.Scientific.Modelspec.{Model, Order}
use auditable_scientific_age.Scientific.Validators.{Code}
use auditable_scientific_age.Scientific.Compiler.{ExecutionStep, Parameters}

-- The result dicts, each with what it holds beside its status. `rmse` is in hundredths.
pub data StepResult : Type 0 where
  loaded : (rows : ℕ) → StepResult
  transformed : (stationarity : String) → StepResult
  fitted : (rmse : ℕ) (converged : Bool) → StepResult
  forecasted : (horizon_aligned : Bool) → StepResult
  numerical_failure : (error_code : Code) (detail : String) → StepResult
  fatal : (error_code : Code) (detail : String) → StepResult

pub data Status : Type 0 where
  success numerical_failure fatal : Status

abbrev pub status : StepResult → Status
status (StepResult.numerical_failure _ _) = Status.numerical_failure
status (StepResult.fatal _ _) = Status.fatal
status _ = Status.success

unfoldable pub registry : List String
registry = "load_dataset" ∷ "apply_transformations" ∷ "fit_arima" ∷ "generate_forecast" ∷ []

-- `params.get("model_spec", {}).get("order", (0, 0, 0))`
abbrev pub order_of : Parameters → Order
order_of (Parameters.fit (Model.arima m) _) = m.order
order_of _ = record { p = pos 0; d = pos 0; q = pos 0 }

unfoldable pub execute_fit_arima : Parameters → StepResult
execute_fit_arima params =
    let order = order_of params in
    if ltb_ℤ (pos 5) (order.p +ℤ order.q)
    then StepResult.numerical_failure Code.arima_non_convergence
        "Numerical failure: initial MA coefficients are non-invertible or non-stationary, and ARIMA maximum-likelihood estimation did not converge."
    else StepResult.fitted 115 true

-- `self.registry[op](step.parameters)`, for an operation that is registered
unfoldable pub handler : String → Parameters → StepResult
unfolding execute_fit_arima
handler op params =
    if op == "load_dataset"
    then StepResult.loaded 120
    else if op == "apply_transformations"
    then StepResult.transformed "PASSED"
    else if op == "fit_arima"
    then execute_fit_arima params
    else StepResult.forecasted true

unfoldable pub execute_plan_step : ExecutionStep → StepResult
unfolding registry handler
execute_plan_step step =
    if is_in step.operation registry
    then handler step.operation step.parameters
    else StepResult.fatal Code.unauthorized_operation
        ("Kernel gate blocked unapproved operation [" <> step.operation <> "].")
