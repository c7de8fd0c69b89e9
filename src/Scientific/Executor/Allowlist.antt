-- ===== src/Scientific/Executor/Allowlist.antt =====
-- The executor runs exactly the operations of its allowlist.
use auditable_scientific_age.Prelude.{String, false, ◌≡◌, ◌≢◌, ◌↔◌, arith}
use auditable_scientific_age.Prelude.Dict.{is_in}
use auditable_scientific_age.Scientific.Compiler.{ExecutionStep, Parameters}
use auditable_scientific_age.Scientific.Executor.{
  Status, status, registry, execute_fit_arima, handler, execute_plan_step,
}

execute_fit_arima-not_fatal : (p : Parameters) → status (execute_fit_arima p) ≢ Status.fatal
unfolding execute_fit_arima
execute_fit_arima-not_fatal p = ground arith

handler-not_fatal : (op : String) (p : Parameters) → status (handler op p) ≢ Status.fatal
unfolding handler
handler-not_fatal op p = ground (arith, execute_fit_arima-not_fatal p)

-- A step is refused as fatal exactly when its operation is not on the allowlist.
execute_plan_step_fatal_iff :
    (step : ExecutionStep)
    → (status (execute_plan_step step) ≡ Status.fatal) ↔ (is_in step.operation registry ≡ false)
unfolding execute_plan_step
execute_plan_step_fatal_iff step =
    ((λ h. ground (arith, handler-not_fatal step.operation step.parameters)), (λ h. rw h))
