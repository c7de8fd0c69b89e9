-- ===== src/Scientific/Repairs/Effect.antt =====
-- What a repair achieves.
use auditable_scientific_age.Prelude.{
  ℕ, ◌+◌, ◌<◌, String, Bool, true, false, ◌++◌, any, any-append, length, ltb, ◌≡◌, refl, ap, ◌∙◌,
  arith, not, ◌==◌,
}
use auditable_scientific_age.Prelude.Int.{pos}
use auditable_scientific_age.Scientific.Modelspec.{ModelSpec, Model, ArimaSpec, frequency_name}
use auditable_scientific_age.Scientific.Validators.{
  Diagnostic, Code, report_if, frequency_conflict, sample_too_small, model_diagnostics,
  validate_against,
}
use auditable_scientific_age.Scientific.Compiler.{fit_step}
use auditable_scientific_age.Scientific.Executor.{StepResult, execute_plan_step}
use auditable_scientific_age.Scientific.Repairs.{
  BoundedRepairEngine, RepairOutcome, reduced, contracted, reduction_logged, strategy,
  attempt_auto_repair,
}

abbrev pub is_sample_code : Diagnostic → Bool
is_sample_code d = elim d.code [ Code.insufficient_sample ↦ true | _ ↦ false ]

model_diagnostics-not_sample : (m : Model) → any is_sample_code (model_diagnostics m) ≡ false
unfolding model_diagnostics
model_diagnostics-not_sample (Model.seasonal_naive n) = refl
model_diagnostics-not_sample (Model.ets m) = ground arith
model_diagnostics-not_sample (Model.arima m) = ground arith

-- The validator reports an insufficient sample exactly when the rows fall short.
pub validate_against_sample :
    (spec : ModelSpec) (rows : ℕ) (freq : String)
    → any is_sample_code (validate_against spec (rows, freq))
      ≡ ltb rows (spec.backtest.initial_window + spec.backtest.horizon)
unfolding validate_against
validate_against_sample spec rows freq =
    let sample =
      report_if (ltb rows (spec.backtest.initial_window + spec.backtest.horizon))
        (sample_too_small spec rows) in
    ground (
      arith,
      model_diagnostics-not_sample spec.model,
      any-append is_sample_code
          (report_if (not (frequency_name spec.target.frequency == freq))
            (frequency_conflict spec freq))
          (model_diagnostics spec.model ++ sample),
      any-append is_sample_code (model_diagnostics spec.model) sample,
    )

-- The specification with its window contracted to the rows that the diagnostic gives.
abbrev pub with_window : ModelSpec → ℕ → ModelSpec
with_window spec w = record spec { backtest = record spec.backtest { initial_window = w } }

contracted_fits :
    (rows horizon : ℕ)
    → ltb rows (contracted (pos rows) horizon + horizon) ≡ ltb rows (10 + horizon)
contracted_fits rows horizon = ground arith

-- Contracting the window to a dataset of `rows` rows removes the insufficient-sample diagnostic
-- when there are ten rows beside the horizon; with fewer, validation reports it again.
pub contracted_sample :
    (spec : ModelSpec) (rows : ℕ) (freq : String)
    → any is_sample_code (
        validate_against
          (with_window spec (contracted (pos rows) spec.backtest.horizon))
          (rows, freq))
      ≡ ltb rows (10 + spec.backtest.horizon)
contracted_sample spec rows freq =
    validate_against_sample (with_window spec (contracted (pos rows) spec.backtest.horizon)) rows
      freq
    ∙ contracted_fits rows spec.backtest.horizon

-- The specification with its ARIMA orders reduced.
abbrev pub with_orders : ModelSpec → ArimaSpec → ModelSpec
with_orders spec m = record spec {
  model = Model.arima (record { order = reduced m.order; seasonal_order = m.seasonal_order });
}

-- Within the budget, a repairable non-convergence of an ARIMA model is repaired: the new
-- specification differs only in the orders, which are (1, d, 1), and its fitting step converges.
reduced_order_converges :
    (e : BoundedRepairEngine) (now : ℕ) (plan_id : String) (spec : ModelSpec) (m : ArimaSpec)
    (d : Diagnostic)
    → spec.model ≡ Model.arima m
    → d.code ≡ Code.arima_non_convergence
    → d.repairable ≡ true
    → length e.repair_history < e.max_attempts
    → let spec' = with_orders spec m in
      (e' : BoundedRepairEngine) × (attempt_auto_repair e now spec d
        ≡ RepairOutcome.repaired spec' e')
      × (execute_plan_step (fit_step plan_id spec') ≡ StepResult.fitted 115 true)
unfolding attempt_auto_repair execute_plan_step fit_step
reduced_order_converges e now plan_id spec m d fam code can room = (
  reduction_logged e now m,
  unfold strategy in
      ground (
        arith,
        ap (λ c. strategy e now spec d c spec.model) code,
        ap (λ f. strategy e now spec d Code.arima_non_convergence f) fam,
      ),
  refl,
)
