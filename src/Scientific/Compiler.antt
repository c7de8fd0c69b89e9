-- ===== src/Scientific/Compiler.antt =====
-- compiler.py. The random part of the plan's id is an argument.
pub mod Dependencies
use auditable_scientific_age.Prelude.{ℕ, String, Bool, List, [], ◌∷◌, map}
use auditable_scientific_age.Prelude.Text.{prefix, ◌<>◌}
use auditable_scientific_age.Scientific.Modelspec.{
  ModelSpec, Model, BacktestSpec, TransformationSpec, family,
}

-- The dict of parameters, by the keys that it holds.
pub data Parameters : Type 0 where
  load : String → String → Parameters
  transform : List TransformationSpec → Parameters
  fit : Model → BacktestSpec → Parameters
  forecast : ℕ → Parameters

pub record ExecutionStep : Type 0 where
  pub step_id : String
  pub operation : String
  pub parameters : Parameters
  pub depends_on : List String
  pub timeout_seconds : ℕ
  pub idempotency_key : String
  pub expected_artifact_output : String

pub record ExecutionPlan : Type 0 where
  pub plan_id : String
  pub spec_version : String
  pub steps : List ExecutionStep
  pub artifact_outputs : List String
  pub requires_human_approval : Bool

abbrev pub load_id : ModelSpec → String
load_id spec = "step_1_load_" <> prefix 6 spec.target.dataset_id

abbrev pub fit_id : ModelSpec → String
fit_id spec = "step_3_fit_" <> family spec.model

unfoldable pub load_step : String → ModelSpec → ExecutionStep
load_step plan_id spec = record {
  step_id = load_id spec;
  operation = "load_dataset";
  parameters = Parameters.load spec.target.dataset_id spec.target.column;
  depends_on = [];
  timeout_seconds = 20;
  idempotency_key = "idem_" <> plan_id <> "_load";
  expected_artifact_output = "artifacts/" <> plan_id <> "/raw_series.pkl";
}

unfoldable pub transform_step : String → ModelSpec → ExecutionStep
transform_step plan_id spec = record {
  step_id = "step_2_transform";
  operation = "apply_transformations";
  parameters = Parameters.transform spec.transformations;
  depends_on = load_id spec ∷ [];
  timeout_seconds = 20;
  idempotency_key = "idem_" <> plan_id <> "_trans";
  expected_artifact_output = "artifacts/" <> plan_id <> "/stationary_series.pkl";
}

unfoldable pub fit_step : String → ModelSpec → ExecutionStep
fit_step plan_id spec = record {
  step_id = fit_id spec;
  operation = "fit_" <> family spec.model;
  parameters = Parameters.fit spec.model spec.backtest;
  depends_on = "step_2_transform" ∷ [];
  timeout_seconds = 20;
  idempotency_key = "idem_" <> plan_id <> "_fit";
  expected_artifact_output = "artifacts/" <> plan_id <> "/fitted_metrics.json";
}

unfoldable pub forecast_step : String → ModelSpec → ExecutionStep
forecast_step plan_id spec = record {
  step_id = "step_4_forecast";
  operation = "generate_forecast";
  parameters = Parameters.forecast spec.forecast_horizon;
  depends_on = fit_id spec ∷ [];
  timeout_seconds = 20;
  idempotency_key = "idem_" <> plan_id <> "_fore";
  expected_artifact_output = "artifacts/" <> plan_id <> "/forecast_report.csv";
}

unfoldable pub compile_plan : String → ModelSpec → ExecutionPlan
unfolding load_step transform_step fit_step forecast_step
compile_plan hex spec =
    let plan_id = "plan_" <> hex in
    let steps : List ExecutionStep =
      load_step plan_id spec
      ∷ transform_step plan_id spec
      ∷ fit_step plan_id spec
      ∷ forecast_step plan_id spec
      ∷ [] in
    record {
      plan_id = plan_id;
      spec_version = spec.spec_version;
      steps = steps;
      artifact_outputs = map (λ s. s.expected_artifact_output) steps;
      requires_human_approval = spec.require_human_approval;
    }
