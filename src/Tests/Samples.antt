-- ===== src/Tests/Samples.antt =====
-- The inputs that the tests share.
use auditable_scientific_age.Prelude.{ℕ, String, true, false, Option, none, some, [], ◌∷◌}
use auditable_scientific_age.Prelude.Int.{pos}
use auditable_scientific_age.Scientific.Modelspec.{ModelSpec, Model, Frequency, Metric, ArimaSpec}
use auditable_scientific_age.Scientific.Validators.{Diagnostic, Severity, Stage, Code}
use auditable_scientific_age.Scientific.Repairs.{Changes, RepairProposal, BoundedRepairEngine}
use auditable_scientific_age.Graph.State.{MacroAgentState}
use auditable_scientific_age.Graph.Nodes.{Environment}
use auditable_scientific_age.Graph.Builder.{new_thread, with_input}

abbrev pub high_order_arima : ArimaSpec
high_order_arima = record {
  order = record { p = pos 4; d = pos 0; q = pos 4 };
  seasonal_order = none;
}

-- A specification over a dataset, with a rationale and a model.
abbrev pub sample : String → String → Model → ModelSpec
sample dataset_id rationale model = record {
  spec_version = "1.0";
  target = record { dataset_id = dataset_id; column = "revenue"; frequency = Frequency.monthly };
  transformations = [];
  model = model;
  backtest = record { horizon = 6; initial_window = 60; step_size = 3; metrics = Metric.rmse ∷ [] };
  forecast_horizon = 6;
  require_human_approval = false;
  rationale = rationale;
}

abbrev pub leaking : ModelSpec
leaking = sample "monthly_sales.csv" "uses leakage" (Model.arima high_order_arima)

abbrev pub seasonal : ModelSpec
seasonal = sample "monthly_sales.csv" "compliant" (Model.seasonal_naive 12)

abbrev pub compliant : ModelSpec
compliant = sample "monthly_sales.csv" "compliant" (Model.arima high_order_arima)

-- A dataset of fifteen rows.
abbrev pub small : ModelSpec
small = sample "short_series.csv" "compliant" (Model.arima high_order_arima)

-- A forecast over half of the window.
abbrev pub outreaching : ModelSpec
outreaching = record leaking { forecast_horizon = 50 }

abbrev pub with_spec : ModelSpec → MacroAgentState
with_spec spec = record (with_input new_thread "t1" "r1" "query") { model_spec = some spec }

abbrev pub environments : ℕ → Environment
environments k = record { plan_hex = "0a1b2c3d"; now = k }

abbrev pub engine : BoundedRepairEngine
engine = record { max_attempts = 2; repair_history = [] }

abbrev pub non_convergence : Diagnostic
non_convergence = record {
  stage = Stage.execution;
  severity = Severity.error;
  code = Code.arima_non_convergence;
  message = "did not converge";
  repairable = true;
  evidence = [];
}

abbrev pub proposal : RepairProposal
proposal = record {
  repair_id = "repair_1";
  diagnostic_code = Code.insufficient_sample;
  proposed_changes = Changes.window_change 60 10;
  rationale = "contract the window";
  attempt_number = 1;
  timestamp = 0;
}

-- The audit trail is as long as the budget.
abbrev pub spent_engine : BoundedRepairEngine
spent_engine = record engine { repair_history = proposal ∷ proposal ∷ [] }

-- `o.value`, or a default.
abbrev pub from {ℓ} : {A : Type ℓ} → A → Option A → A
from default none = default
from default (some a) = a
