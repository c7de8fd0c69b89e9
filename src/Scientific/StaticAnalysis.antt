-- ===== src/Scientific/StaticAnalysis.antt =====
-- static_analysis.py: the scan for leakage, unsafe paths and a forecast that outreaches its window.
use auditable_scientific_age.Prelude.{◌*◌, Bool, true, false, ◌&&◌, ◌||◌, List, [], ◌∷◌, ◌++◌, ltb}
use auditable_scientific_age.Prelude.Int.{pos}
use auditable_scientific_age.Prelude.Text.{codes, lower, contains}
use auditable_scientific_age.Scientific.Modelspec.{ModelSpec, Model}
use auditable_scientific_age.Scientific.Validators.{
  Diagnostic, Stage, Severity, Code, Value, report_if,
}

pub leakage : Diagnostic
leakage = record {
  stage = Stage.static_analysis;
  severity = Severity.error;
  code = Code.leakage_detected;
  message =
      "Fatal safety violation: static analysis detected possible future-information leakage between training and test boundaries.";
  repairable = false;
  evidence = ("rationale_leak_flag", Value.flag true) ∷ [];
}

pub unsafe_path : ModelSpec → Diagnostic
unsafe_path spec = record {
  stage = Stage.static_analysis;
  severity = Severity.error;
  code = Code.unauthorized_operation;
  message =
      "Unauthorized operation: the dataset path contains a possible path-traversal injection.";
  repairable = false;
  evidence = ("path_injection_attempt", Value.text (lower (codes spec.target.dataset_id))) ∷ [];
}

unfoldable pub short_window : ModelSpec → Diagnostic
short_window spec = record {
  stage = Stage.static_analysis;
  severity = Severity.warning;
  code = Code.backtest_window_invalid;
  message =
      "Research-quality warning: the forecast horizon is too large relative to the initial training window and may cause unstable variance.";
  repairable = true;
  evidence =
      ("horizon", Value.int (pos spec.forecast_horizon))
      ∷ ("initial_window", Value.int (pos spec.backtest.initial_window))
      ∷ [];
}

abbrev pub is_arima : Model → Bool
is_arima (Model.arima _) = true
is_arima _ = false

-- The rationale speaks of a leak or of the test set.
unfoldable pub mentions_leak : ModelSpec → Bool
mentions_leak spec =
    let rationale_lower = lower (codes spec.rationale) in
    contains (codes "leak") rationale_lower || contains (codes "test_set") rationale_lower

unfoldable pub has_unsafe_path : ModelSpec → Bool
has_unsafe_path spec =
    let dataset_id = lower (codes spec.target.dataset_id) in
    contains (codes "../") dataset_id || contains (codes "/etc/") dataset_id

-- `forecast_horizon > initial_window * 0.5`, with both sides doubled
abbrev pub outreaches_window : ModelSpec → Bool
outreaches_window spec =
    is_arima spec.model && ltb spec.backtest.initial_window (spec.forecast_horizon * 2)

unfoldable pub analyze_spec : ModelSpec → List Diagnostic
unfolding leakage unsafe_path short_window
analyze_spec spec =
    report_if (mentions_leak spec) leakage
    ++ (report_if (has_unsafe_path spec) (unsafe_path spec)
        ++ report_if (outreaches_window spec) (short_window spec))
