-- ===== src/Scientific/Validators.antt =====
-- validators.py: the diagnostics, and the domain validator that collects them. The dataset registry
-- maps a dataset to its number of rows and its frequency.
pub mod Acceptable
use auditable_scientific_age.Prelude.{
  ℕ, ◌+◌, String, Bool, true, false, not, ◌&&◌, ◌||◌, Option, none, some, List, [], ◌∷◌, ◌++◌, ltb,
  nat_eq, ◌==◌, if◌then◌else◌,
}
use auditable_scientific_age.Prelude.Int.{ℤ, pos, ◌+ℤ◌, ltb_ℤ, str_ℤ}
use auditable_scientific_age.Prelude.Text.{Text, str, ◌<>◌}
use auditable_scientific_age.Prelude.Dict.{Dict, get}
use auditable_scientific_age.Scientific.Modelspec.{
  ModelSpec, Model, ArimaSpec, Component, frequency_name,
}

pub data Stage : Type 0 where
  domain_validation static_analysis execution : Stage

pub data Severity : Type 0 where
  error warning info : Severity

-- The codes of the failure taxonomy.
pub data Code : Type 0 where
  dataset_not_found frequency_mismatch invalid_seasonal_period schema_validation_failure : Code
  model_complexity_excessive insufficient_sample leakage_detected unauthorized_operation : Code
  backtest_window_invalid arima_non_convergence : Code

-- What the evidence of a diagnostic holds.
pub data Value : Type 0 where
  int : ℤ → Value
  flag : Bool → Value
  string : String → Value
  text : Text → Value
  ints : List ℤ → Value

pub record Diagnostic : Type 0 where
  pub stage : Stage
  pub severity : Severity
  pub code : Code
  pub message : String
  pub repairable : Bool
  pub evidence : Dict Value

abbrev pub Registry : Type 0
Registry = Dict (ℕ × String)

-- `diagnostics.append(d)` under a condition
abbrev pub report_if : Bool → Diagnostic → List Diagnostic
report_if test d = if test then d ∷ [] else []

dataset_missing : String → Diagnostic
dataset_missing dataset_id = record {
  stage = Stage.domain_validation;
  severity = Severity.error;
  code = Code.dataset_not_found;
  message =
      "Dataset missing: '" <> dataset_id <> "' does not exist in the local research repository.";
  repairable = false;
  evidence = ("requested_dataset_id", Value.string dataset_id) ∷ [];
}

pub frequency_conflict : ModelSpec → String → Diagnostic
frequency_conflict spec actual_freq = record {
  stage = Stage.domain_validation;
  severity = Severity.error;
  code = Code.frequency_mismatch;
  message =
      "Frequency mismatch: ModelSpec declares ["
      <> frequency_name spec.target.frequency
      <> "], but the dataset frequency is ["
      <> actual_freq
      <> "].";
  repairable = true;
  evidence =
      ("spec_freq", Value.string (frequency_name spec.target.frequency))
      ∷ ("actual_freq", Value.string actual_freq)
      ∷ [];
}

-- `not seasonal_period`: there is none, or it is 0
abbrev pub is_unset : Option ℕ → Bool
is_unset none = true
is_unset (some n) = nat_eq n 0

abbrev pub is_seasonal : Component → Bool
is_seasonal Component.none = false
is_seasonal Component.additive = true

pub seasonal_period_missing : Diagnostic
seasonal_period_missing = record {
  stage = Stage.domain_validation;
  severity = Severity.error;
  code = Code.invalid_seasonal_period;
  message =
      "Invalid ETS configuration: seasonal_period is required when a seasonal component is enabled.";
  repairable = true;
  evidence = ("family", Value.string "ets") ∷ ("seasonal", Value.string "additive") ∷ [];
}

abbrev pub zero_ℤ : ℤ
zero_ℤ = pos 0

-- some order is negative
abbrev pub has_negative_order : ArimaSpec → Bool
has_negative_order m = ltb_ℤ m.order.p zero_ℤ || ltb_ℤ m.order.d zero_ℤ || ltb_ℤ m.order.q zero_ℤ

negative_order : ArimaSpec → Diagnostic
negative_order m = record {
  stage = Stage.domain_validation;
  severity = Severity.error;
  code = Code.schema_validation_failure;
  message = "Invalid ARIMA parameters: (p, d, q) orders cannot be negative.";
  repairable = true;
  evidence = ("order", Value.ints (m.order.p ∷ m.order.d ∷ m.order.q ∷ [])) ∷ [];
}

excessive_complexity : ArimaSpec → Diagnostic
excessive_complexity m = record {
  stage = Stage.domain_validation;
  severity = Severity.warning;
  code = Code.model_complexity_excessive;
  message =
      "Excessive model complexity: non-seasonal order "
      <> str_ℤ (m.order.p +ℤ m.order.q)
      <> " risks non-convergence or overfitting.";
  repairable = true;
  evidence = ("param_complexity", Value.int (m.order.p +ℤ m.order.q)) ∷ [];
}

-- Checks 3 and 4, by the family of the model.
unfoldable pub model_diagnostics : Model → List Diagnostic
unfolding seasonal_period_missing negative_order excessive_complexity
model_diagnostics (Model.ets m) =
    report_if (is_seasonal m.seasonal && is_unset m.seasonal_period) seasonal_period_missing
model_diagnostics (Model.arima m) =
    report_if (has_negative_order m) (negative_order m)
    ++ report_if (ltb_ℤ (pos 12) (m.order.p +ℤ m.order.q)) (excessive_complexity m)
model_diagnostics (Model.seasonal_naive _) = []

pub sample_too_small : ModelSpec → ℕ → Diagnostic
sample_too_small spec actual_rows = record {
  stage = Stage.domain_validation;
  severity = Severity.error;
  code = Code.insufficient_sample;
  message =
      "Insufficient sample: "
      <> str actual_rows
      <> " rows are available, but initial window "
      <> str spec.backtest.initial_window
      <> " plus horizon "
      <> str spec.backtest.horizon
      <> " requires at least "
      <> str (spec.backtest.initial_window + spec.backtest.horizon)
      <> " rows.";
  repairable = true;
  evidence =
      ("actual_rows", Value.int (pos actual_rows))
      ∷ ("required_rows", Value.int (pos (spec.backtest.initial_window + spec.backtest.horizon)))
      ∷ [];
}

-- The checks that need the dataset's entry.
unfoldable pub validate_against : ModelSpec → ℕ × String → List Diagnostic
unfolding frequency_conflict sample_too_small
validate_against spec (actual_rows, actual_freq) =
    report_if (not (frequency_name spec.target.frequency == actual_freq))
      (frequency_conflict spec actual_freq)
    ++ (model_diagnostics spec.model
        ++ report_if (ltb actual_rows (spec.backtest.initial_window + spec.backtest.horizon))
            (sample_too_small spec actual_rows))

unfoldable pub validate_spec : ModelSpec → Registry → List Diagnostic
unfolding dataset_missing
validate_spec spec registry = elim (get spec.target.dataset_id registry) [
  | none ↦ dataset_missing spec.target.dataset_id ∷ []
  | some entry ↦ validate_against spec entry
]
