-- ===== src/Graph/Boundary.antt =====
-- The safety boundaries of a specification, and the diagnostics that report them.
use auditable_scientific_age.Prelude.{
  ℕ, ◌+◌, String, Bool, true, false, not, ◌||◌, Option, none, some, ◌++◌, any, any-append, ◌≡◌,
  refl, inl, inr, Option-cases, arith, ltb, ◌==◌, if◌then◌else◌,
}
use auditable_scientific_age.Prelude.Int.{ℤ}
use auditable_scientific_age.Prelude.Text.{codes, lower, contains}
use auditable_scientific_age.Prelude.Dict.{get}
use auditable_scientific_age.Scientific.Modelspec.{ModelSpec, Model, SeriesRef, frequency_name}
use auditable_scientific_age.Scientific.Validators.{
  Diagnostic, Code, model_diagnostics, validate_against, validate_spec, report_if,
  frequency_conflict, sample_too_small,
}
use auditable_scientific_age.Scientific.StaticAnalysis.{
  mentions_leak, has_unsafe_path, analyze_spec,
}
use auditable_scientific_age.Scientific.Repairs.{
  BoundedRepairEngine, RepairOutcome, contract_window, strategy, attempt_auto_repair,
  current_attempt,
}
use auditable_scientific_age.Graph.Nodes.{local_data_registry, all_diagnostics, is_blocking}

-- The dataset is unknown.
abbrev pub is_missing : ModelSpec → Bool
is_missing spec = elim (get spec.target.dataset_id local_data_registry) [
  | none ↦ true
  | some _ ↦ false
]

-- The boundaries: an unknown dataset, talk of a leak or the test set, and an unsafe path.
abbrev pub crosses_boundary : ModelSpec → Bool
crosses_boundary spec = is_missing spec || mentions_leak spec || has_unsafe_path spec

model_diagnostics-not_blocking : (m : Model) → any is_blocking (model_diagnostics m) ≡ false
unfolding model_diagnostics
model_diagnostics-not_blocking (Model.seasonal_naive n) = refl
model_diagnostics-not_blocking (Model.ets m) = ground arith
model_diagnostics-not_blocking (Model.arima m) = ground arith

validate_against-not_blocking :
    (spec : ModelSpec) (entry : ℕ × String) → any is_blocking (validate_against spec entry) ≡ false
unfolding validate_against
validate_against-not_blocking spec (rows, freq) = ground (
  arith,
  model_diagnostics-not_blocking spec.model,
  any-append is_blocking
      (report_if (not (frequency_name spec.target.frequency == freq))
        (frequency_conflict spec freq))
      (model_diagnostics spec.model
        ++ report_if (ltb rows (spec.backtest.initial_window + spec.backtest.horizon))
            (sample_too_small spec rows)),
  any-append is_blocking (model_diagnostics spec.model) (
      report_if (ltb rows (spec.backtest.initial_window + spec.backtest.horizon))
        (sample_too_small spec rows)),
)

analyze_spec-is_blocking :
    (spec : ModelSpec)
    → any is_blocking (analyze_spec spec) ≡ (mentions_leak spec || has_unsafe_path spec)
unfolding analyze_spec
analyze_spec-is_blocking spec = ground arith

-- The diagnostics hold a blocking error exactly when a boundary is crossed.
pub all_diagnostics-is_blocking :
    (spec : ModelSpec) → any is_blocking (all_diagnostics spec) ≡ crosses_boundary spec
unfolding all_diagnostics validate_spec
all_diagnostics-is_blocking spec =
    elim (Option-cases (get spec.target.dataset_id local_data_registry)) [
      | inl missing ↦ ground (
        arith,
        any-append is_blocking (validate_spec spec local_data_registry) (analyze_spec spec),
        analyze_spec-is_blocking spec,
        missing,
      )
      | inr (entry, found) ↦ ground (
        arith,
        any-append is_blocking (validate_spec spec local_data_registry) (analyze_spec spec),
        analyze_spec-is_blocking spec,
        validate_against-not_blocking spec entry,
        found,
      )
    ]

-- What a repair keeps: it touches neither the dataset nor the rationale.
abbrev pub SameBoundary : ModelSpec → RepairOutcome → Type 0
SameBoundary spec (RepairOutcome.repaired spec' e) =
    (spec'.target ≡ spec.target) × (spec'.rationale ≡ spec.rationale)
SameBoundary spec RepairOutcome.refused = Unit {0}
SameBoundary spec RepairOutcome.type_error = Unit {0}

contract_window-SameBoundary :
    (e : BoundedRepairEngine) (now : ℕ) (spec : ModelSpec) (rows : Option ℤ)
    → SameBoundary spec (contract_window e now spec rows)
unfolding contract_window
contract_window-SameBoundary e now spec none = tt
contract_window-SameBoundary e now spec (some rows) = (refl, refl)

strategy-SameBoundary :
    (e : BoundedRepairEngine) (now : ℕ) (spec : ModelSpec) (d : Diagnostic) (c : Code) (m : Model)
    → SameBoundary spec (strategy e now spec d c m)
unfolding strategy
strategy-SameBoundary e now spec d Code.arima_non_convergence (Model.arima m) = (refl, refl)
strategy-SameBoundary e now spec d Code.insufficient_sample m =
    contract_window-SameBoundary e now spec _
strategy-SameBoundary e now spec d c m = tt

guarded-SameBoundary :
    (spec : ModelSpec) (exhausted repairable : Bool) (o : RepairOutcome)
    → SameBoundary spec o
    → SameBoundary spec (
        if exhausted
        then RepairOutcome.refused
        else if repairable
        then o
        else RepairOutcome.refused)
guarded-SameBoundary spec true repairable o h = tt
guarded-SameBoundary spec false true o h = h
guarded-SameBoundary spec false false o h = tt

pub attempt_auto_repair-SameBoundary :
    (e : BoundedRepairEngine) (now : ℕ) (spec : ModelSpec) (d : Diagnostic)
    → SameBoundary spec (attempt_auto_repair e now spec d)
unfolding attempt_auto_repair
attempt_auto_repair-SameBoundary e now spec d =
    guarded-SameBoundary spec (ltb e.max_attempts (current_attempt e)) d.repairable
      (strategy e now spec d d.code spec.model)
      (strategy-SameBoundary e now spec d d.code spec.model)

pub crosses_boundary-cong :
    (spec spec' : ModelSpec)
    → spec'.target ≡ spec.target
    → spec'.rationale ≡ spec.rationale
    → crosses_boundary spec' ≡ crosses_boundary spec
unfolding mentions_leak has_unsafe_path
crosses_boundary-cong spec spec' t r i = is_missing_at (t i) || leak_at (r i) || path_at (t i)
  where
    is_missing_at : SeriesRef → Bool
    is_missing_at x = elim (get x.dataset_id local_data_registry) [ none ↦ true | some _ ↦ false ]

    leak_at : String → Bool
    leak_at x =
        contains (codes "leak") (lower (codes x)) || contains (codes "test_set") (lower (codes x))

    path_at : SeriesRef → Bool
    path_at x =
        contains (codes "../") (lower (codes x.dataset_id))
        || contains (codes "/etc/") (lower (codes x.dataset_id))
