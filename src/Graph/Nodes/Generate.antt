-- ===== src/Graph/Nodes/Generate.antt =====
-- nodes.py: `generate_spec_node`.
use auditable_scientific_age.Prelude.{Bool, Option, none, some, [], ◌∷◌, if◌then◌else◌}
use auditable_scientific_age.Prelude.Int.{pos}
use auditable_scientific_age.Prelude.Text.{Text, codes, lower, contains}
use auditable_scientific_age.Scientific.Modelspec.{ModelSpec, Frequency, Metric}
use auditable_scientific_age.Scientific.Parser.{
  Candidate, CandidateModel, check_transformations, check_model, model_validate,
  wrap_llm_structured_candidate,
}
use auditable_scientific_age.Graph.State.{MacroAgentState, Status, Detail, value_or}
use auditable_scientific_age.Graph.Nodes.Interface.{Update, no_update, current_step, event_at}

-- The payload, by the three keywords that the query may hold.
abbrev pub raw_payload : Bool → Bool → Bool → Candidate
raw_payload high_order short leakage = record {
  spec_version = "1.0";
  target = record {
    dataset_id = if short then "short_series.csv" else "monthly_sales.csv";
    column = "revenue";
    frequency = Frequency.monthly;
  };
  transformations = [];
  model =
      CandidateModel.arima
        (record { p = if high_order then pos 4 else pos 1; d = pos 0; q = pos 4 }) none;
  horizon = pos 6;
  initial_window = pos 60;
  step_size = pos 3;
  metrics = Metric.rmse ∷ [];
  forecast_horizon = pos 6;
  require_human_approval = none;
  rationale =
      if leakage then "Potential future data leakage." else "Compliant analytical rationale.";
}

abbrev generated : MacroAgentState → ModelSpec → Update
generated state spec_candidate = record no_update {
  model_spec = some spec_candidate;
  execution_plan = some none;
  trace_events =
      some (event_at "modelspec_generated" "generate_spec" Detail.plain (current_step state) ∷ []);
  status = some Status.running;
}

-- The part of the node behind the keyword tests.
unfoldable pub generate_from : Bool → Bool → Bool → MacroAgentState → Option Update
unfolding wrap_llm_structured_candidate model_validate check_transformations check_model
generate_from high_order short leakage state =
    elim (wrap_llm_structured_candidate (raw_payload high_order short leakage)) [
      | none ↦ none
      | some spec_candidate ↦ some (generated state spec_candidate)
    ]

-- `query.lower()`
abbrev pub lowered_query : MacroAgentState → Text
lowered_query state = lower (codes (value_or state.user_query "Analyze series"))

unfoldable pub generate_spec_node : MacroAgentState → Option Update
unfolding generate_from lower contains
generate_spec_node state =
    generate_from (contains (codes "high_order") (lowered_query state))
      (contains (codes "short") (lowered_query state))
      (contains (codes "leakage") (lowered_query state)) state
