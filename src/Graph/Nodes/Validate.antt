-- ===== src/Graph/Nodes/Validate.antt =====
-- nodes.py: `validate_spec_node`.
use auditable_scientific_age.Prelude.{Option, none, some, List, [], ◌∷◌, ◌++◌, length}
use auditable_scientific_age.Scientific.Modelspec.{ModelSpec}
use auditable_scientific_age.Scientific.Validators.{Diagnostic, validate_spec}
use auditable_scientific_age.Scientific.StaticAnalysis.{analyze_spec}
use auditable_scientific_age.Graph.State.{MacroAgentState, Detail}
use auditable_scientific_age.Graph.Nodes.Interface.{
  Update, no_update, local_data_registry, current_step, event_at,
}

-- The findings of both analyses, in the order in which the state keeps them.
unfoldable pub all_diagnostics : ModelSpec → List Diagnostic
all_diagnostics spec = validate_spec spec local_data_registry ++ analyze_spec spec

unfoldable pub validated : MacroAgentState → ModelSpec → Update
validated state spec = record no_update {
  diagnostics = some (all_diagnostics spec);
  trace_events = some (
      event_at "spec_validation_completed" "validate_spec"
        (Detail.errors_found (length (all_diagnostics spec))) (current_step state)
      ∷ []);
}

-- The node, at the state's specification.
unfoldable pub validate_with : MacroAgentState → Option ModelSpec → Option Update
unfolding validated
validate_with state none = none
validate_with state (some spec) = some (validated state spec)

unfoldable pub validate_spec_node : MacroAgentState → Option Update
unfolding validate_with
validate_spec_node state = validate_with state state.model_spec
