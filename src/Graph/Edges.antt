-- ===== src/Graph/Edges.antt =====
-- edges.py: the routes behind validation and behind execution.
use auditable_scientific_age.Prelude.{Bool, true, false, none, some, last?}
use auditable_scientific_age.Scientific.Validators.{Severity}
use auditable_scientific_age.Graph.State.{MacroAgentState, list_of}

pub data Route : Type 0 where
  repair_spec compile_and_execute finalize_report : Route

abbrev route_for : Severity → Bool → Route
route_for Severity.error false = Route.finalize_report
route_for Severity.error true = Route.repair_spec
route_for _ _ = Route.compile_and_execute

unfoldable pub decide_next_scientific_action : MacroAgentState → Route
decide_next_scientific_action state = elim (last? (list_of state.diagnostics)) [
  | none ↦ Route.compile_and_execute
  | some latest_diag ↦ route_for latest_diag.severity latest_diag.repairable
]

abbrev route_after : Severity → Route
route_after Severity.error = Route.repair_spec
route_after _ = Route.finalize_report

unfoldable pub decide_after_execution : MacroAgentState → Route
decide_after_execution state = elim (last? (list_of state.diagnostics)) [
  | none ↦ Route.finalize_report
  | some latest_diag ↦ route_after latest_diag.severity
]
