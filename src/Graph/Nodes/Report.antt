-- ===== src/Graph/Nodes/Report.antt =====
-- nodes.py: `finalize_report_node`.
use auditable_scientific_age.Prelude.{
  String, Bool, true, false, not, ◌&&◌, ◌||◌, Option, none, some, List, [], ◌∷◌, any, last?, length,
  if◌then◌else◌,
}
use auditable_scientific_age.Prelude.Text.{str, ◌<>◌}
use auditable_scientific_age.Scientific.Validators.{Diagnostic, Severity}
use auditable_scientific_age.Scientific.Compiler.{ExecutionPlan}
use auditable_scientific_age.Scientific.Repairs.{RepairProposal}
use auditable_scientific_age.Graph.State.{MacroAgentState, Status, Detail, list_of, value_or}
use auditable_scientific_age.Graph.Nodes.Interface.{Update, no_update, current_step, event_at}

abbrev pub is_error : Severity → Bool
is_error Severity.error = true
is_error _ = false

-- a blocking diagnostic: an error that cannot be repaired
abbrev pub is_blocking : Diagnostic → Bool
is_blocking d = is_error d.severity && not d.repairable

abbrev pub is_failed : Status → Bool
is_failed Status.failed = true
is_failed _ = false

abbrev pub nonempty {ℓ} : {A : Type ℓ} → List A → Bool
nonempty [] = false
nonempty (_ ∷ _) = true

-- the condition under which the report is a failure
abbrev pub must_fail : MacroAgentState → Bool
must_fail state =
    is_failed (value_or state.status Status.completed)
    || nonempty (list_of state.errors)
    || any is_blocking (list_of state.diagnostics)

-- `plan.artifact_outputs[-1] if plan else "storage://null"`
abbrev artifact_uri : Option ExecutionPlan → Option String
artifact_uri none = some "storage://null"
artifact_uri (some plan) = last? plan.artifact_outputs

abbrev audit_note : List RepairProposal → String
audit_note [] = ""
audit_note (p ∷ ps) =
    " (The task contains " <> str (length (p ∷ ps)) <> " order-reduction repair audit record(s).)"

abbrev finalized : MacroAgentState → String → Status → Update
finalized state report status = record no_update {
  final_answer = some report;
  status = some status;
  trace_events =
      some (event_at "workflow_finalized" "finalize_report" Detail.plain (current_step state) ∷ []);
}

abbrev approved : MacroAgentState → Option String → Option Update
approved state none = none
approved state (some uri) = some (
    finalized state
      ("[Research Approval Report] The forecasting task completed successfully. Evidence is stored at "
        <> uri
        <> "."
        <> audit_note (list_of state.repair_history))
      Status.completed)

unfoldable pub finalize_report_node : MacroAgentState → Option Update
finalize_report_node state =
    if must_fail state
    then some (
        finalized state
          "The research task failed because it crossed a safety boundary or exhausted the numerical repair budget."
          Status.failed)
    else approved state (artifact_uri state.execution_plan)
