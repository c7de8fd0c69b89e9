-- ===== src/Graph/Nodes/Repair.antt =====
-- nodes.py: `repair_spec_node`.
use auditable_scientific_age.Prelude.{ℕ, ◌+◌, Option, none, some, [], ◌∷◌, last?}
use auditable_scientific_age.Prelude.Text.{str, ◌<>◌}
use auditable_scientific_age.Scientific.Modelspec.{ModelSpec}
use auditable_scientific_age.Scientific.Validators.{Diagnostic}
use auditable_scientific_age.Scientific.Repairs.{
  RepairProposal, BoundedRepairEngine, RepairOutcome, attempt_auto_repair,
}
use auditable_scientific_age.Graph.State.{MacroAgentState, Status, Detail, list_of, value_or}
use auditable_scientific_age.Graph.Nodes.Interface.{
  Environment, Update, no_update, current_step, event_at,
}

-- `state.get("repair_attempts", 0) + 1`
abbrev pub next_attempt : MacroAgentState → ℕ
next_attempt state = value_or state.repair_attempts 0 + 1

abbrev pub escalated : MacroAgentState → Update
escalated state = record no_update {
  status = some Status.failed;
  errors =
      some
        (("Bounded Repair Engine exhausted at attempt " <> str (next_attempt state) <> ".") ∷ []);
  trace_events = some (
      event_at "repair_quota_exhausted_escalated" "repair_spec" Detail.plain (current_step state)
      ∷ []);
}

unfoldable pub repaired_update : MacroAgentState → ModelSpec → Option RepairProposal → Option Update
repaired_update state fixed_spec none = none
repaired_update state fixed_spec (some latest_proposal) = some (record no_update {
  model_spec = some fixed_spec;
  repair_attempts = some (next_attempt state);
  repair_history = some (latest_proposal ∷ []);
  diagnostics = some [];
  trace_events = some (
      event_at "spec_repaired_and_degraded" "repair_spec"
        (Detail.proposal_id latest_proposal.repair_id) (current_step state)
      ∷ []);
})

-- The update of a repair: the audit trail gains the engine's last entry, and the diagnostics are
-- cleared. The engine has an entry whenever it has repaired; without one, `[-1]` would raise.
unfoldable pub after_repair : MacroAgentState → RepairOutcome → Option Update
unfolding repaired_update
after_repair state RepairOutcome.type_error = none
after_repair state RepairOutcome.refused = some (escalated state)
after_repair state (RepairOutcome.repaired fixed_spec engine) =
    repaired_update state fixed_spec (last? engine.repair_history)

-- The engine with its budget of two and the history that the state holds.
abbrev pub restored_engine : MacroAgentState → BoundedRepairEngine
restored_engine state = record { max_attempts = 2; repair_history = list_of state.repair_history }

-- The node, at the latest diagnostic and the state's specification.
unfoldable pub repair_with :
    Environment → MacroAgentState → Option Diagnostic → Option ModelSpec → Option Update
unfolding attempt_auto_repair after_repair
repair_with env state none o = some (record no_update {
  trace_events =
      some
        (event_at "repair_skipped_no_errors" "repair_spec" Detail.plain (current_step state) ∷ []);
})
repair_with env state (some diag) none = none
repair_with env state (some diag) (some spec) =
    after_repair state (attempt_auto_repair (restored_engine state) env.now spec diag)

unfoldable pub repair_spec_node : Environment → MacroAgentState → Option Update
unfolding repair_with
repair_spec_node env state =
    repair_with env state (last? (list_of state.diagnostics)) state.model_spec
