-- ===== src/Memory/Condenser.antt =====
-- condenser.py of memory/: the episode that remains of a run. The new id and the clock are
-- arguments.
pub mod Importance
use auditable_scientific_age.Prelude.{
  ℕ, String, Bool, true, false, Option, none, some, List, [], ◌∷◌, if◌then◌else◌, ◌==◌,
}
use auditable_scientific_age.Prelude.Text.{◌<>◌}
use auditable_scientific_age.Runtime.Models.{
  AgentState, AgentStep, AgentMessage, AgentError, ToolAction, ToolObservation, PlannerRationale,
  RunStatus, status_text,
}
use auditable_scientific_age.Memory.Models.{EpisodeRecord}

-- The content of the first message of the user, which may itself be `None`.
unfoldable pub first_user_content : List AgentMessage → Option String
first_user_content [] = some "Unknown task"
first_user_content (m ∷ messages) =
    let later = first_user_content messages in if m.role == "user" then m.content else later

-- `user_msg or "No user message recorded."`
abbrev pub summary_or_default : Option String → String
summary_or_default none = "No user message recorded."
summary_or_default (some text) = if text == "" then "No user message recorded." else text

-- `outcome_map.get(state.status, state.status)`: the map has every status as its own outcome
abbrev pub outcome_of : RunStatus → String
outcome_of status = status_text status

abbrev pub rationale_suffix : Option PlannerRationale → String
rationale_suffix none = ""
rationale_suffix (some rationale) = ": " <> rationale.summary

abbrev pub decision_text : ToolAction → Option PlannerRationale → String
decision_text action rationale =
    "called "
    <> action.tool_name
    <> " (call_id="
    <> action.call_id
    <> ")"
    <> rationale_suffix rationale

abbrev decision_before : Option ToolAction → Option PlannerRationale → List String → List String
decision_before none rationale rest = rest
decision_before (some action) rationale rest = decision_text action rationale ∷ rest

unfoldable pub key_decisions_of : List AgentStep → List String
key_decisions_of [] = []
key_decisions_of (step ∷ steps) =
    decision_before step.action step.rationale (key_decisions_of steps)

abbrev error_before : ToolObservation → Option AgentError → List String → List String
error_before observation none rest = rest
error_before observation (some error) rest =
    if observation.ok then rest else (observation.tool_name <> ": " <> error.message) ∷ rest

abbrev observed_before : Option ToolObservation → List String → List String
observed_before none rest = rest
observed_before (some observation) rest = error_before observation observation.error rest

unfoldable pub error_messages_of : List AgentStep → List String
error_messages_of [] = []
error_messages_of (step ∷ steps) = observed_before step.observation (error_messages_of steps)

unfoldable pub condense : String → String → AgentState → EpisodeRecord
unfolding first_user_content key_decisions_of error_messages_of
condense episode_id now state = record {
  episode_id = episode_id;
  run_id = state.run_id;
  task_summary = summary_or_default (first_user_content state.messages);
  outcome = outcome_of state.status;
  key_decisions = key_decisions_of state.steps;
  error_messages = error_messages_of state.steps;
  step_count = state.step_count;
  recorded_at = now;
}
