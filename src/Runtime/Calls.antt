-- ===== src/Runtime/Calls.antt =====
-- One tool call in `AgentRuntime.run`: the action made of it, the `except` branches, and what its result
-- adds to the state.
use auditable_scientific_age.Prelude.{String, true, false, Option, none, some, [], ◌∷◌}
use auditable_scientific_age.Runtime.Models.{
  ToolCall, ToolResult, PlannerRationale, AgentMessage, ToolAction, Reason, Value, RunStatus,
  AgentState, record_event, append_step, append_message, stop_with, build,
}
use auditable_scientific_age.Runtime.Tools.{Execution, result_to_observation, error_result}

abbrev pub tool_call_to_action : ToolCall → Option PlannerRationale → ToolAction
tool_call_to_action tc rationale = record {
  call_id = tc.call_id;
  tool_name = tc.tool_name;
  arguments = tc.arguments;
  rationale = rationale;
}

abbrev validation_failed : ToolCall → String → AgentState → AgentState
validation_failed tc error_type s =
    record_event "tool_validation_failed" s.step_count
      (("error_type", Value.text error_type) ∷ ("call_id", Value.text tc.call_id) ∷ []) s

-- The `except` branches: the state and the result after `_execute_tool`.
unfoldable pub resolve : ToolCall → Execution → AgentState → AgentState × ToolResult
resolve tc (Execution.observed o) s = (
  s,
  record {
    call_id = o.call_id;
    tool_name = o.tool_name;
    ok = o.ok;
    output = o.output;
    error = o.error;
  },
)
resolve tc (Execution.unknown text) s = (
  stop_with RunStatus.failed Reason.non_retryable_error (validation_failed tc "unknown_tool" s),
  error_result tc.call_id tc.tool_name
      (record { error_type = "unknown_tool"; message = text; retryable = false; details = [] }),
)
resolve tc (Execution.invalid errors) s = (
  validation_failed tc "invalid_arguments" s,
  error_result tc.call_id tc.tool_name (record {
    error_type = "invalid_arguments";
    message = "Args failed validation.";
    retryable = true;
    details = errors;
  }),
)
resolve tc (Execution.broken text) s = (
  stop_with RunStatus.failed Reason.non_retryable_error (
      record_event "tool_failed" s.step_count
        (("tool_name", Value.text tc.tool_name)
          ∷ ("call_id", Value.text tc.call_id)
          ∷ ("error", Value.text text)
          ∷ [])
        s),
  error_result tc.call_id tc.tool_name (record {
    error_type = "tool_execution_failed";
    message = text;
    retryable = false;
    details = [];
  }),
)

abbrev tool_message : ToolResult → AgentMessage
tool_message result = record {
  role = "tool";
  content = none;
  tool_calls = none;
  tool_result = some result;
  rationale = none;
}

-- What a call adds to the state once its result is there.
unfoldable pub append_call :
    ToolCall → Option PlannerRationale → AgentState × ToolResult → AgentState
append_call tc rationale (s, result) =
    record_event "step_completed" s.step_count
      (("call_id", Value.text tc.call_id) ∷ ("ok", Value.flag result.ok) ∷ [])
      (append_step
        (build s.run_id s.step_count rationale (tool_call_to_action tc rationale)
          (result_to_observation result))
        (append_message (tool_message result) s))

abbrev pub call_received : ToolCall → AgentState → AgentState
call_received tc s =
    record_event "tool_action_created" s.step_count
      (("tool_name", Value.text tc.tool_name) ∷ ("call_id", Value.text tc.call_id) ∷ [])
      (record_event "tool_call_received" s.step_count (("tool_call", Value.tool_call tc) ∷ []) s)
