-- ===== src/Runtime/Tools.antt =====
-- `_execute_tool` of runtime/loop.py over tools/registry.py. What is outside the program, the
-- provider and the tools, works on a world of its own, which the code passes on.
pub mod Retries
use auditable_scientific_age.Prelude.{
  ℕ, zero, suc, ◌+◌, String, Bool, true, false, Option, none, some, List, [], ◌∷◌, if◌then◌else◌,
}
use auditable_scientific_age.Prelude.Dict.{is_in}
use auditable_scientific_age.Prelude.Text.{str, ◌<>◌}
use auditable_scientific_age.Runtime.Models.{
  ToolAction, ToolCall, ToolResult, ToolObservation, AgentError, AgentMessage, AgentState, Value,
  Reason, RunStatus, PlannerRationale, record_event, stop_with,
}

-- What `tool.execute` does: it returns, or raises one of the kinds that the loop tells apart.
pub data Outcome : Type 0 where
  returned : String → Outcome
  validation_error : List String → Outcome
  -- ConnectionError, TimeoutError
  transient : String → Outcome
  key_error : String → Outcome
  other_error : String → Outcome

-- What `provider.generate` does.
pub data Reply : Type 0 where
  answered : AgentMessage → Reply
  raised : String → Reply

pub record Host (W : Type 0) : Type 0 where
  -- the names in the tool registry
  pub tools : List String
  pub execute : W → String → String → W × Outcome
  pub generate : W → List AgentMessage → W × Reply
  -- Python's `str` of a KeyError with a message, of a list of tool calls and of a tool result
  pub key_error_text : String → String
  pub calls_text : List ToolCall → String
  pub result_text : Option ToolResult → String

pub data Execution : Type 0 where
  observed : ToolObservation → Execution
  invalid : List String → Execution
  unknown : String → Execution
  broken : String → Execution

-- How the retry loop ends: the output or an exception that leaves it, or no attempt left.
pub data Attempts : Type 0 where
  success : String → Attempts
  left : Execution → Attempts
  exhausted : ℕ → String → Attempts

abbrev pub result_to_observation : ToolResult → ToolObservation
result_to_observation result = record {
  call_id = result.call_id;
  tool_name = result.tool_name;
  ok = result.ok;
  output = result.output;
  error = result.error;
}

abbrev pub error_result : String → String → AgentError → ToolResult
error_result call_id tool_name err = record {
  call_id = call_id;
  tool_name = tool_name;
  ok = false;
  output = none;
  error = some err;
}

abbrev pub transient_event : ToolAction → ℕ → String → AgentState → AgentState
transient_event action attempt error s =
    record_event "tool_transient_error" s.step_count
      (("tool_name", Value.text action.tool_name)
        ∷ ("attempt", Value.number attempt)
        ∷ ("error", Value.text error)
        ∷ [])
      s

abbrev pub call_payload : ToolAction → List (String × Value)
call_payload action =
    ("tool_name", Value.text action.tool_name) ∷ ("call_id", Value.text action.call_id) ∷ []

-- The last two lines of `_execute_tool`.
abbrev pub observe : ToolAction → ToolResult → AgentState → AgentState × Execution
observe action result s = (
  record_event "observation_recorded" s.step_count
      (("call_id", Value.text action.call_id) ∷ ("ok", Value.flag result.ok) ∷ []) s,
  Execution.observed (result_to_observation result),
)

-- What follows the retry loop.
unfoldable pub conclude : ToolAction → Attempts → AgentState → AgentState × Execution
unfolding str
conclude action (Attempts.success output) s =
    observe action
      (record {
        call_id = action.call_id;
        tool_name = action.tool_name;
        ok = true;
        output = some output;
        error = none;
      })
      (record_event "tool_succeeded" s.step_count (call_payload action) s)
conclude action (Attempts.left e) s = (s, e)
conclude action (Attempts.exhausted attempt last) s =
    observe action
      (error_result action.call_id action.tool_name (record {
        error_type = "tool_execution_failed";
        message = "Failed after " <> str attempt <> " retries: " <> last;
        retryable = false;
        details = [];
      }))
      (stop_with RunStatus.failed Reason.non_retryable_error (
        record_event "tool_failed" s.step_count
          (("tool_name", Value.text action.tool_name)
            ∷ ("call_id", Value.text action.call_id)
            ∷ ("reason", Value.text "retries_exhausted")
            ∷ [])
          s))

module _ {W : Type 0} (host : Host W) where
  -- What an attempt's outcome makes of the retry loop, with the attempts that would follow.
  unfoldable pub after_outcome :
      Outcome → W → AgentState → (String → W × AgentState × Attempts) → W × AgentState × Attempts
  after_outcome (Outcome.returned output) w s again = (w, s, Attempts.success output)
  after_outcome (Outcome.validation_error details) w s again =
      (w, s, Attempts.left (Execution.invalid details))
  after_outcome (Outcome.transient error) w s again = again error
  after_outcome (Outcome.key_error error) w s again =
      (w, s, Attempts.left (Execution.unknown error))
  after_outcome (Outcome.other_error error) w s again =
      (w, s, Attempts.left (Execution.broken error))

  -- The retry loop: `budget` attempts are left, `attempt` were made, `last` is the last error.
  unfoldable pub attempt_tool :
      ToolAction → ℕ → ℕ → String → AgentState → W → W × AgentState × Attempts
  unfolding after_outcome
  attempt_tool action zero attempt last s w = (w, s, Attempts.exhausted attempt last)
  attempt_tool action (suc budget) attempt last s w =
      let r = host.execute w action.tool_name action.arguments in
      after_outcome r.1 r.0 s (λ error.
        attempt_tool action budget (attempt + 1) error
          (transient_event action (attempt + 1) error s) r.0)

  abbrev pub tool_started : ToolAction → AgentState → AgentState
  tool_started action s = record_event "tool_started" s.step_count (call_payload action) s

  abbrev pub finish : ToolAction → W × AgentState × Attempts → W × AgentState × Execution
  finish action r = (r.0, (conclude action r.2 r.1).0, (conclude action r.2 r.1).1)

  unfoldable pub execute_tool : ℕ → ToolAction → AgentState → W → W × AgentState × Execution
  unfolding attempt_tool conclude
  execute_tool max_tool_retries action s w =
      if is_in action.tool_name host.tools
      then finish action (attempt_tool action max_tool_retries 0 "" (tool_started action s) w)
      else (
        w,
        tool_started action s,
        Execution.unknown (host.key_error_text ("Unknown tool: '" <> action.tool_name <> "'")),
      )

-- The host with a count of the executions of its tools.
abbrev pub counted : {W : Type 0} → Host W → Host (ℕ × W)
counted host = record {
  tools = host.tools;
  execute = λ w name arguments.
      ((w.0 + 1, (host.execute w.1 name arguments).0), (host.execute w.1 name arguments).1);
  generate = λ w messages. ((w.0, (host.generate w.1 messages).0), (host.generate w.1 messages).1);
  key_error_text = host.key_error_text;
  calls_text = host.calls_text;
  result_text = host.result_text;
}
