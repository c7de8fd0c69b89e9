-- ===== src/Runtime/Executor.antt =====
-- async_executor.py of runtime/: a batch of tool calls under one timeout. The tasks run in the order
-- that the event loop and the semaphore choose; here that order is the list of the tasks that end
-- before the timeout, each with what its tool did.
pub mod Batch
use auditable_scientific_age.Prelude.{
  ℕ, zero, suc, String, Bool, true, false, Option, none, some, List, [], ◌∷◌, map, if◌then◌else◌,
}
use auditable_scientific_age.Prelude.Dict.{is_in}
use auditable_scientific_age.Prelude.Text.{◌<>◌}
use auditable_scientific_age.Runtime.Models.{ToolCall, ToolResult, AgentError}
use auditable_scientific_age.Runtime.Tools.{Outcome, Host, error_result}

abbrev pub failure : ToolCall → String → String → List String → ToolResult
failure call error_type message details =
    error_result call.call_id call.tool_name
      (record { error_type = error_type; message = message; retryable = false; details = details })

-- The result of a call by what its tool did.
abbrev pub result_for : ToolCall → Outcome → ToolResult
result_for call (Outcome.returned output) = record {
  call_id = call.call_id;
  tool_name = call.tool_name;
  ok = true;
  output = some output;
  error = none;
}
result_for call (Outcome.key_error message) = failure call "unknown_tool" message []
result_for call (Outcome.validation_error details) =
    failure call "invalid_arguments" "Validation failed" details
result_for call (Outcome.transient message) = failure call "tool_execution_failed" message []
result_for call (Outcome.other_error message) = failure call "tool_execution_failed" message []

abbrev pub timeout_result : String → ToolCall → ToolResult
timeout_result batch_timeout call = error_result call.call_id call.tool_name (record {
  error_type = "timeout";
  message = "Batch execution timed out after " <> batch_timeout <> " seconds.";
  retryable = true;
  details = [];
})

-- A task: its call, and its result once it is done.
abbrev pub Task : Type 0
Task = ToolCall × Option ToolResult

module _ {W : Type 0} (host : Host W) where
  unfoldable pub execute_single : Outcome → ToolCall → ToolResult
  execute_single outcome call =
      if is_in call.tool_name host.tools
      then result_for call outcome
      else failure call "unknown_tool"
          (host.key_error_text ("Unknown tool: '" <> call.tool_name <> "'")) []

  abbrev pub end_task : Outcome → Task → Task
  end_task outcome (call, none) = (call, some (execute_single outcome call))
  end_task outcome (call, some r) = (call, some r)

  -- The task at a place ends.
  unfoldable pub settle : ℕ → Outcome → List Task → List Task
  unfolding execute_single
  settle i outcome [] = []
  settle zero outcome (task ∷ tasks) = end_task outcome task ∷ tasks
  settle (suc i) outcome (task ∷ tasks) = task ∷ settle i outcome tasks

  unfoldable pub settle_all : List (ℕ × Outcome) → List Task → List Task
  unfolding settle
  settle_all [] tasks = tasks
  settle_all ((i, outcome) ∷ ended) tasks = settle_all ended (settle i outcome tasks)

abbrev both : Option ToolResult → Option (List ToolResult) → Option (List ToolResult)
both none rest = none
both (some r) none = none
both (some r) (some results) = some (r ∷ results)

-- `asyncio.gather(*tasks)`, where `none` is a task that is not done
unfoldable pub gather : List Task → Option (List ToolResult)
gather [] = some []
gather ((call, r) ∷ tasks) = both r (gather tasks)

abbrev pub or_timeouts : String → List ToolCall → Option (List ToolResult) → List ToolResult
or_timeouts batch_timeout tool_calls none = map (timeout_result batch_timeout) tool_calls
or_timeouts batch_timeout tool_calls (some results) = results

-- `execute_batch`, with its timeout in print
unfoldable pub execute_batch :
    {W : Type 0} → Host W → String → List (ℕ × Outcome) → List ToolCall → List ToolResult
unfolding settle_all gather
execute_batch host batch_timeout ended tool_calls =
    or_timeouts batch_timeout tool_calls
      (gather (settle_all host ended (map (λ call. (call, none)) tool_calls)))
