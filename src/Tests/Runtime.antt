-- ===== src/Tests/Runtime.antt =====
-- A run against a provider that asks for a tool until the third answer.
use auditable_scientific_age.Prelude.{
  ℕ, ◌+◌, ◌≤◌, true, false, Option, none, some, List, [], ◌∷◌, ◌≡◌, if◌then◌else◌, ltb,
}
use auditable_scientific_age.Runtime.Models.{AgentMessage, ToolCall}
use auditable_scientific_age.Runtime.Tools.{Host, Outcome, Reply, execute_tool, counted}
use auditable_scientific_age.Runtime.Tools.Retries.{execute_tool-count}
use auditable_scientific_age.Runtime.Executor.{execute_batch}
use auditable_scientific_age.Runtime.Executor.Batch.{execute_batch-all_answer, all_answer}
use auditable_scientific_age.Runtime.Prompt.{Sources}
use auditable_scientific_age.Runtime.Calls.{tool_call_to_action}
use auditable_scientific_age.Runtime.Loop.{Limits, is_running, started, handle_calls, run}
use auditable_scientific_age.Runtime.Loop.Stops.{handle_calls-IsAfterCalls, IsAfterCalls}
use auditable_scientific_age.Runtime.Loop.Ends.{run_stops, agrees}

abbrev fit_call : ToolCall
fit_call = record { call_id = "c1"; tool_name = "fit"; arguments = "{}" }

-- A tool that the host has not.
abbrev unknown_call : ToolCall
unknown_call = record { call_id = "c2"; tool_name = "drop"; arguments = "{}" }

abbrev message_with : Option (List ToolCall) → AgentMessage
message_with tool_calls = record {
  role = "assistant";
  content = some "done";
  tool_calls = tool_calls;
  tool_result = none;
  rationale = none;
}

-- The world counts what it was asked; a tool times out before the second request.
abbrev host : Host ℕ
host = record {
  tools = "fit" ∷ [];
  execute = λ w name arguments.
      (w + 1, (if ltb w 2 then Outcome.transient "timeout" else Outcome.returned "{'rmse': 115}"));
  generate = λ w messages. (
    w + 1,
    Reply.answered (message_with (if ltb w 3 then some (fit_call ∷ fit_call ∷ []) else none)),
  );
  key_error_text = λ text. text;
  calls_text = λ calls. "calls";
  result_text = λ result. "result";
}

abbrev limits : Limits
limits = record { max_steps = 5; max_tool_retries = 3; max_token_budget = 1500 }

abbrev sources : Sources
sources = record {
  activated_skill = none;
  retrieval = some ("evidence", "doc_1" ∷ []);
  memories = [];
  namespace = "default_project";
}

run_stops_example :
    (is_running (run host limits sources "r1" "fit it" 0).1.status ≡ false)
    × (agrees
          (run host limits sources "r1" "fit it" 0).1.status
          (run host limits sources "r1" "fit it" 0).1.stop_reason
        ≡ true)
    × ((run host limits sources "r1" "fit it" 0).1.step_count ≤ 5)
run_stops_example = run_stops host limits sources "r1" "fit it" 0

handle_calls-IsAfterCalls_example :
    IsAfterCalls host limits
      (fit_call ∷ unknown_call ∷ fit_call ∷ [])
      none
      (0, started "r1" "fit it")
      (handle_calls host limits
        (fit_call ∷ unknown_call ∷ fit_call ∷ [])
        none
        (0, started "r1" "fit it"))
handle_calls-IsAfterCalls_example =
    handle_calls-IsAfterCalls host limits (fit_call ∷ unknown_call ∷ fit_call ∷ []) none
      (started "r1" "fit it") 0

execute_tool-count_example :
    (execute_tool
      (counted host)
      3
      (tool_call_to_action fit_call none)
      (started "r1" "fit it")
      (0, 0)).0.0
    ≤ 3
execute_tool-count_example =
    execute_tool-count host 3 (tool_call_to_action fit_call none) (started "r1" "fit it") 0 0

-- The second task ends before the first, and the third is of no registered tool.
execute_batch-all_answer_example :
    all_answer (fit_call ∷ fit_call ∷ record fit_call { tool_name = "plot" } ∷ []) (
      execute_batch host "5.0"
        ((1, Outcome.returned "{}")
          ∷ (0, Outcome.transient "reset")
          ∷ (2, Outcome.returned "{}")
          ∷ [])
        (fit_call ∷ fit_call ∷ record fit_call { tool_name = "plot" } ∷ []))
    ≡ true
execute_batch-all_answer_example =
    execute_batch-all_answer host "5.0"
      ((1, Outcome.returned "{}")
        ∷ (0, Outcome.transient "reset")
        ∷ (2, Outcome.returned "{}")
        ∷ [])
      (fit_call ∷ fit_call ∷ record fit_call { tool_name = "plot" } ∷ [])
