-- ===== src/Runtime/Models.antt =====
-- models.py, errors.py, tracing.py, runtime/state.py and runtime/steps.py. A dict that the runtime
-- hands on unread is its printed form; a rationale's confidence, a float that nothing reads, and the
-- time of an event are left out.
use auditable_scientific_age.Prelude.{ℕ, String, Bool, Option, none, some, List, [], ◌∷◌, ◌++◌}

pub record ToolCall : Type 0 where
  pub call_id : String
  pub tool_name : String
  pub arguments : String

pub record AgentError : Type 0 where
  pub error_type : String
  pub message : String
  pub retryable : Bool
  -- `{}` is the empty list
  pub details : List String

pub record ToolResult : Type 0 where
  pub call_id : String
  pub tool_name : String
  pub ok : Bool
  pub output : Option String
  pub error : Option AgentError

pub record PlannerRationale : Type 0 where
  pub summary : String
  pub cited_state_keys : List String

pub record AgentMessage : Type 0 where
  pub role : String
  pub content : Option String
  pub tool_calls : Option (List ToolCall)
  pub tool_result : Option ToolResult
  pub rationale : Option PlannerRationale

pub record ToolAction : Type 0 where
  pub call_id : String
  pub tool_name : String
  pub arguments : String
  pub rationale : Option PlannerRationale

pub record ToolObservation : Type 0 where
  pub call_id : String
  pub tool_name : String
  pub ok : Bool
  pub output : Option String
  pub error : Option AgentError

pub data Reason : Type 0 where
  final_answer max_steps_exceeded non_retryable_error cancelled provider_failed : Reason

pub record StopReason : Type 0 where
  pub reason : Reason
  pub message : Option String
  pub step : ℕ

pub record AgentStep : Type 0 where
  pub run_id : String
  pub step : ℕ
  pub rationale : Option PlannerRationale
  pub action : Option ToolAction
  pub observation : Option ToolObservation
  pub stop_reason : Option StopReason

-- One value of an event's payload.
pub data Value : Type 0 where
  text : String → Value
  texts : List String → Value
  number : ℕ → Value
  flag : Bool → Value
  ratio : ℕ × ℕ → Value
  response : AgentMessage → Value
  tool_call : ToolCall → Value
  answer : Option String → Value
  stopped : Option Reason → Value

pub record TraceEvent : Type 0 where
  pub run_id : String
  pub event_type : String
  pub step : ℕ
  pub payload : List (String × Value)

pub data RunStatus : Type 0 where
  running completed max_steps_exceeded failed cancelled : RunStatus

-- The status as the text that the code stores.
abbrev pub status_text : RunStatus → String
status_text RunStatus.running = "running"
status_text RunStatus.completed = "completed"
status_text RunStatus.max_steps_exceeded = "max_steps_exceeded"
status_text RunStatus.failed = "failed"
status_text RunStatus.cancelled = "cancelled"

-- The recorder's events stand in the state all along; the code copies them there at the end.
pub record AgentState : Type 0 where
  pub run_id : String
  pub messages : List AgentMessage
  pub step_count : ℕ
  pub status : RunStatus
  pub steps : List AgentStep
  pub trace_events : List TraceEvent
  pub final_answer : Option String
  pub stop_reason : Option Reason

-- `recorder.record(run_id, event_type, step, payload)`
abbrev pub record_event : String → ℕ → List (String × Value) → AgentState → AgentState
record_event event_type step payload s = record s {
  trace_events =
      s.trace_events
      ++ record { run_id = s.run_id; event_type = event_type; step = step; payload = payload } ∷ [];
}

-- `state.steps.append(step)`
abbrev pub append_step : AgentStep → AgentState → AgentState
append_step step s = record s { steps = s.steps ++ step ∷ [] }

-- `state.messages.append(message)`
abbrev pub append_message : AgentMessage → AgentState → AgentState
append_message message s = record s { messages = s.messages ++ message ∷ [] }

-- The state with its verdict.
abbrev pub stop_with : RunStatus → Reason → AgentState → AgentState
stop_with status reason s = record s { status = status; stop_reason = some reason }

abbrev pub build_direct_answer_step : String → ℕ → Option PlannerRationale → AgentStep
build_direct_answer_step run_id step rationale = record {
  run_id = run_id;
  step = step;
  rationale = rationale;
  action = none;
  observation = none;
  stop_reason = some (record { reason = Reason.final_answer; message = none; step = step });
}

abbrev pub build_stop_step : String → ℕ → Reason → Option String → AgentStep
build_stop_step run_id step reason message = record {
  run_id = run_id;
  step = step;
  rationale = none;
  action = none;
  observation = none;
  stop_reason = some (record { reason = reason; message = message; step = step });
}

-- The step of one tool call.
abbrev pub build : String → ℕ → Option PlannerRationale → ToolAction → ToolObservation → AgentStep
build run_id step rationale action observation = record {
  run_id = run_id;
  step = step;
  rationale = rationale;
  action = some action;
  observation = some observation;
  stop_reason = none;
}
