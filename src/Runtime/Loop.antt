-- ===== src/Runtime/Loop.antt =====
-- `AgentRuntime.run` of runtime/loop.py. A run of the `while` loop makes a step or stops, so that
-- one iteration more than `max_steps` is enough fuel.
pub mod Stops
pub mod Ends
use auditable_scientific_age.Prelude.{
  ℕ, zero, suc, ◌+◌, String, Bool, true, false, Option, none, some, List, [], ◌∷◌, if◌then◌else◌,
  leb,
}
use auditable_scientific_age.Prelude.Text.{str, ◌<>◌}
use auditable_scientific_age.Context.Models.{ContextItem, ContextBundle, ContextBudgetReport}
use auditable_scientific_age.Context.Assembler.{assemble}
use auditable_scientific_age.Runtime.Models.{
  ToolCall, AgentError, ToolResult, PlannerRationale, AgentMessage, ToolAction, ToolObservation,
  Reason, AgentStep, Value, RunStatus, AgentState, record_event, append_step, append_message,
  stop_with, build_direct_answer_step, build_stop_step, build,
}
use auditable_scientific_age.Runtime.Tools.{
  Host, Reply, Execution, execute_tool, result_to_observation, error_result,
}
use auditable_scientific_age.Runtime.Prompt.{
  Sources, pre_context_items, pre_context_events, dynamic_items, context_bundle_to_message,
}
use auditable_scientific_age.Runtime.Calls.{
  tool_call_to_action, resolve, append_call, call_received,
}

-- The parameters of the runtime that the loop reads.
pub record Limits : Type 0 where
  pub max_steps : ℕ
  pub max_tool_retries : ℕ
  pub max_token_budget : ℕ

abbrev pub is_running : RunStatus → Bool
is_running RunStatus.running = true
is_running _ = false

-- `state.status in ("failed", "max_steps_exceeded")`
abbrev pub is_stopped : RunStatus → Bool
is_stopped RunStatus.failed = true
is_stopped RunStatus.max_steps_exceeded = true
is_stopped _ = false

abbrev pub stop_recorded : Option Reason → AgentState → AgentState
stop_recorded reason s =
    record_event "stop_reason_recorded" s.step_count (("reason", Value.stopped reason) ∷ []) s

-- The hard guardrail.
unfoldable pub exceed : ℕ → AgentState → AgentState
unfolding str
exceed max_steps s = stop_recorded (some Reason.max_steps_exceeded) (
    append_step
      (build_stop_step s.run_id s.step_count Reason.max_steps_exceeded
        (some ("Reached max_steps=" <> str max_steps)))
      (record_event "max_steps_exceeded" s.step_count []
        (stop_with RunStatus.max_steps_exceeded Reason.max_steps_exceeded s)))

abbrev pub provider_failed : String → AgentState → AgentState
provider_failed text s = stop_recorded (some Reason.provider_failed) (
    append_step (build_stop_step s.run_id s.step_count Reason.provider_failed (some text)) (
      record_event "model_provider_failed" s.step_count (("error", Value.text text) ∷ [])
        (stop_with RunStatus.failed Reason.provider_failed s)))

abbrev pub answer_directly : AgentMessage → AgentState → AgentState
answer_directly msg s =
    record_event "run_completed" s.step_count (("final_answer", Value.answer msg.content) ∷ []) (
      stop_recorded (some Reason.final_answer) (
        append_step (build_direct_answer_step s.run_id s.step_count msg.rationale)
          (record (stop_with RunStatus.completed Reason.final_answer s) {
            final_answer = msg.content;
          })))

abbrev pub rationale_recorded : Option PlannerRationale → AgentState → AgentState
rationale_recorded none s = s
rationale_recorded (some r) s =
    record_event "rationale_recorded" s.step_count (("summary", Value.text r.summary) ∷ []) s

-- The state after the provider's answer, before its calls.
unfoldable pub responded : AgentMessage → AgentState → AgentState
responded msg s = rationale_recorded msg.rationale (
    record_event "model_responded" (s.step_count + 1) (("message", Value.response msg) ∷ [])
      (record (append_message msg s) { step_count = s.step_count + 1 }))

-- The events of the assembly.
unfoldable pub requested : ContextBundle → ContextBudgetReport → AgentState → AgentState
requested bundle report s =
    let s' =
      record_event "model_requested" s.step_count
        (("budget_tokens", Value.number bundle.total_estimated_tokens)
          ∷ ("items_dropped", Value.number report.items_dropped_by_budget)
          ∷ ("items_pruned", Value.number report.items_pruned)
          ∷ ("utilization_ratio", Value.ratio report.utilization_ratio)
          ∷ [])
        s in
    if report.lost_in_middle_warning
    then record_event "context_lost_in_middle_warning" s.step_count
        (("utilization", Value.ratio report.utilization_ratio) ∷ []) s'
    else s'

-- The state at the start, its first event recorded.
abbrev pub started : String → String → AgentState
started run_id user_input =
    record_event "run_started" 0 (("user_input", Value.text user_input) ∷ []) (record {
      run_id = run_id;
      messages =
          record {
            role = "user";
            content = some user_input;
            tool_calls = none;
            tool_result = none;
            rationale = none;
          }
          ∷ [];
      step_count = 0;
      status = RunStatus.running;
      steps = [];
      trace_events = [];
      final_answer = none;
      stop_reason = none;
    })

module _ {W : Type 0} (host : Host W) (limits : Limits) where
  -- One tool call, up to the test for a stop.
  unfoldable pub handle_call : ToolCall → Option PlannerRationale → AgentState → W → W × AgentState
  unfolding execute_tool resolve append_call
  handle_call tc rationale s w =
      let r =
        execute_tool host limits.max_tool_retries (tool_call_to_action tc rationale)
          (call_received tc s) w in
      (r.0, append_call tc rationale (resolve tc r.2 r.1))

  -- `for tc in assistant_msg.tool_calls`
  unfoldable pub handle_calls :
      List ToolCall → Option PlannerRationale → W × AgentState → W × AgentState
  unfolding handle_call
  handle_calls [] rationale (w, s) = (w, s)
  handle_calls (tc ∷ tcs) rationale (w, s) =
      let r = handle_call tc rationale s w in
      let rest = handle_calls tcs rationale r in
      if is_stopped r.1.status then (r.0, stop_recorded r.1.stop_reason r.1) else rest

  -- The tool calls of an answer, or the direct answer; no calls and an empty list are the same.
  unfoldable pub act : AgentMessage → Option (List ToolCall) → W × AgentState → W × AgentState
  unfolding handle_calls
  act msg none (w, s) = (w, answer_directly msg s)
  act msg (some []) (w, s) = (w, answer_directly msg s)
  act msg (some (tc ∷ tcs)) (w, s) = handle_calls (tc ∷ tcs) msg.rationale (w, s)

  unfoldable pub receive : Reply → AgentState → W → W × AgentState
  unfolding act responded
  receive (Reply.raised text) s w = (w, provider_failed text s)
  receive (Reply.answered msg) s w = act msg msg.tool_calls (w, responded msg s)

  -- The loop's body.
  unfoldable pub iterate : List ContextItem → AgentState → W → W × AgentState
  unfolding exceed requested receive dynamic_items context_bundle_to_message
  iterate pre s w =
      let assembled = assemble limits.max_token_budget (dynamic_items host pre s.messages) in
      let reply = host.generate w (context_bundle_to_message assembled.0 ∷ s.messages) in
      if leb limits.max_steps s.step_count
      then (w, exceed limits.max_steps s)
      else receive reply.1 (requested assembled.0 assembled.1 s) reply.0

  -- `while state.status == "running"`
  unfoldable pub loop : ℕ → List ContextItem → W × AgentState → W × AgentState
  unfolding iterate
  loop zero pre (w, s) = (w, s)
  loop (suc fuel) pre (w, s) =
      let rest = loop fuel pre (iterate pre s w) in if is_running s.status then rest else (w, s)

  -- The whole of `run`, on a fresh run id.
  unfoldable pub run : Sources → String → String → W → W × AgentState
  unfolding loop pre_context_items pre_context_events
  run sources run_id user_input w =
      loop (limits.max_steps + 1) (pre_context_items sources)
        (w, pre_context_events sources (started run_id user_input))
