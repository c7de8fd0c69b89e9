-- ===== src/Runtime/Tools/Retries.antt =====
-- The retry loop: how often a tool runs, and what the loop leaves of the state.
use auditable_scientific_age.Prelude.{
  ℕ, zero, suc, ◌+◌, ◌≤◌, String, true, false, some, ◌≡◌, refl, arith, if◌then◌else◌, inl, inr, ◌⊎◌,
}
use auditable_scientific_age.Prelude.Dict.{is_in}
use auditable_scientific_age.Prelude.Text.{◌<>◌}
use auditable_scientific_age.Runtime.Models.{ToolAction, AgentState, RunStatus, Reason}
use auditable_scientific_age.Runtime.Tools.{
  Host, Outcome, Attempts, Execution, attempt_tool, execute_tool, counted, conclude, tool_started,
  transient_event, after_outcome,
}

-- The parts of the state that neither a step of the loop nor an event changes.
pub record IsSame (s t : AgentState) : Type 0 where
  pub step_count : t.step_count ≡ s.step_count
  pub status : t.status ≡ s.status
  pub stop_reason : t.stop_reason ≡ s.stop_reason
  pub messages : t.messages ≡ s.messages
  pub steps : t.steps ≡ s.steps
  pub run_id : t.run_id ≡ s.run_id

-- What holds whether the loop ends at an outcome or goes on holds after it.
after_outcome-keeps :
    {W : Type 0} (host : Host W) (P : W × AgentState × Attempts → Type 0) (o : Outcome) (w : W)
    (s : AgentState) (again : String → W × AgentState × Attempts)
    → ((a : Attempts) → P (w, s, a))
    → ((e : String) → P (again e))
    → P (after_outcome host o w s again)
unfolding after_outcome
after_outcome-keeps host P (Outcome.returned output) w s again h k = h _
after_outcome-keeps host P (Outcome.validation_error details) w s again h k = h _
after_outcome-keeps host P (Outcome.transient error) w s again h k = k error
after_outcome-keeps host P (Outcome.key_error error) w s again h k = h _
after_outcome-keeps host P (Outcome.other_error error) w s again h k = h _

abbrev itself : (s : AgentState) → IsSame s s
itself s = record {
  step_count = refl;
  status = refl;
  stop_reason = refl;
  messages = refl;
  steps = refl;
  run_id = refl;
}

attempt_tool-count :
    {W : Type 0} (host : Host W) (action : ToolAction) (budget attempt : ℕ) (last : String)
    (s : AgentState) (n : ℕ) (w : W)
    → (attempt_tool (counted host) action budget attempt last s (n, w)).0.0 ≤ n + budget
unfolding attempt_tool
attempt_tool-count host action zero attempt last s n w = omega arith
attempt_tool-count host action (suc budget) attempt last s n w =
    let r = host.execute w action.tool_name action.arguments in
    after_outcome-keeps (counted host) (λ t. t.0.0 ≤ n + suc budget) r.1 (n + 1, r.0) s
      (λ e.
        attempt_tool (counted host) action budget (attempt + 1) e
          (transient_event action (attempt + 1) e s) (n + 1, r.0))
      (λ a. omega arith)
      (λ e. omega (
        arith,
        attempt_tool-count host action budget (attempt + 1) e
            (transient_event action (attempt + 1) e s) (n + 1) r.0,
      ))

attempt_tool-same :
    {W : Type 0} (host : Host W) (action : ToolAction) (budget attempt : ℕ) (last : String)
    (s : AgentState) (w : W)
    → IsSame s (attempt_tool host action budget attempt last s w).1
unfolding attempt_tool
attempt_tool-same host action zero attempt last s w = itself s
attempt_tool-same host action (suc budget) attempt last s w =
    let r = host.execute w action.tool_name action.arguments in
    after_outcome-keeps host (λ t. IsSame s t.1) r.1 r.0 s
      (λ e.
        attempt_tool host action budget (attempt + 1) e (transient_event action (attempt + 1) e s)
          r.0)
      (λ a. itself s)
      (λ e.
        let h =
          attempt_tool-same host action budget (attempt + 1) e
            (transient_event action (attempt + 1) e s) r.0 in
        record {
          step_count = h.step_count;
          status = h.status;
          stop_reason = h.stop_reason;
          messages = h.messages;
          steps = h.steps;
          run_id = h.run_id;
        })

-- A tool call executes a tool at most `max_tool_retries` times, whatever the tool does, and not at
-- all when the tool is not in the registry.
pub execute_tool-count :
    {W : Type 0} (host : Host W) (max_tool_retries : ℕ) (action : ToolAction) (s : AgentState)
    (n : ℕ) (w : W)
    → (execute_tool (counted host) max_tool_retries action s (n, w)).0.0
      ≤ n + (if is_in action.tool_name host.tools then max_tool_retries else 0)
unfolding execute_tool
execute_tool-count host max_tool_retries action s n w =
    ground
      (arith, attempt_tool-count host action max_tool_retries 0 "" (tool_started host action s) n w)

-- The state after a tool call runs on, or the run failed with a non-retryable error; the history
-- and the trajectory are those before.
pub record IsAfterTool (s t : AgentState) : Type 0 where
  pub step_count : t.step_count ≡ s.step_count
  pub messages : t.messages ≡ s.messages
  pub steps : t.steps ≡ s.steps
  pub verdict :
      ((t.status ≡ s.status) × (t.stop_reason ≡ s.stop_reason))
      ⊎ ((t.status ≡ RunStatus.failed) × (t.stop_reason ≡ some Reason.non_retryable_error))

conclude-IsAfterTool :
    (action : ToolAction) (a : Attempts) (s t : AgentState)
    → IsSame s t
    → IsAfterTool s (conclude action a t).0
unfolding conclude
conclude-IsAfterTool action (Attempts.success output) s t h = record {
  step_count = h.step_count;
  messages = h.messages;
  steps = h.steps;
  verdict = inl (h.status, h.stop_reason);
}
conclude-IsAfterTool action (Attempts.left e) s t h = record {
  step_count = h.step_count;
  messages = h.messages;
  steps = h.steps;
  verdict = inl (h.status, h.stop_reason);
}
conclude-IsAfterTool action (Attempts.exhausted attempt last) s t h = record {
  step_count = h.step_count;
  messages = h.messages;
  steps = h.steps;
  verdict = inr (refl, refl);
}

pub execute_tool-IsAfterTool :
    {W : Type 0} (host : Host W) (max_tool_retries : ℕ) (action : ToolAction) (s : AgentState)
    (w : W)
    → IsAfterTool s (execute_tool host max_tool_retries action s w).1
unfolding execute_tool
execute_tool-IsAfterTool {W = W} host max_tool_retries action s w =
    let t = tool_started host action s in
    let r = attempt_tool host action max_tool_retries 0 "" t w in
    let h = attempt_tool-same host action max_tool_retries 0 "" t w in
    elim (is_in action.tool_name host.tools)
      as (λ b.
        IsAfterTool s
          (if◌then◌else◌ {A = W × AgentState × Execution} b
            (r.0, (conclude action r.2 r.1).0, (conclude action r.2 r.1).1)
            (
              w,
              t,
              Execution.unknown
                  (host.key_error_text ("Unknown tool: '" <> action.tool_name <> "'")),
            )).1) [
              | true ↦ conclude-IsAfterTool action r.2 s r.1 (record {
                step_count = h.step_count;
                status = h.status;
                stop_reason = h.stop_reason;
                messages = h.messages;
                steps = h.steps;
                run_id = h.run_id;
              })
              | false ↦ record {
                step_count = refl;
                messages = refl;
                steps = refl;
                verdict = inl (refl, refl);
              }
            ]
