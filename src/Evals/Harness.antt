-- ===== src/Evals/Harness.antt =====
-- harness.py and the models of failure_episode.py: a suite of isolated trials and the failure episode
-- of one. The runtime that the factory makes, the clock and the file system are parameters, for each
-- trial. A payload is printed by a parameter, and a path as it is given.
pub mod Success
use auditable_scientific_age.Prelude.{
  ℕ, zero, suc, ◌+◌, String, Bool, true, false, Option, none, some, List, [], ◌∷◌, ◌++◌, map, take,
  if◌then◌else◌, ◌==◌,
}
use auditable_scientific_age.Prelude.Text.{◌<>◌, str}
use auditable_scientific_age.Runtime.Models.{AgentState, TraceEvent, status_text, Value}
use auditable_scientific_age.Evals.Graders.{TrialEvent, GraderResult, or_else, is_named}
use auditable_scientific_age.Evals.Trials.{TrialResult, is_success}

-- The keys of a task that the harness reads.
pub record EvalTask : Type 0 where
  pub task_id : String
  pub user_input : String
  -- `expected_outcome["file_exists"]`
  pub file_exists : Option String
  -- `limits["max_steps"]`
  pub max_steps : Option ℕ

-- What `runtime.run` does: it returns a state or raises an exception with a message.
pub data RunOutcome : Type 0 where
  finished : AgentState → RunOutcome
  raised : String → RunOutcome

pub record TrialWorld : Type 0 where
  pub timestamp : ℕ
  pub duration_ms : ℕ
  pub failed_id : String
  -- by the limit on the steps and the input
  pub run : Option ℕ → String → RunOutcome
  pub path_exists : String → Bool

pub record FailureEpisode : Type 0 where
  pub episode_id : String
  pub task_id : String
  pub run_id : String
  pub trial_id : String
  pub failure_type : String
  pub error_message : Option String
  pub failed_node : Option String
  pub failed_step : ℕ
  pub trace_summary : List String
  pub root_cause_hypothesis : Option String
  pub candidate_patches : List String

abbrev pub failure_tool_argument : String
failure_tool_argument = "tool_argument_failure"

abbrev pub failure_max_steps_exceeded : String
failure_max_steps_exceeded = "max_steps_exceeded_failure"

abbrev pub failure_unknown : String
failure_unknown = "unknown_failure"

module _ (show_payload : List (String × Value) → String) where
  -- `e.model_dump()`
  abbrev pub flat_trace : TraceEvent → TrialEvent
  flat_trace e = record {
    event = none;
    event_type = some e.event_type;
    step = some e.step;
    payload = some (show_payload e.payload);
  }

  abbrev pub trial_of : TrialWorld → EvalTask → ℕ → RunOutcome → TrialResult
  trial_of w task trial_idx (finished state) = record {
    trial_id = "trial_" <> task.task_id <> "_" <> str w.timestamp <> "_" <> str trial_idx;
    task_id = task.task_id;
    run_id = state.run_id;
    status = status_text state.status;
    final_answer = state.final_answer;
    trace_events = map flat_trace state.trace_events;
    grader_results = [];
    duration_ms = w.duration_ms;
    step_count = state.step_count;
  }
  trial_of w task trial_idx (raised msg) = record {
    trial_id = "trial_" <> task.task_id <> "_" <> str w.timestamp <> "_" <> str trial_idx;
    task_id = task.task_id;
    run_id = "failed_run_" <> w.failed_id;
    status = "failed";
    final_answer = some ("Fatal Execution Error: " <> msg);
    trace_events =
        record {
          event = none;
          event_type = some "fatal_crash";
          step = some 0;
          payload = some (show_payload (("msg", Value.text msg) ∷ []));
        }
        ∷ [];
    grader_results = [];
    duration_ms = w.duration_ms;
    step_count = 0;
  }

  unfoldable pub execute_trial : TrialWorld → EvalTask → ℕ → TrialResult
  execute_trial w task trial_idx = trial_of w task trial_idx (w.run task.max_steps task.user_input)

  abbrev result_of : String → Bool → String → GraderResult
  result_of grader_name passed reason = record {
    grader_name = grader_name;
    passed = passed;
    score = if passed then 1 else 0;
    reason = reason;
  }

  abbrev pub truth_text : Bool → String
  truth_text true = "True"
  truth_text false = "False"

  -- Rule 2, for a task that expects a file.
  abbrev file_results : (String → Bool) → Option String → List GraderResult
  file_results path_exists none = []
  file_results path_exists (some path) =
      result_of "file_outcome_grader" (path_exists path)
        ("Target file " <> path <> " exists: " <> truth_text (path_exists path))
      ∷ []

  -- The body of the loops: a trial with its grades.
  unfoldable pub graded_trial : TrialWorld → EvalTask → ℕ → TrialResult
  unfolding execute_trial
  graded_trial w task trial_idx =
      let result = execute_trial w task trial_idx in
      record result {
        grader_results =
            result_of "status_completed_grader" (result.status == "completed")
              ("Agent status: " <> result.status)
            ∷ file_results w.path_exists task.file_exists;
      }

  module _ (world : EvalTask → ℕ → TrialWorld) where
    -- `for i in range(num_trials)`, from `i` on
    unfoldable pub run_trials : EvalTask → ℕ → ℕ → List TrialResult
    unfolding graded_trial
    run_trials task i zero = []
    run_trials task i (suc left) = graded_trial (world task i) task i ∷ run_trials task (suc i) left

    unfoldable pub run_task_suite : List EvalTask → ℕ → List TrialResult
    unfolding run_trials
    run_task_suite [] num_trials = []
    run_task_suite (task ∷ tasks) num_trials =
        run_trials task 0 num_trials ++ run_task_suite tasks num_trials

abbrev text_or_none : Option String → String
text_or_none none = "None"
text_or_none (some text) = text

abbrev step_text : Option ℕ → String
step_text none = "None"
step_text (some n) = str n

-- `f"[{e.get('step')}] {e.get('event_type') or e.get('event')}"`
abbrev pub summary_event : TrialEvent → String
summary_event e = "[" <> step_text e.step <> "] " <> text_or_none (or_else e.event_type e.event)

abbrev payload_text : Option String → String
payload_text none = "{}"
payload_text (some text) = text

-- The failure type and the message, from the first event of a failed validation if there is one.
unfoldable pub scan_trace : String → List TrialEvent → String × String
scan_trace err_msg [] = (failure_unknown, err_msg)
scan_trace err_msg (e ∷ events) =
    let later = scan_trace err_msg events in
    if is_named "tool_validation_failed" e.event_type
    then (failure_tool_argument, "Tool validation blocked the call: " <> payload_text e.payload)
    else later

-- `trial.final_answer or "Unknown error"`
abbrev answer_or_unknown : Option String → String
answer_or_unknown none = "Unknown error"
answer_or_unknown (some text) = if text == "" then "Unknown error" else text

unfoldable pub classify_failure : TrialResult → String × String
unfolding scan_trace
classify_failure trial =
    let err_msg = answer_or_unknown trial.final_answer in
    let scanned = scan_trace err_msg trial.trace_events in
    if trial.status == "max_steps_exceeded" then (failure_max_steps_exceeded, err_msg) else scanned

-- The default id of the episode is an argument; its time of creation is left out.
unfoldable pub extract_failure_episode : String → TrialResult → Option FailureEpisode
unfolding is_success classify_failure
extract_failure_episode episode_id trial =
    let (ftype, err_msg) = classify_failure trial in
    if is_success trial
    then none
    else some (record {
      episode_id = episode_id;
      task_id = trial.task_id;
      run_id = trial.run_id;
      trial_id = trial.trial_id;
      failure_type = ftype;
      error_message = some err_msg;
      failed_node = none;
      failed_step = trial.step_count;
      trace_summary = take 15 (map summary_event trial.trace_events);
      root_cause_hypothesis = some (
          "The agent terminated with status "
          <> trial.status
          <> " at step "
          <> str trial.step_count
          <> ".");
      candidate_patches = [];
    })
