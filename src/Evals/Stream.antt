-- ===== src/Evals/Stream.antt =====
-- runner.py and graders.py of evals/: the trial of an asynchronous run with its four graders, and what the
-- event stream says of it. A task without a step limit has the graders' default.
pub mod AllPassed
use auditable_scientific_age.Prelude.{
  ℕ, String, Bool, true, false, ◌&&◌, Option, none, some, List, [], ◌∷◌, all, if◌then◌else◌,
}
use auditable_scientific_age.Prelude.Text.{◌<>◌, str}
use auditable_scientific_age.Runtime.Models.{Value}
use auditable_scientific_age.Evals.Graders.{
  GraderResult, passing, failing_with, grade_trajectory, grade_policy, grade_efficiency,
}
use auditable_scientific_age.Evals.Trials.{TrialResult}
use auditable_scientific_age.Evals.Harness.{
  EvalTask, TrialWorld, RunOutcome, finished, raised, trial_of,
}

-- `OutcomeGrader.grade`, on the expected file
unfoldable pub grade_outcome : (String → Bool) → Option String → GraderResult
grade_outcome path_exists none =
    passing "environmental_outcome_grader"
      "The observed external state matches the expected outcome."
grade_outcome path_exists (some path) =
    if path_exists path
    then passing "environmental_outcome_grader"
        "The observed external state matches the expected outcome."
    else failing_with "environmental_outcome_grader"
        ("External outcome missing: the expected file does not exist: " <> path)

-- `limits.get("max_steps", 5)`
abbrev pub steps_allowed : Option ℕ → ℕ
steps_allowed none = 5
steps_allowed (some max_steps) = max_steps

module _ (show_payload : List (String × Value) → String) where
  -- The trial of a run that returned, and of one that raised an exception.
  abbrev graded : TrialWorld → EvalTask → ℕ → RunOutcome → TrialResult
  graded w task trial_idx (finished state) =
      let trial = trial_of show_payload w task trial_idx (finished state) in
      record trial {
        grader_results =
            grade_trajectory trial.trace_events
            ∷ grade_policy trial.trace_events
            ∷ grade_outcome w.path_exists task.file_exists
            ∷ grade_efficiency trial.step_count (steps_allowed task.max_steps)
            ∷ [];
      }
  graded w task trial_idx (raised msg) = record {
    trial_id = "trial_" <> task.task_id <> "_" <> str w.timestamp <> "_" <> str trial_idx;
    task_id = task.task_id;
    run_id = "failed_async";
    status = "failed";
    final_answer = some msg;
    trace_events = [];
    grader_results = [];
    duration_ms = w.duration_ms;
    step_count = 0;
  }

  -- `run_single_trial_async`, inside the semaphore
  unfoldable pub run_single_trial : TrialWorld → EvalTask → ℕ → TrialResult
  unfolding grade_outcome grade_trajectory grade_policy grade_efficiency
  run_single_trial w task trial_idx = graded w task trial_idx (w.run task.max_steps task.user_input)

-- `all(g.passed for g in ...) if ... else False`
unfoldable pub all_passed : TrialResult → Bool
all_passed trial = elim trial.grader_results [
  | [] ↦ false
  | g ∷ graders ↦ g.passed && all (λ h. h.passed) graders
]
