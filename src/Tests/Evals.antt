-- ===== src/Tests/Evals.antt =====
-- Sample trials before the graders, the gates and the harness.
use auditable_scientific_age.Prelude.{
  ℕ, ◌*◌, ◌/◌, ◌≤◌, ◌<◌, min, String, true, false, none, some, List, [], ◌∷◌, length, all, ◌≡◌, ◌⊎◌,
  refl, arith, nat_eq, if◌then◌else◌,
}
use auditable_scientific_age.Prelude.Text.{contains}
use auditable_scientific_age.Runtime.Models.{AgentState, RunStatus}
use auditable_scientific_age.Evals.Graders.{GraderResult, passing, failing_with}
use auditable_scientific_age.Evals.Trials.{TrialResult, is_success}
use auditable_scientific_age.Evals.Regression.{generate_report}
use auditable_scientific_age.Evals.Regression.Gate.{generate_report-never_fails}
use auditable_scientific_age.Evals.Skills.{concerns, verify_skills_integrity}
use auditable_scientific_age.Evals.Skills.Integrity.{verify_skills_integrity-retains}
use auditable_scientific_age.Evals.Harness.{
  EvalTask, TrialWorld, RunOutcome, finished, run_task_suite,
}
use auditable_scientific_age.Evals.Harness.Success.{run_task_suite-all_succeed, no_failure}
use auditable_scientific_age.Evals.Stream.{run_single_trial, all_passed}
use auditable_scientific_age.Evals.Stream.AllPassed.{run_single_trial-is_well_run}
use auditable_scientific_age.Evals.Runner.{
  AsyncEvalRunner, Phase, acquire, new_runner, new_semaphore, runner_with, Step, Steps,
}
use auditable_scientific_age.Evals.Runner.Capacity.{IsBounded, Steps-IsBounded}
use auditable_scientific_age.Evals.Runner.Progress.{Steps_progress, is_returned, step_total}

abbrev trial_with : String → List GraderResult → TrialResult
trial_with task_id grader_results = record {
  trial_id = "t1";
  task_id = task_id;
  run_id = "r1";
  status = "completed";
  final_answer = some "done";
  trace_events = [];
  grader_results = grader_results;
  duration_ms = 1250;
  step_count = 3;
}

abbrev baseline : List TrialResult
baseline = trial_with "skill_fit_1" (passing "security_policy_grader" "fine" ∷ []) ∷ []

abbrev candidate : List TrialResult
candidate =
    trial_with "skill_fit_2" (failing_with "security_policy_grader" "blocked" ∷ []) ∷ baseline

-- A rate cut off after four digits.
abbrev rate : ℕ → ℕ → ℕ
rate passed count = if nat_eq passed count then 10000 else min 9999 (passed * 10000 / count)

rate_full : (n : ℕ) → 0 < n → rate n n ≡ 10000
rate_full n h = ground arith

rate_below : (p n : ℕ) → p < n → n ≤ 10000 → rate p n < 10000
rate_below p n h small = ground (arith, h)

rate_capped : (p n : ℕ) → p ≤ n → 0 < n → rate p n ≤ 10000
rate_capped p n h pos = ground arith

generate_report-never_fails_example :
    (generate_report rate
      (λ total count. total / count)
      (λ r. "some")
      []
      baseline
      candidate).is_improvement
    ≡ false
generate_report-never_fails_example =
    generate_report-never_fails rate (λ total count. total / count) (λ r. "some") rate_full
      rate_below rate_capped [] baseline candidate (omega arith)

verify_skills_integrity-retains_example :
    (verify_skills_integrity (("skill_fit", 5000) ∷ []) candidate).integrity_passed ≡ true
unfolding concerns contains is_success
verify_skills_integrity-retains_example =
    verify_skills_integrity-retains (("skill_fit", 5000) ∷ []) candidate refl

abbrev completed_state : AgentState
completed_state = record {
  run_id = "r1";
  messages = [];
  step_count = 3;
  status = RunStatus.completed;
  steps = [];
  trace_events = [];
  final_answer = some "done";
  stop_reason = none;
}

abbrev task : EvalTask
task = record {
  task_id = "task_arima_001";
  user_input = "Fit it";
  file_exists = some "series/monthly_sales.csv";
  max_steps = some 5;
}

-- A run that the rate limit of the model ended.
abbrev limited_state : AgentState
limited_state = record completed_state { status = RunStatus.failed; final_answer = some "HTTP 429" }

abbrev limited_world : TrialWorld
limited_world = record {
  timestamp = 1700000000;
  duration_ms = 1250;
  failed_id = "0a1b2c3d";
  run = λ max_steps input. finished limited_state;
  path_exists = λ path. true;
}

run_single_trial-is_well_run_example :
    all_passed (run_single_trial (λ payload. "{}") limited_world task 0) ≡ true
run_single_trial-is_well_run_example =
    run_single_trial-is_well_run (λ payload. "{}") limited_world task 0

-- The first trial completes, any other raises; the file is there.
abbrev world : EvalTask → ℕ → TrialWorld
world t i = record {
  timestamp = 1700000000;
  duration_ms = 1250;
  failed_id = "0a1b2c3d";
  run =
      λ max_steps input. if nat_eq i 0 then finished completed_state else RunOutcome.raised "boom";
  path_exists = λ path. true;
}

run_task_suite-all_succeed_example :
    (length (run_task_suite (λ payload. "{}") world (task ∷ []) 2) ≡ 2)
    × (all no_failure (run_task_suite (λ payload. "{}") world (task ∷ []) 2) ≡ false)
run_task_suite-all_succeed_example =
    run_task_suite-all_succeed (λ payload. "{}") world (task ∷ []) 2

-- One of two trials has entered a runner for one at a time.
abbrev runner : AsyncEvalRunner
runner = runner_with 1 (record { value = 1; allocated = 1 }) (Phase.executing ∷ Phase.waiting ∷ [])

abbrev to_runner : Steps (new_runner 1 ("a" ∷ "b" ∷ [])) runner
unfolding new_runner new_semaphore acquire
to_runner =
    Steps.more (new_runner 1 ("a" ∷ "b" ∷ [])) (new_runner 1 ("a" ∷ "b" ∷ [])) runner
      (Steps.start (new_runner 1 ("a" ∷ "b" ∷ [])))
      (Step.enter 1 (record { value = 1; allocated = 0 }) (record { value = 1; allocated = 1 }) []
        (Phase.waiting ∷ []) refl)

Steps-IsBounded_example : IsBounded 1 runner
Steps-IsBounded_example = Steps-IsBounded 1 ("a" ∷ "b" ∷ []) runner to_runner

Steps_progress_example :
    ((all is_returned runner.trials ≡ true) ⊎ ((r' : AsyncEvalRunner) × Step runner r'))
    × (step_total to_runner ≤ 8)
Steps_progress_example = Steps_progress 1 ("a" ∷ "b" ∷ []) runner to_runner
