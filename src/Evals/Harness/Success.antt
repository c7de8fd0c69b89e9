-- ===== src/Evals/Harness/Success.antt =====
-- Which trials of a suite leave a failure episode.
use auditable_scientific_age.Prelude.{
  all-append, ℕ, zero, suc, ◌*◌, String, Bool, true, false, ◌&&◌, Option, none, some, List, [], ◌∷◌,
  length, length-append, all, ◌==◌, ◌≡◌, refl, arith, ◌∙◌,
}
use auditable_scientific_age.Runtime.Models.{Value, RunStatus, status_text}
use auditable_scientific_age.Evals.Trials.{TrialResult, is_success}
use auditable_scientific_age.Evals.Harness.{
  EvalTask, TrialWorld, RunOutcome, finished, raised, trial_of, file_results, execute_trial,
  graded_trial, run_trials, run_task_suite, extract_failure_episode,
}

abbrev pub is_completed : RunStatus → Bool
is_completed RunStatus.completed = true
is_completed _ = false

status_text-is_completed : (s : RunStatus) → (status_text s == "completed") ≡ is_completed s
status_text-is_completed RunStatus.running = refl
status_text-is_completed RunStatus.completed = refl
status_text-is_completed RunStatus.max_steps_exceeded = refl
status_text-is_completed RunStatus.failed = refl
status_text-is_completed RunStatus.cancelled = refl

abbrev pub completes : RunOutcome → Bool
completes (finished state) = is_completed state.status
completes (raised msg) = false

abbrev pub file_is_there : (String → Bool) → Option String → Bool
file_is_there path_exists none = true
file_is_there path_exists (some path) = path_exists path

-- The runtime returned a completed state and the expected file exists.
abbrev pub succeeds : TrialWorld → EvalTask → Bool
succeeds w task =
    completes (w.run task.max_steps task.user_input) && file_is_there w.path_exists task.file_exists

abbrev pub no_failure : TrialResult → Bool
no_failure t = elim (extract_failure_episode "" t) [ none ↦ true | some e ↦ false ]

no_failure-is_success : (t : TrialResult) → no_failure t ≡ is_success t
unfolding extract_failure_episode
no_failure-is_success t = ground arith

module _ (show_payload : List (String × Value) → String) (world : EvalTask → ℕ → TrialWorld) where
  status-completes :
      (w : TrialWorld) (task : EvalTask) (i : ℕ) (o : RunOutcome)
      → ((trial_of show_payload w task i o).status == "completed") ≡ completes o
  status-completes w task i (raised msg) = refl
  status-completes w task i (finished state) = status_text-is_completed state.status

  file_results-file_is_there :
      (path_exists : String → Bool) (file : Option String)
      → all (λ g. g.passed) (file_results show_payload path_exists file)
        ≡ file_is_there path_exists file
  file_results-file_is_there path_exists none = refl
  file_results-file_is_there path_exists (some path) = ground arith

  graded_trial-succeeds :
      (w : TrialWorld) (task : EvalTask) (i : ℕ)
      → no_failure (graded_trial show_payload w task i) ≡ succeeds w task
  unfolding is_success graded_trial execute_trial
  graded_trial-succeeds w task i =
      no_failure-is_success (graded_trial show_payload w task i)
      ∙ ground (
        arith,
        status-completes w task i (w.run task.max_steps task.user_input),
        file_results-file_is_there w.path_exists task.file_exists,
      )

  -- The trials of a task, from `i` on, that succeed.
  abbrev pub all_succeed : EvalTask → ℕ → ℕ → Bool
  all_succeed task i zero = true
  all_succeed task i (suc left) = succeeds (world task i) task && all_succeed task (suc i) left

  run_trials-all_succeed :
      (task : EvalTask) (i left : ℕ)
      → (length (run_trials show_payload world task i left) ≡ left)
        × (all no_failure (run_trials show_payload world task i left) ≡ all_succeed task i left)
  unfolding run_trials
  run_trials-all_succeed task i zero = (refl, refl)
  run_trials-all_succeed task i (suc left) =
      let (count, same) = run_trials-all_succeed task (suc i) left in
      (omega (arith, count), ground (arith, graded_trial-succeeds (world task i) task i, same))

  -- A suite has one result for each trial of each task, and none of them leaves a failure episode
  -- exactly when every trial's runtime returned a completed state and its expected file, if the task
  -- names one, exists.
  pub run_task_suite-all_succeed :
      (tasks : List EvalTask) (num_trials : ℕ)
      → (length (run_task_suite show_payload world tasks num_trials) ≡ length tasks * num_trials)
        × (all no_failure (run_task_suite show_payload world tasks num_trials)
            ≡ all (λ task. all_succeed task 0 num_trials) tasks)
  unfolding run_task_suite
  run_task_suite-all_succeed [] num_trials = (omega arith, refl)
  run_task_suite-all_succeed (task ∷ tasks) num_trials =
      let one = run_trials show_payload world task 0 num_trials in
      let rest = run_task_suite show_payload world tasks num_trials in
      let (count, same) = run_trials-all_succeed task 0 num_trials in
      let (counts, all_same) = run_task_suite-all_succeed tasks num_trials in
      (
        grind (arith, length-append one rest, count, counts),
        ground (arith, all-append no_failure one rest, same, all_same),
      )
