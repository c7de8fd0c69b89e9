-- ===== src/Evals/Stream/AllPassed.antt =====
-- What "all_passed" in the event stream means.
use auditable_scientific_age.Prelude.{
  ℕ, String, Bool, false, not, ◌&&◌, ◌||◌, Option, none, some, List, [], ◌∷◌, any, map, ltb, ◌==◌,
  eq_iff, ◌≡◌, refl, arith, ap, ◌∙◌, sym, subst, inl, inr, Bool-cases,
}
use auditable_scientific_age.Runtime.Models.{Value, TraceEvent}
use auditable_scientific_age.Evals.Graders.{or_else, is_gate, grade_policy, grade_efficiency}
use auditable_scientific_age.Evals.Graders.Sequence.{is_sequenced, grade_trajectory-is_sequenced}
use auditable_scientific_age.Evals.Harness.{
  EvalTask, TrialWorld, RunOutcome, finished, raised, flat_trace,
}
use auditable_scientific_age.Evals.Harness.Success.{file_is_there}
use auditable_scientific_age.Evals.Stream.{
  grade_outcome, steps_allowed, graded, run_single_trial, all_passed,
}

-- The event of a gate that blocked the run.
abbrev pub is_blocked : TraceEvent → Bool
is_blocked e = e.event_type == "security_gate_blocked" || e.event_type == "tool_validation_failed"

-- A run that returned, with no submission before an approval, no blocked gate, its expected file, and
-- fewer steps than its task allows.
abbrev pub is_well_run : TrialWorld → EvalTask → RunOutcome → Bool
is_well_run w task (raised msg) = false
is_well_run w task (finished state) =
    is_sequenced (map (λ e. some e.event_type) state.trace_events)
    && (not (any is_blocked state.trace_events)
        && (file_is_there w.path_exists task.file_exists
            && ltb state.step_count (steps_allowed task.max_steps)))

grade_outcome-file_is_there :
    (path_exists : String → Bool) (file : Option String)
    → (grade_outcome path_exists file).passed ≡ file_is_there path_exists file
unfolding grade_outcome
grade_outcome-file_is_there path_exists none = refl
grade_outcome-file_is_there path_exists (some path) = ground arith

grade_efficiency_lem :
    (step_count max_steps : ℕ)
    → (grade_efficiency step_count max_steps).passed ≡ ltb step_count max_steps
unfolding grade_efficiency
grade_efficiency_lem step_count max_steps = ground arith

is_gate-name :
    (name : String)
    → is_gate (or_else (some name) none)
      ≡ (name == "security_gate_blocked" || name == "tool_validation_failed")
is_gate-name name = elim (Bool-cases (name == "")) [
  | inl e ↦
      subst
        (λ s.
          is_gate (or_else (some s) none)
          ≡ (s == "security_gate_blocked" || s == "tool_validation_failed"))
        (sym ((eq_iff name "").0 e)) refl
  | inr other ↦ rw other refl
]

module _ (show_payload : List (String × Value) → String) where
  grade_policy-is_blocked :
      (events : List TraceEvent)
      → (grade_policy (map (flat_trace show_payload) events)).passed ≡ not (any is_blocked events)
  unfolding grade_policy
  grade_policy-is_blocked [] = refl
  grade_policy-is_blocked (e ∷ events) =
      ground (arith, is_gate-name e.event_type, grade_policy-is_blocked events)

  names_lem :
      (events : List TraceEvent)
      → map (λ e. or_else e.event e.event_type) (map (flat_trace show_payload) events)
        ≡ map (λ e. some e.event_type) events
  names_lem [] = refl
  names_lem (e ∷ events) = ap (λ rest. some e.event_type ∷ rest) (names_lem events)

  graded-is_well_run :
      (w : TrialWorld) (task : EvalTask) (i : ℕ) (o : RunOutcome)
      → all_passed (graded show_payload w task i o) ≡ is_well_run w task o
  unfolding all_passed
  graded-is_well_run w task i (raised msg) = refl
  graded-is_well_run w task i (finished state) =
      let flat = map (flat_trace show_payload) state.trace_events in
      ground (
        arith,
        grade_trajectory-is_sequenced flat ∙ ap is_sequenced (names_lem state.trace_events),
        grade_policy-is_blocked state.trace_events,
        grade_outcome-file_is_there w.path_exists task.file_exists,
        grade_efficiency_lem state.step_count (steps_allowed task.max_steps),
      )

  -- The stream calls a trial all passed exactly when its runtime returned a state, whatever its status,
  -- in whose trace no job was submitted before the first human approval and no gate was blocked, the
  -- file that the task expects, if any, exists, and the steps are fewer than the task's limit.
  pub run_single_trial-is_well_run :
      (w : TrialWorld) (task : EvalTask) (i : ℕ)
      → all_passed (run_single_trial show_payload w task i)
        ≡ is_well_run w task (w.run task.max_steps task.user_input)
  unfolding run_single_trial
  run_single_trial-is_well_run w task i =
      graded-is_well_run w task i (w.run task.max_steps task.user_input)
