-- ===== src/Graph/Nodes/Execute.antt =====
-- nodes.py: `compile_and_execute_node`.
use auditable_scientific_age.Prelude.{◌+◌, true, Option, none, some, List, [], ◌∷◌}
use auditable_scientific_age.Scientific.Modelspec.{ModelSpec}
use auditable_scientific_age.Scientific.Validators.{Severity, Stage}
use auditable_scientific_age.Scientific.Compiler.{ExecutionPlan, ExecutionStep, compile_plan}
use auditable_scientific_age.Scientific.Executor.{StepResult, execute_plan_step}
use auditable_scientific_age.Graph.State.{MacroAgentState, Event, Detail}
use auditable_scientific_age.Graph.Nodes.Interface.{
  Environment, Update, no_update, current_step, event_at,
}

-- `steps[2]`
abbrev pub third? : List ExecutionStep → Option ExecutionStep
third? (_ ∷ _ ∷ s ∷ _) = some s
third? _ = none

abbrev compiled_event : MacroAgentState → Event
compiled_event state =
    event_at "plan_compiled_and_executed" "compile_and_execute" Detail.plain (current_step state)

-- The update, by the result of the fitting step.
unfoldable pub after_fit : MacroAgentState → ExecutionPlan → StepResult → Update
after_fit state plan (StepResult.numerical_failure error_code detail) = record no_update {
  execution_plan = some (some plan);
  diagnostics = some (
      record {
        stage = Stage.execution;
        severity = Severity.error;
        code = error_code;
        message = detail;
        repairable = true;
        evidence = [];
      }
      ∷ []);
  trace_events = some (
      compiled_event state
      ∷ event_at "numerical_failure_captured" "compile_and_execute" (Detail.code error_code)
          (current_step state + 1)
      ∷ []);
}
after_fit state plan result = record no_update {
  execution_plan = some (some plan);
  trace_events = some (compiled_event state ∷ []);
}

-- The plan, and the step that the node executes.
unfoldable pub execute_third :
    MacroAgentState → ExecutionPlan → Option ExecutionStep → Option Update
unfolding execute_plan_step after_fit
execute_third state plan none = none
execute_third state plan (some fit) = some (after_fit state plan (execute_plan_step fit))

unfoldable pub compile_with : Environment → MacroAgentState → Option ModelSpec → Option Update
unfolding compile_plan execute_third
compile_with env state none = none
compile_with env state (some spec) =
    let plan = compile_plan env.plan_hex spec in execute_third state plan (third? plan.steps)

unfoldable pub compile_and_execute_node : Environment → MacroAgentState → Option Update
unfolding compile_with
compile_and_execute_node env state = compile_with env state state.model_spec
