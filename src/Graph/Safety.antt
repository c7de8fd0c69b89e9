-- ===== src/Graph/Safety.antt =====
-- A specification that crosses a safety boundary never ends as completed.
use auditable_scientific_age.Prelude.{
  ℕ, true, Option, none, some, any, ◌≡◌, ◌∙◌, arith, last?, subst, sym,
}
use auditable_scientific_age.Scientific.Modelspec.{ModelSpec}
use auditable_scientific_age.Scientific.Validators.{Diagnostic}
use auditable_scientific_age.Scientific.Executor.{StepResult, execute_plan_step}
use auditable_scientific_age.Scientific.Compiler.{ExecutionPlan, ExecutionStep, compile_plan}
use auditable_scientific_age.Scientific.Repairs.{RepairOutcome, RepairProposal, attempt_auto_repair}
use auditable_scientific_age.Graph.State.{MacroAgentState, Status, list_of}
use auditable_scientific_age.Graph.Nodes.{
  Environment, validate_with, after_fit, execute_third, compile_with, after_repair, repaired_update,
  repair_with, restored_engine, is_blocking, finalize_report_node, validate_spec_node,
  compile_and_execute_node, repair_spec_node, validated, third?,
}
use auditable_scientific_age.Graph.Edges.{
  Route, decide_next_scientific_action, decide_after_execution,
}
use auditable_scientific_age.Graph.Builder.{Config, Node, target, settle, apply_update, step, run}
use auditable_scientific_age.Graph.Boundary.{
  crosses_boundary, all_diagnostics-is_blocking, SameBoundary, attempt_auto_repair-SameBoundary,
  crosses_boundary-cong,
}
use auditable_scientific_age.Graph.Runs.{run-keeps}

abbrev Crosses : Option ModelSpec → Type 0
Crosses none = ⊥
Crosses (some spec) = crosses_boundary spec ≡ true

-- the diagnostics hold a blocking error
abbrev HasBlocking : MacroAgentState → Type 0
HasBlocking s = any is_blocking (list_of s.diagnostics) ≡ true

-- What holds of a run before each node and at its end.
abbrev IsGuarded : Config → Type 0
IsGuarded (Config.at Node.generate_spec s) = ⊥
IsGuarded (Config.at Node.validate_spec s) = Crosses s.model_spec
IsGuarded (Config.at Node.compile_and_execute s) = Crosses s.model_spec × HasBlocking s
IsGuarded (Config.at Node.repair_spec s) = Crosses s.model_spec
IsGuarded (Config.at Node.finalize_report s) = HasBlocking s
IsGuarded (Config.ended s) = s.status ≡ some Status.failed
IsGuarded Config.crashed = Unit {0}

target-IsGuarded :
    (r : Route) (s : MacroAgentState)
    → Crosses s.model_spec
    → HasBlocking s
    → IsGuarded (Config.at (target r) s)
target-IsGuarded Route.repair_spec s c b = c
target-IsGuarded Route.compile_and_execute s c b = (c, b)
target-IsGuarded Route.finalize_report s c b = b

validate-IsGuarded :
    (s : MacroAgentState) (o : Option ModelSpec)
    → Crosses o
    → Crosses s.model_spec
    → IsGuarded (settle Node.validate_spec s (validate_with s o))
unfolding settle validate_with
validate-IsGuarded s none h c = absurd h
validate-IsGuarded s (some spec) h c =
    target-IsGuarded (decide_next_scientific_action (apply_update s (validated s spec)))
      (apply_update s (validated s spec)) c (all_diagnostics-is_blocking spec ∙ h)

after_fit-IsGuarded :
    (s : MacroAgentState) (plan : ExecutionPlan) (r : StepResult)
    → Crosses s.model_spec
    → HasBlocking s
    → IsGuarded (settle Node.compile_and_execute s (some (after_fit s plan r)))
unfolding settle after_fit
after_fit-IsGuarded s plan (StepResult.numerical_failure c d) h b =
    unfold decide_after_execution in h
after_fit-IsGuarded s plan r h b =
    target-IsGuarded (decide_after_execution (apply_update s (after_fit s plan r)))
      (apply_update s (after_fit s plan r)) h b

execute_third-IsGuarded :
    (s : MacroAgentState) (plan : ExecutionPlan) (o : Option ExecutionStep)
    → Crosses s.model_spec
    → HasBlocking s
    → IsGuarded (settle Node.compile_and_execute s (execute_third s plan o))
unfolding settle execute_third
execute_third-IsGuarded s plan none h b = tt
execute_third-IsGuarded s plan (some fit) h b =
    after_fit-IsGuarded s plan (execute_plan_step fit) h b

compile-IsGuarded :
    (env : Environment) (s : MacroAgentState) (o : Option ModelSpec)
    → Crosses s.model_spec
    → HasBlocking s
    → IsGuarded (settle Node.compile_and_execute s (compile_with env s o))
unfolding compile_with
compile-IsGuarded env s none h b = unfold settle in tt
compile-IsGuarded env s (some spec) h b =
    execute_third-IsGuarded s (compile_plan env.plan_hex spec)
      (third? (compile_plan env.plan_hex spec).steps) h b

repaired-IsGuarded :
    (s : MacroAgentState) (spec : ModelSpec) (o : Option RepairProposal)
    → crosses_boundary spec ≡ true
    → IsGuarded (settle Node.repair_spec s (repaired_update s spec o))
unfolding settle repaired_update
repaired-IsGuarded s spec none h = tt
repaired-IsGuarded s spec (some p) h = h

after_repair-IsGuarded :
    (s : MacroAgentState) (spec : ModelSpec) (o : RepairOutcome)
    → SameBoundary spec o
    → crosses_boundary spec ≡ true
    → Crosses s.model_spec
    → IsGuarded (settle Node.repair_spec s (after_repair s o))
unfolding settle after_repair
after_repair-IsGuarded s spec RepairOutcome.type_error k h c = tt
after_repair-IsGuarded s spec RepairOutcome.refused k h c = c
after_repair-IsGuarded s spec (RepairOutcome.repaired spec' e) k h c =
    repaired-IsGuarded s spec' (last? e.repair_history)
      (crosses_boundary-cong spec spec' k.0 k.1 ∙ h)

repair-IsGuarded :
    (env : Environment) (s : MacroAgentState) (d : Option Diagnostic) (o : Option ModelSpec)
    → Crosses o
    → Crosses s.model_spec
    → IsGuarded (settle Node.repair_spec s (repair_with env s d o))
unfolding repair_with
repair-IsGuarded env s none o h c = unfold settle in c
repair-IsGuarded env s (some d) none h c = absurd h
repair-IsGuarded env s (some d) (some spec) h c =
    after_repair-IsGuarded s spec (attempt_auto_repair (restored_engine s) env.now spec d)
      (attempt_auto_repair-SameBoundary (restored_engine s) env.now spec d) h c

finalize-IsGuarded :
    (s : MacroAgentState)
    → HasBlocking s
    → IsGuarded (settle Node.finalize_report s (finalize_report_node s))
unfolding settle finalize_report_node
finalize-IsGuarded s b = ground arith

step-IsGuarded : (env : Environment) (c : Config) → IsGuarded c → IsGuarded (step env c)
unfolding step
step-IsGuarded env (Config.at Node.generate_spec s) h = absurd h
step-IsGuarded env (Config.at Node.validate_spec s) h =
    unfold validate_spec_node in validate-IsGuarded s s.model_spec h h
step-IsGuarded env (Config.at Node.compile_and_execute s) h =
    unfold compile_and_execute_node in compile-IsGuarded env s s.model_spec h.0 h.1
step-IsGuarded env (Config.at Node.repair_spec s) h =
    unfold repair_spec_node in
    repair-IsGuarded env s (last? (list_of s.diagnostics)) s.model_spec h h
step-IsGuarded env (Config.at Node.finalize_report s) h = finalize-IsGuarded s h
step-IsGuarded env (Config.ended s) h = h
step-IsGuarded env Config.crashed h = h

-- A specification that crosses a safety boundary (its dataset is unknown, its rationale speaks of a
-- leak or the test set, or its dataset id holds an unsafe path) is never reported as completed: from
-- its validation on, however long the run, whatever is repaired and executed on the way and
-- whatever other diagnostics there are, a run that ends has the status failed.
pub boundary_never_completes :
    (n : ℕ) (envs : ℕ → Environment) (s s' : MacroAgentState) (spec : ModelSpec)
    → s.model_spec ≡ some spec
    → crosses_boundary spec ≡ true
    → run n envs (Config.at Node.validate_spec s) ≡ Config.ended s'
    → s'.status ≡ some Status.failed
boundary_never_completes n envs s s' spec m h e = subst IsGuarded e (
    run-keeps IsGuarded step-IsGuarded n envs (Config.at Node.validate_spec s)
      (subst Crosses (sym m) h))
