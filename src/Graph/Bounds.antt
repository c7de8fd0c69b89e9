-- ===== src/Graph/Bounds.antt =====
-- The repair budget over whole runs of the graph.
use auditable_scientific_age.Prelude.{
  ℕ, ◌+◌, ◌≤◌, Bool, true, false, Option, none, some, List, [], ◌∷◌, length, length-append, last?,
  ◌≡◌, refl, arith, String, subst, ap,
}
use auditable_scientific_age.Scientific.Modelspec.{ModelSpec}
use auditable_scientific_age.Scientific.Validators.{Diagnostic}
use auditable_scientific_age.Scientific.Executor.{StepResult, execute_plan_step}
use auditable_scientific_age.Scientific.Compiler.{ExecutionPlan, ExecutionStep, compile_plan}
use auditable_scientific_age.Scientific.Repairs.{RepairOutcome, RepairProposal, attempt_auto_repair}
use auditable_scientific_age.Scientific.Repairs.Budget.{length-attempt_auto_repair}
use auditable_scientific_age.Graph.State.{MacroAgentState, list_of, value_or}
use auditable_scientific_age.Graph.Reducers.{reduce_append}
use auditable_scientific_age.Graph.Nodes.{
  Environment, Update, generate_from, generate_spec_node, validate_with, after_fit, execute_third,
  compile_with, after_repair, repaired_update, repair_with, restored_engine, finalize_report_node,
  validate_spec_node, compile_and_execute_node, repair_spec_node, third?,
}
use auditable_scientific_age.Graph.Builder.{
  Config, Node, settle, arrive, next_node, apply_update, step, run_node, run_workflow, IsSaved,
  state_of,
}
use auditable_scientific_age.Graph.Runs.{run-keeps}

-- The trail is within the engine's budget, and the counter counts it.
pub record IsBounded (s : MacroAgentState) : Type 0 where
  pub within : length (list_of s.repair_history) ≤ 2
  pub counted : value_or s.repair_attempts 0 ≡ length (list_of s.repair_history)

abbrev pub ConfigIsBounded : Config → Type 0
ConfigIsBounded (Config.at n s) = IsBounded s
ConfigIsBounded (Config.ended s) = IsBounded s
ConfigIsBounded Config.crashed = Unit {0}

-- An update after which the state is bounded, or an exception.
abbrev UpdateIsBounded : MacroAgentState → Option Update → Type 0
UpdateIsBounded s none = Unit {0}
UpdateIsBounded s (some u) = IsBounded (apply_update s u)

arrive-IsBounded :
    (n : Option Node) (s : MacroAgentState) → IsBounded s → ConfigIsBounded (arrive n s)
arrive-IsBounded none s h = h
arrive-IsBounded (some n) s h = h

settle-IsBounded :
    (n : Node) (s : MacroAgentState) (o : Option Update)
    → UpdateIsBounded s o
    → ConfigIsBounded (settle n s o)
unfolding settle
settle-IsBounded n s none h = tt
settle-IsBounded n s (some u) h =
    arrive-IsBounded (next_node n (apply_update s u)) (apply_update s u) h

same-IsBounded :
    {s s' : MacroAgentState}
    → s'.repair_history ≡ s.repair_history
    → s'.repair_attempts ≡ s.repair_attempts
    → IsBounded s
    → IsBounded s'
same-IsBounded {s} {s'} h a b = record { within = rw h b.within; counted = rw (a, h) b.counted }

generate-IsBounded :
    (x y z : Bool) (s : MacroAgentState) → IsBounded s → UpdateIsBounded s (generate_from x y z s)
unfolding generate_from apply_update
generate-IsBounded true true true s h = same-IsBounded refl refl h
generate-IsBounded true true false s h = same-IsBounded refl refl h
generate-IsBounded true false true s h = same-IsBounded refl refl h
generate-IsBounded true false false s h = same-IsBounded refl refl h
generate-IsBounded false true true s h = same-IsBounded refl refl h
generate-IsBounded false true false s h = same-IsBounded refl refl h
generate-IsBounded false false true s h = same-IsBounded refl refl h
generate-IsBounded false false false s h = same-IsBounded refl refl h

validate-IsBounded :
    (s : MacroAgentState) (o : Option ModelSpec)
    → IsBounded s
    → UpdateIsBounded s (validate_with s o)
unfolding validate_with apply_update
validate-IsBounded s none h = tt
validate-IsBounded s (some spec) h = same-IsBounded refl refl h

after_fit-IsBounded :
    (s : MacroAgentState) (plan : ExecutionPlan) (r : StepResult)
    → IsBounded s
    → UpdateIsBounded s (some (after_fit s plan r))
unfolding after_fit apply_update
after_fit-IsBounded s plan (StepResult.numerical_failure c d) h = same-IsBounded refl refl h
after_fit-IsBounded s plan r h = same-IsBounded refl refl h

execute_third-IsBounded :
    (s : MacroAgentState) (plan : ExecutionPlan) (o : Option ExecutionStep)
    → IsBounded s
    → UpdateIsBounded s (execute_third s plan o)
unfolding execute_third
execute_third-IsBounded s plan none h = tt
execute_third-IsBounded s plan (some fit) h = after_fit-IsBounded s plan (execute_plan_step fit) h

compile-IsBounded :
    (env : Environment) (s : MacroAgentState) (o : Option ModelSpec)
    → IsBounded s
    → UpdateIsBounded s (compile_with env s o)
unfolding compile_with
compile-IsBounded env s none h = tt
compile-IsBounded env s (some spec) h =
    execute_third-IsBounded s (compile_plan env.plan_hex spec)
      (third? (compile_plan env.plan_hex spec).steps) h

-- One more entry on the trail, and one more attempt.
length-merged :
    (h : Option (List RepairProposal)) (p : RepairProposal)
    → length (reduce_append h (some (p ∷ []))) ≡ length (list_of h) + 1
unfolding reduce_append
length-merged none p = refl
length-merged (some ps) p = omega (arith, length-append {0} ps (p ∷ []))

repaired-IsBounded :
    (s : MacroAgentState) (spec : ModelSpec) (o : Option RepairProposal)
    → IsBounded s
    → length (list_of s.repair_history) + 1 ≤ 2
    → UpdateIsBounded s (repaired_update s spec o)
unfolding repaired_update
repaired-IsBounded s spec none h room = tt
repaired-IsBounded s spec (some p) h room =
    unfold apply_update in
    record {
      within = omega (arith, length-merged s.repair_history p);
      counted = omega (arith, h.counted, length-merged s.repair_history p);
    }

after_repair-IsBounded :
    (s : MacroAgentState) (now : ℕ) (spec : ModelSpec) (d : Diagnostic) (o : RepairOutcome)
    → attempt_auto_repair (restored_engine s) now spec d ≡ o
    → IsBounded s
    → UpdateIsBounded s (after_repair s o)
unfolding after_repair
after_repair-IsBounded s now spec d RepairOutcome.type_error e h = tt
after_repair-IsBounded s now spec d RepairOutcome.refused e h =
    unfold apply_update in same-IsBounded refl refl h
after_repair-IsBounded s now spec d (RepairOutcome.repaired spec' engine) e h =
    let grown = length-attempt_auto_repair (restored_engine s) engine now spec spec' d e in
    repaired-IsBounded s spec' (last? engine.repair_history) h (omega (arith, grown.0, grown.1))

repair-IsBounded :
    (env : Environment) (s : MacroAgentState) (d : Option Diagnostic) (o : Option ModelSpec)
    → IsBounded s
    → UpdateIsBounded s (repair_with env s d o)
unfolding repair_with
repair-IsBounded env s none o h = unfold apply_update in same-IsBounded refl refl h
repair-IsBounded env s (some d) none h = tt
repair-IsBounded env s (some d) (some spec) h =
    after_repair-IsBounded s env.now spec d (attempt_auto_repair (restored_engine s) env.now spec d)
      refl h

finalize-IsBounded :
    (s : MacroAgentState) → IsBounded s → UpdateIsBounded s (finalize_report_node s)
unfolding finalize_report_node apply_update
finalize-IsBounded s h = ground arith

node-IsBounded :
    (env : Environment) (n : Node) (s : MacroAgentState)
    → IsBounded s
    → UpdateIsBounded s (run_node env n s)
unfolding run_node
node-IsBounded env Node.generate_spec s h =
    unfold generate_spec_node in generate-IsBounded _ _ _ s h
node-IsBounded env Node.validate_spec s h =
    unfold validate_spec_node in validate-IsBounded s s.model_spec h
node-IsBounded env Node.compile_and_execute s h =
    unfold compile_and_execute_node in compile-IsBounded env s s.model_spec h
node-IsBounded env Node.repair_spec s h =
    unfold repair_spec_node in repair-IsBounded env s (last? (list_of s.diagnostics)) s.model_spec h
node-IsBounded env Node.finalize_report s h = finalize-IsBounded s h

step-IsBounded : (env : Environment) (c : Config) → ConfigIsBounded c → ConfigIsBounded (step env c)
unfolding step
step-IsBounded env (Config.at n s) h =
    settle-IsBounded n s (run_node env n s) (node-IsBounded env n s h)
step-IsBounded env (Config.ended s) h = h
step-IsBounded env Config.crashed h = h

reached-IsBounded :
    (c : Config) (s : MacroAgentState) → ConfigIsBounded c → state_of c ≡ some s → IsBounded s
reached-IsBounded (Config.at n s') s h e = subst IsBounded (ap (λ o. value_or o s) e) h
reached-IsBounded (Config.ended s') s h e = subst IsBounded (ap (λ o. value_or o s) e) h
reached-IsBounded Config.crashed s h e = cc

invocation-IsBounded :
    (n : ℕ) (envs : ℕ → Environment) (saved : MacroAgentState) (t r q : String)
    → IsBounded saved
    → ConfigIsBounded (run_workflow n envs saved t r q)
unfolding run_workflow
invocation-IsBounded n envs saved t r q h =
    run-keeps ConfigIsBounded step-IsBounded n envs (Config.at Node.generate_spec _)
      (same-IsBounded refl refl h)

saved-IsBounded : (s : MacroAgentState) → IsSaved s → IsBounded s
saved-IsBounded s IsSaved.unused = record { within = omega arith; counted = refl }
saved-IsBounded s (IsSaved.invoked n envs saved _ t r q before e) =
    reached-IsBounded (run_workflow n envs saved t r q) s
      (invocation-IsBounded n envs saved t r q (saved-IsBounded saved before)) e

-- Before each node and at the end of every run of the workflow, whatever the query and however many
-- nodes have run, on a new thread or on one that any invocations before have left, the audit trail
-- holds at most two repairs, and the attempt counter is its length.
pub run_workflow-IsBounded :
    (n : ℕ) (envs : ℕ → Environment) (saved : MacroAgentState)
    (thread_id run_id user_query : String)
    → IsSaved saved
    → ConfigIsBounded (run_workflow n envs saved thread_id run_id user_query)
run_workflow-IsBounded n envs saved t r q h =
    invocation-IsBounded n envs saved t r q (saved-IsBounded saved h)
