-- ===== src/Graph/Builder.antt =====
-- builder.py and `run_workflow` of service.py: the topology of the graph, and its invocation on a
-- thread. The graph library merges the input into what its checkpointer has saved of the thread, runs
-- a node, merges what it returns by the reducers of the state, and follows the edges; `crashed` is an
-- exception that leaves a node.
use auditable_scientific_age.Prelude.{ℕ, zero, suc, ◌+◌, String, Option, none, some, List, ◌≡◌}
use auditable_scientific_age.Graph.State.{MacroAgentState, Status}
use auditable_scientific_age.Graph.Reducers.{reduce_append}
use auditable_scientific_age.Graph.Nodes.{
  Environment, Update, generate_spec_node, validate_spec_node, compile_and_execute_node,
  repair_spec_node, finalize_report_node,
}
use auditable_scientific_age.Graph.Edges.{
  Route, decide_next_scientific_action, decide_after_execution,
}

pub data Node : Type 0 where
  generate_spec validate_spec compile_and_execute repair_spec finalize_report : Node

-- A key that the update holds replaces the old value.
abbrev override {ℓ} : {A : Type ℓ} → Option A → Option A → Option A
override old none = old
override old (some new) = some new

-- A key with a reducer is merged.
abbrev merge_list {ℓ} : {A : Type ℓ} → Option (List A) → Option (List A) → Option (List A)
merge_list old none = old
merge_list old (some new) = some (reduce_append old (some new))

-- `none` as a value is absent too for every reader of the plan.
abbrev override_plan {ℓ} : {A : Type ℓ} → Option A → Option (Option A) → Option A
override_plan old none = old
override_plan old (some new) = new

unfoldable pub apply_update : MacroAgentState → Update → MacroAgentState
unfolding reduce_append
apply_update s u = record {
  thread_id = s.thread_id;
  run_id = s.run_id;
  user_query = s.user_query;
  model_spec = override s.model_spec u.model_spec;
  execution_plan = override_plan s.execution_plan u.execution_plan;
  diagnostics = override s.diagnostics u.diagnostics;
  repair_history = merge_list s.repair_history u.repair_history;
  repair_attempts = override s.repair_attempts u.repair_attempts;
  trace_events = merge_list s.trace_events u.trace_events;
  errors = merge_list s.errors u.errors;
  final_answer = override s.final_answer u.final_answer;
  status = override s.status u.status;
}

unfoldable pub run_node : Environment → Node → MacroAgentState → Option Update
run_node env Node.generate_spec s = generate_spec_node s
run_node env Node.validate_spec s = validate_spec_node s
run_node env Node.compile_and_execute s = compile_and_execute_node env s
run_node env Node.repair_spec s = repair_spec_node env s
run_node env Node.finalize_report s = finalize_report_node s

abbrev pub target : Route → Node
target Route.repair_spec = Node.repair_spec
target Route.compile_and_execute = Node.compile_and_execute
target Route.finalize_report = Node.finalize_report

-- The edges; `none` is END.
unfoldable pub next_node : Node → MacroAgentState → Option Node
next_node Node.generate_spec s = some Node.validate_spec
next_node Node.validate_spec s = some (target (decide_next_scientific_action s))
next_node Node.compile_and_execute s = some (target (decide_after_execution s))
next_node Node.repair_spec s = some Node.validate_spec
next_node Node.finalize_report s = none

pub data Config : Type 0 where
  at : Node → MacroAgentState → Config
  ended : MacroAgentState → Config
  crashed : Config

abbrev pub arrive : Option Node → MacroAgentState → Config
arrive none s = Config.ended s
arrive (some n) s = Config.at n s

unfoldable pub settle : Node → MacroAgentState → Option Update → Config
unfolding next_node apply_update
settle n s none = Config.crashed
settle n s (some u) = arrive (next_node n (apply_update s u)) (apply_update s u)

unfoldable pub step : Environment → Config → Config
unfolding run_node settle
step env (Config.at n s) = settle n s (run_node env n s)
step env (Config.ended s) = Config.ended s
step env Config.crashed = Config.crashed

-- `n` node executions; the `k`-th has its own environment.
unfoldable pub run : ℕ → (ℕ → Environment) → Config → Config
unfolding step
run zero envs c = c
run (suc n) envs c = run n (λ k. envs (k + 1)) (step (envs 0) c)

-- What a thread holds before its first invocation: no key.
abbrev pub new_thread : MacroAgentState
new_thread = record {
  thread_id = none;
  run_id = none;
  user_query = none;
  model_spec = none;
  execution_plan = none;
  diagnostics = none;
  repair_history = none;
  repair_attempts = none;
  trace_events = none;
  errors = none;
  final_answer = none;
  status = none;
}

-- The input of an invocation, merged into what the checkpointer has saved of the thread.
abbrev pub with_input : MacroAgentState → String → String → String → MacroAgentState
with_input saved thread_id run_id user_query = record saved {
  thread_id = some thread_id;
  run_id = some run_id;
  user_query = some user_query;
  status = some Status.running;
}

-- An invocation of the graph from START on a thread, with a bound on the number of node executions.
unfoldable pub run_workflow :
    ℕ → (ℕ → Environment) → MacroAgentState → String → String → String → Config
unfolding run
run_workflow bound envs saved thread_id run_id user_query =
    run bound envs (Config.at Node.generate_spec (with_input saved thread_id run_id user_query))

-- What is saved of a thread while and after it is invoked; the exception is not.
abbrev pub state_of : Config → Option MacroAgentState
state_of (Config.at n s) = some s
state_of (Config.ended s) = some s
state_of Config.crashed = none

-- What a thread may hold: nothing, or what an invocation on it leaves after so many nodes, when it
-- has ended, was cut short, or the next node raises.
pub data IsSaved : MacroAgentState → Type 0 where
  unused : IsSaved new_thread
  invoked :
      (bound : ℕ) (envs : ℕ → Environment) (saved s : MacroAgentState)
      (thread_id run_id user_query : String)
      → IsSaved saved
      → state_of (run_workflow bound envs saved thread_id run_id user_query) ≡ some s
      → IsSaved s
