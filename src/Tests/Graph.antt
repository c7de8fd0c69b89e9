-- ===== src/Tests/Graph.antt =====
-- Runs of the workflow on sample queries and states.
use auditable_scientific_age.Prelude.{true, false, some, [], ◌∷◌, last?, ◌≡◌, ◌≢◌, refl, arith}
use auditable_scientific_age.Prelude.Text.{contains, lower, ◌<>◌}
use auditable_scientific_age.Scientific.Validators.{
  Diagnostic, validate_spec, validate_against, model_diagnostics,
}
use auditable_scientific_age.Scientific.StaticAnalysis.{
  analyze_spec, mentions_leak, has_unsafe_path,
}
use auditable_scientific_age.Scientific.Compiler.{fit_step}
use auditable_scientific_age.Scientific.Executor.{execute_plan_step}
use auditable_scientific_age.Prelude.Dict.{is_in}
use auditable_scientific_age.Graph.Reducers.{reduce_unique_str_list}
use auditable_scientific_age.Graph.Reducers.Unique.{reduce_unique_str_list-is_distinct, is_distinct}
use auditable_scientific_age.Graph.State.{MacroAgentState, Status}
use auditable_scientific_age.Graph.Nodes.{all_diagnostics, validate_spec_node, finalize_report_node}
use auditable_scientific_age.Graph.Edges.{decide_next_scientific_action}
use auditable_scientific_age.Graph.Builder.{
  Config, Node, run, step, run_workflow, new_thread, IsSaved,
}
use auditable_scientific_age.Graph.Workflow.{run_workflow_ends, outcome}
use auditable_scientific_age.Graph.Safety.{boundary_never_completes}
use auditable_scientific_age.Graph.Bounds.{run_workflow-IsBounded, ConfigIsBounded}
use auditable_scientific_age.Graph.Masking.{validate_spec_masked}
use auditable_scientific_age.Graph.Unapproved.{unapproved_family_completes, blocked}
use auditable_scientific_age.Graph.Cycle.{exhausted_never_ends}
use auditable_scientific_age.Tests.Samples.{
  leaking, seasonal, small, outreaching, with_spec, environments, non_convergence, proposal, from,
}

reduce_unique_str_list-is_distinct_example :
    (is_distinct (reduce_unique_str_list (some ("j1" ∷ [])) (some ("j2" ∷ "j1" ∷ []))) ≡ true)
    × (is_in "j2" (reduce_unique_str_list (some ("j1" ∷ [])) (some ("j2" ∷ "j1" ∷ []))) ≡ true)
reduce_unique_str_list-is_distinct_example =
    reduce_unique_str_list-is_distinct (some ("j1" ∷ [])) (some ("j2" ∷ "j1" ∷ [])) "j2" refl

-- A thread on which a repair has been made before.
abbrev reused : MacroAgentState
reused = record new_thread { repair_history = some (proposal ∷ []); repair_attempts = some 1 }

run_workflow_ends_example :
    outcome (run_workflow 9 environments reused "t1" "r2" "A HIGH_ORDER run")
    ≡ some (Status.completed, 2, false)
unfolding contains lower
run_workflow_ends_example =
    run_workflow_ends environments reused "t1" "r2" "A HIGH_ORDER run" refl (omega arith)

-- The state at END.
abbrev end_of : Config → MacroAgentState
end_of (Config.ended s) = s
end_of _ = with_spec leaking

abbrev leaking_end : MacroAgentState
leaking_end = end_of (run 2 environments (Config.at Node.validate_spec (with_spec leaking)))

boundary_never_completes_example : leaking_end.status ≡ some Status.failed
unfolding run all_diagnostics validate_spec validate_against model_diagnostics analyze_spec
    mentions_leak has_unsafe_path lower contains validate_spec_node finalize_report_node
    decide_next_scientific_action
boundary_never_completes_example =
    boundary_never_completes 2 environments (with_spec leaking) leaking_end leaking refl refl refl

run_workflow-IsBounded_example :
    ConfigIsBounded (run_workflow 5 environments new_thread "t1" "r1" "high_order")
run_workflow-IsBounded_example =
    run_workflow-IsBounded 5 environments new_thread "t1" "r1" "high_order" IsSaved.unused

validate_spec_masked_example :
    (s' : MacroAgentState) × (step
        (environments 0)
        (Config.at Node.validate_spec (with_spec outreaching))
      ≡ Config.at Node.compile_and_execute s')
    × (s'.diagnostics ≡ some (all_diagnostics outreaching))
validate_spec_masked_example =
    validate_spec_masked (environments 0) (with_spec outreaching) outreaching refl refl

abbrev validated_state : MacroAgentState
validated_state = record (with_spec seasonal) { diagnostics = some [] }

unapproved_family_completes_example :
    (execute_plan_step (fit_step ("plan_" <> "0a1b2c3d") seasonal) ≡ blocked "fit_seasonal_naive")
    × (outcome (run 2 environments (Config.at Node.compile_and_execute validated_state))
        ≡ some (Status.completed, 0, false))
unapproved_family_completes_example =
    unapproved_family_completes environments validated_state seasonal refl refl refl refl

abbrev latest : Diagnostic
latest = from non_convergence (last? (all_diagnostics small))

abbrev spent : MacroAgentState
spent = record (with_spec small) {
  diagnostics = some (latest ∷ []);
  repair_history = some (proposal ∷ proposal ∷ []);
}

exhausted_never_ends_example :
    run 100 environments (Config.at Node.repair_spec spent) ≢ Config.ended spent
unfolding all_diagnostics validate_spec validate_against model_diagnostics analyze_spec
    mentions_leak has_unsafe_path lower contains
exhausted_never_ends_example =
    exhausted_never_ends small latest refl refl refl 100 environments spent spent refl (omega arith)
      refl
