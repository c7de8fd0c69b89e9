-- ===== src/Graph/Workflow.antt =====
-- The workflow from START, for every query: it ends, and how.
use auditable_scientific_age.Prelude.{
  ℕ, ◌+◌, String, Bool, true, false, Option, none, some, List, any, length, if◌then◌else◌, ◌≡◌, ◌≤◌,
  [], ◌∷◌, arith, ap, refl,
}
use auditable_scientific_age.Prelude.Text.{codes, lower, contains}
use auditable_scientific_age.Scientific.Validators.{
  Diagnostic, model_diagnostics, validate_spec, validate_against,
}
use auditable_scientific_age.Scientific.StaticAnalysis.{
  analyze_spec, mentions_leak, has_unsafe_path,
}
use auditable_scientific_age.Scientific.Repairs.{RepairProposal}
use auditable_scientific_age.Graph.State.{MacroAgentState, Status, list_of, value_or}
use auditable_scientific_age.Graph.Nodes.{
  Environment, is_error, all_diagnostics, generate_from, generate_spec_node, validate_spec_node,
  compile_and_execute_node, repair_spec_node, finalize_report_node,
}
use auditable_scientific_age.Graph.Edges.{decide_next_scientific_action, decide_after_execution}
use auditable_scientific_age.Graph.Builder.{Config, Node, settle, run, with_input, run_workflow}

-- some diagnostic is an error
abbrev pub has_error : List Diagnostic → Bool
has_error = any (λ d. is_error d.severity)

-- How a run has ended: its status, the number of audited repairs, and whether the last diagnostics
-- hold an error; `none` while it has not.
abbrev pub outcome : Config → Option (Status × ℕ × Bool)
outcome (Config.ended s) = some (
  value_or s.status Status.created,
  length (list_of s.repair_history),
  has_error (list_of s.diagnostics),
)
outcome _ = none

-- The repairs that the keywords of a query lead to.
abbrev pub repairs : Bool → Bool → Bool → ℕ
repairs high_order short true = 0
repairs high_order short false = (if high_order then 1 else 0) + (if short then 1 else 0)

-- What the three keywords of a query lead to, behind so many repairs on the thread.
abbrev pub expected : ℕ → Bool → Bool → Bool → Status × ℕ × Bool
expected before high_order short true = (Status.failed, before, true)
expected before high_order short false =
    (Status.completed, repairs high_order short false + before, short)

module _ (envs : ℕ → Environment) (s : MacroAgentState) where
  from_generate : Bool → Bool → Bool → Config
  from_generate high_order short leakage =
      run 8 envs (settle Node.generate_spec s (generate_from high_order short leakage s))

-- The eight kinds of query, run to the end, on a thread with such a trail and such errors.
module _ (envs : ℕ → Environment) (s : MacroAgentState) (errors : Option (List String))
    (clean : list_of errors ≡ []) where
  abbrev on_thread : Option (List RepairProposal) → MacroAgentState
  on_thread trail = record s { repair_history = trail; errors = errors }

  abbrev Ends : Bool → Bool → Bool → Option (List RepairProposal) → Type 0
  Ends high_order short leakage trail =
      outcome (from_generate envs (on_thread trail) high_order short leakage)
      ≡ some (expected (length (list_of trail)) high_order short leakage)

  from_generate-outcome :
      (high_order short leakage : Bool) (trail : Option (List RepairProposal))
      → repairs high_order short leakage + length (list_of trail) ≤ 2
      → Ends high_order short leakage trail
  unfolding from_generate run settle generate_from all_diagnostics validate_spec validate_against
      model_diagnostics analyze_spec mentions_leak has_unsafe_path lower contains validate_spec_node
      compile_and_execute_node repair_spec_node finalize_report_node decide_next_scientific_action
      decide_after_execution
  from_generate-outcome true true true trail h = rw clean refl
  from_generate-outcome true false true trail h = rw clean refl
  from_generate-outcome false true true trail h = rw clean refl
  from_generate-outcome false false true trail h = rw clean refl
  from_generate-outcome false false false trail h =
      rw clean (ap (λ n. some (Status.completed, n, false)) (omega arith))
  from_generate-outcome true false false none h = rw clean refl
  from_generate-outcome true false false (some []) h = rw clean refl
  from_generate-outcome true false false (some (p ∷ [])) h = rw clean refl
  from_generate-outcome true false false (some (p ∷ q ∷ ps)) h = absurd (omega (arith, h))
  from_generate-outcome false true false none h = rw clean refl
  from_generate-outcome false true false (some []) h = rw clean refl
  from_generate-outcome false true false (some (p ∷ [])) h = rw clean refl
  from_generate-outcome false true false (some (p ∷ q ∷ ps)) h = absurd (omega (arith, h))
  from_generate-outcome true true false none h = rw clean refl
  from_generate-outcome true true false (some []) h = rw clean refl
  from_generate-outcome true true false (some (p ∷ ps)) h = absurd (omega (arith, h))

-- A keyword is in the lowered query.
abbrev pub holds : String → String → Bool
unfolding contains lower
holds keyword user_query = contains (codes keyword) (lower (codes user_query))

-- On a thread whose saved state holds no error, and at most two repairs together with those that the
-- query leads to (one for "high_order" and one for "short" if it holds them lowered, none if it holds
-- "leakage"; on a new thread that is every query), the workflow reaches END within nine node
-- executions, whatever the ids, the plan ids and the clock are. With "leakage" it ends as failed, with
-- the trail as it was; otherwise it ends as completed, with those repairs added to the trail. A run
-- that ends as completed leaves an error among the last diagnostics exactly when the query holds
-- "short".
pub run_workflow_ends :
    (envs : ℕ → Environment) (saved : MacroAgentState) (thread_id run_id user_query : String)
    → list_of saved.errors ≡ []
    → repairs
          (holds "high_order" user_query)
          (holds "short" user_query)
          (holds "leakage" user_query)
        + length (list_of saved.repair_history)
      ≤ 2
    → outcome (run_workflow 9 envs saved thread_id run_id user_query)
      ≡ some (
          expected
            (length (list_of saved.repair_history))
            (holds "high_order" user_query)
            (holds "short" user_query)
            (holds "leakage" user_query))
unfolding run_workflow generate_spec_node from_generate
run_workflow_ends envs saved thread_id run_id user_query clean room =
    from_generate-outcome (λ k. envs (k + 1)) (with_input saved thread_id run_id user_query)
      saved.errors clean (holds "high_order" user_query) (holds "short" user_query)
      (holds "leakage" user_query) saved.repair_history room
