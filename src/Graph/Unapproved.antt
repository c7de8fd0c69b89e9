-- ===== src/Graph/Unapproved.antt =====
-- The executor refuses to fit a model that is no ARIMA model; what the graph makes of the refusal.
use auditable_scientific_age.Prelude.{
  ℕ, String, Bool, false, Option, some, [], length, ◌≡◌, refl, sym, ap, ◌∙◌, subst, arith,
}
use auditable_scientific_age.Prelude.Text.{◌<>◌}
use auditable_scientific_age.Prelude.Dict.{is_in}
use auditable_scientific_age.Scientific.Modelspec.{ModelSpec, Model, family}
use auditable_scientific_age.Scientific.Validators.{Code}
use auditable_scientific_age.Scientific.StaticAnalysis.{is_arima}
use auditable_scientific_age.Scientific.Compiler.{fit_step, compile_plan}
use auditable_scientific_age.Scientific.Executor.{StepResult, registry, execute_plan_step}
use auditable_scientific_age.Graph.State
use auditable_scientific_age.Graph.State.{MacroAgentState, list_of}
use auditable_scientific_age.Graph.Nodes.{
  Environment, compile_with, after_fit, must_fail, compile_and_execute_node, finalize_report_node,
}
use auditable_scientific_age.Graph.Edges.{Route, decide_after_execution}
use auditable_scientific_age.Graph.Builder.{
  Config, Node, settle, step, run, apply_update, next_node, target,
}
use auditable_scientific_age.Graph.Workflow.{outcome, has_error}

fit_operation-not_registered :
    (m : Model) → is_arima m ≡ false → is_in ("fit_" <> family m) registry ≡ false
unfolding registry
fit_operation-not_registered (Model.seasonal_naive n) h = refl
fit_operation-not_registered (Model.ets m) h = refl
fit_operation-not_registered (Model.arima m) h = cc

-- The refusal of the executor's allowlist.
abbrev pub blocked : String → StepResult
blocked op =
    StepResult.fatal Code.unauthorized_operation
      ("Kernel gate blocked unapproved operation [" <> op <> "].")

pub fit_step-blocked :
    (plan_id : String) (spec : ModelSpec)
    → is_arima spec.model ≡ false
    → execute_plan_step (fit_step plan_id spec) ≡ blocked ("fit_" <> family spec.model)
unfolding execute_plan_step fit_step
fit_step-blocked plan_id spec h = rw (fit_operation-not_registered spec.model h)

no_diagnostics_route :
    (s : MacroAgentState)
    → s.diagnostics ≡ some []
    → decide_after_execution s ≡ Route.finalize_report
unfolding decide_after_execution
no_diagnostics_route s h = ground arith

-- The state behind a refusal: the plan and an event are all that is written.
after_refusal : Environment → MacroAgentState → ModelSpec → MacroAgentState
after_refusal env s spec =
    apply_update s
      (after_fit s (compile_plan env.plan_hex spec) (blocked ("fit_" <> family spec.model)))

refusal_goes_on :
    (env : Environment) (s : MacroAgentState) (spec : ModelSpec)
    → is_arima spec.model ≡ false
    → s.diagnostics ≡ some []
    → settle Node.compile_and_execute s (compile_with env s (some spec))
      ≡ Config.at Node.finalize_report (after_refusal env s spec)
unfolding settle compile_with after_refusal
refusal_goes_on env s spec h clean =
    ap
      (λ r.
        settle Node.compile_and_execute s (some (after_fit s (compile_plan env.plan_hex spec) r)))
      (fit_step-blocked ("plan_" <> env.plan_hex) spec h)
    ∙ ap (λ r. Config.at (target r) (after_refusal env s spec))
        (no_diagnostics_route (after_refusal env s spec) clean)

refusal_ends :
    (env : Environment) (s : MacroAgentState) (spec : ModelSpec)
    → must_fail s ≡ false
    → outcome (
        settle Node.finalize_report
          (after_refusal env s spec)
          (finalize_report_node (after_refusal env s spec)))
      ≡ some (
        State.Status.completed,
        length (list_of s.repair_history),
        has_error (list_of s.diagnostics),
      )
unfolding after_refusal apply_update after_fit settle finalize_report_node compile_plan next_node
refusal_ends env s spec ok = rw ok

-- For a specification of another family than ARIMA the executor's allowlist refuses the fitting
-- step; the graph records no diagnostic of it, and a state with no diagnostics, no errors and no
-- failed status goes on from compilation and execution to a report that says completed.
pub unapproved_family_completes :
    (envs : ℕ → Environment) (s : MacroAgentState) (spec : ModelSpec)
    → s.model_spec ≡ some spec
    → is_arima spec.model ≡ false
    → s.diagnostics ≡ some []
    → must_fail s ≡ false
    → (execute_plan_step (fit_step ("plan_" <> (envs 0).plan_hex) spec)
        ≡ blocked ("fit_" <> family spec.model))
      × (outcome (run 2 envs (Config.at Node.compile_and_execute s))
          ≡ some (State.Status.completed, length (list_of s.repair_history), false))
unfolding run step compile_and_execute_node
unapproved_family_completes envs s spec m h clean ok = (
  fit_step-blocked ("plan_" <> (envs 0).plan_hex) spec h,
  subst
      (λ o.
        outcome (step (envs 1) (settle Node.compile_and_execute s (compile_with (envs 0) s o)))
        ≡ done)
      (sym m)
      (ap (λ c. outcome (step (envs 1) c)) (refusal_goes_on (envs 0) s spec h clean)
        ∙ refusal_ends (envs 0) s spec ok
        ∙ ap
            (λ ds.
              some
                (State.Status.completed, length (list_of s.repair_history), has_error (list_of ds)))
            clean),
)
  where
    done : Option (State.Status × ℕ × Bool)
    done = some (State.Status.completed, length (list_of s.repair_history), false)
