-- ===== src/Graph/Cycle.antt =====
-- A repair that is refused goes back to validation; with the same specification that is a cycle.
use auditable_scientific_age.Prelude.{
  ℕ, ◌≤◌, true, some, length, last?, ◌≡◌, ◌≢◌, sym, subst, arith,
}
use auditable_scientific_age.Scientific.Modelspec.{ModelSpec}
use auditable_scientific_age.Scientific.Validators.{Diagnostic, Severity}
use auditable_scientific_age.Scientific.Repairs.Budget.{attempt_auto_repair_refuses}
use auditable_scientific_age.Graph.State.{MacroAgentState, list_of}
use auditable_scientific_age.Graph.Nodes.{
  Environment, all_diagnostics, validated, validate_with, repair_with, after_repair,
  restored_engine, validate_spec_node, repair_spec_node,
}
use auditable_scientific_age.Graph.Edges.{Route, decide_next_scientific_action}
use auditable_scientific_age.Graph.Builder.{Config, Node, settle, apply_update, target, step, run}
use auditable_scientific_age.Graph.Runs.{run-keeps}

module _ (spec : ModelSpec) (d : Diagnostic) (latest : last? (all_diagnostics spec) ≡ some d)
    (is_error : d.severity ≡ Severity.error) (can_repair : d.repairable ≡ true) where
  -- The specification under repair, with the budget spent.
  abbrev IsSpent : MacroAgentState → Type 0
  IsSpent s = (s.model_spec ≡ some spec) × (2 ≤ length (list_of s.repair_history))

  abbrev IsCycling : Config → Type 0
  IsCycling (Config.at Node.validate_spec s) = IsSpent s
  IsCycling (Config.at Node.repair_spec s) = IsSpent s × (last? (list_of s.diagnostics) ≡ some d)
  IsCycling _ = ⊥

  route-repair :
      (s : MacroAgentState)
      → last? (list_of s.diagnostics) ≡ some d
      → decide_next_scientific_action s ≡ Route.repair_spec
  unfolding decide_next_scientific_action
  route-repair s h = ground arith

  validate-IsCycling :
      (s : MacroAgentState)
      → IsSpent s
      → IsCycling (settle Node.validate_spec s (validate_with s (some spec)))
  unfolding settle validate_with
  validate-IsCycling s h =
      subst (λ r. IsCycling (Config.at (target r) (apply_update s (validated s spec))))
        (sym (route-repair (apply_update s (validated s spec)) latest)) (h, latest)

  repair-IsCycling :
      (env : Environment) (s : MacroAgentState)
      → IsSpent s
      → IsCycling (settle Node.repair_spec s (repair_with env s (some d) (some spec)))
  unfolding repair_with
  repair-IsCycling env s h =
      subst (λ o. IsCycling (settle Node.repair_spec s (after_repair s o)))
        (sym (attempt_auto_repair_refuses (restored_engine s) env.now spec d (ground (arith, h.1))))
        (unfold settle after_repair in h)

  step-IsCycling : (env : Environment) (c : Config) → IsCycling c → IsCycling (step env c)
  unfolding step
  step-IsCycling env (Config.at Node.validate_spec s) h =
      unfold validate_spec_node in
      subst (λ o. IsCycling (settle Node.validate_spec s (validate_with s o))) (sym h.0)
        (validate-IsCycling s h)
  step-IsCycling env (Config.at Node.repair_spec s) h =
      unfold repair_spec_node in
      subst (λ o. IsCycling (settle Node.repair_spec s (repair_with env s o s.model_spec)))
        (sym h.1)
        (subst (λ o. IsCycling (settle Node.repair_spec s (repair_with env s (some d) o)))
          (sym h.0.0) (repair-IsCycling env s h.0))
  step-IsCycling env c h = absurd h

  -- When the validation of the specification ends with a repairable error and the audit trail holds
  -- two repairs, a run from the repair node reaches END after no number of node executions, though
  -- the refused repair has set the status to failed.
  pub exhausted_never_ends :
      (n : ℕ) (envs : ℕ → Environment) (s s' : MacroAgentState)
      → s.model_spec ≡ some spec
      → 2 ≤ length (list_of s.repair_history)
      → last? (list_of s.diagnostics) ≡ some d
      → run n envs (Config.at Node.repair_spec s) ≢ Config.ended s'
  exhausted_never_ends n envs s s' m spent l e =
      subst IsCycling e
        (run-keeps IsCycling step-IsCycling n envs (Config.at Node.repair_spec s) ((m, spent), l))
