-- ===== src/Graph/Masking.antt =====
-- The route behind validation reads the last diagnostic only.
use auditable_scientific_age.Prelude.{
  true, some, [], ◌∷◌, ◌++◌, append_assoc, last?, last?-append_one, ◌≡◌, refl, ap, ◌∙◌, arith,
}
use auditable_scientific_age.Scientific.Modelspec.{ModelSpec}
use auditable_scientific_age.Scientific.Validators.{Diagnostic, Severity, validate_spec, report_if}
use auditable_scientific_age.Scientific.StaticAnalysis.{
  leakage, unsafe_path, short_window, mentions_leak, has_unsafe_path, outreaches_window,
  analyze_spec,
}
use auditable_scientific_age.Graph.State.{MacroAgentState, list_of}
use auditable_scientific_age.Graph.Nodes.{
  Environment, local_data_registry, all_diagnostics, validated, validate_with, validate_spec_node,
}
use auditable_scientific_age.Graph.Edges.{Route, decide_next_scientific_action}
use auditable_scientific_age.Graph.Builder.{Config, Node, settle, apply_update, target, step}

-- The warning of an outreaching forecast is always the last diagnostic.
pub all_diagnostics-last :
    (spec : ModelSpec)
    → outreaches_window spec ≡ true
    → last? (all_diagnostics spec) ≡ some (short_window spec)
unfolding all_diagnostics analyze_spec
all_diagnostics-last spec h =
    let leak = report_if (mentions_leak spec) leakage in
    let path = report_if (has_unsafe_path spec) (unsafe_path spec) in
    let found = validate_spec spec local_data_registry in
    rw
      (
        h,
        ← append_assoc leak path (short_window spec ∷ []),
        ← append_assoc found (leak ++ path) (short_window spec ∷ []),
      )
      (last?-append_one (found ++ (leak ++ path)) (short_window spec))

route-last :
    (s : MacroAgentState) (d : Diagnostic)
    → last? (list_of s.diagnostics) ≡ some d
    → d.severity ≡ Severity.warning
    → decide_next_scientific_action s ≡ Route.compile_and_execute
unfolding decide_next_scientific_action
route-last s d h w = ground arith

-- An ARIMA specification whose forecast horizon is over half of its initial window goes from
-- validation to compilation and execution, whatever errors validation has found, a leak, an unsafe
-- path or an unknown dataset among them; the errors stay in the state.
pub validate_spec_masked :
    (env : Environment) (s : MacroAgentState) (spec : ModelSpec)
    → s.model_spec ≡ some spec
    → outreaches_window spec ≡ true
    → (s' : MacroAgentState) × (step env (Config.at Node.validate_spec s)
        ≡ Config.at Node.compile_and_execute s')
      × (s'.diagnostics ≡ some (all_diagnostics spec))
unfolding step validate_spec_node short_window
validate_spec_masked env s spec m h = (
  apply_update s (validated s spec),
  ap (λ o. settle Node.validate_spec s (validate_with s o)) m ∙ routed,
  unfold apply_update validated in refl,
)
  where
    routed :
        settle Node.validate_spec s (validate_with s (some spec))
        ≡ Config.at Node.compile_and_execute (apply_update s (validated s spec))
    routed =
        unfold settle validate_with in
        ap (λ r. Config.at (target r) (apply_update s (validated s spec)))
          (route-last (apply_update s (validated s spec)) (short_window spec)
            (all_diagnostics-last spec h) refl)
