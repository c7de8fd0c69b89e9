-- ===== src/Scientific/Compiler/Dependencies.antt =====
-- The order of the compiled steps.
use auditable_scientific_age.Prelude.{
  String, Bool, true, false, ◌&&◌, List, [], ◌∷◌, map, all, length, ◌≡◌, refl, arith, eq_refl,
}
use auditable_scientific_age.Prelude.Dict.{is_in}
use auditable_scientific_age.Scientific.Modelspec.{ModelSpec}
use auditable_scientific_age.Scientific.Compiler.{ExecutionStep, load_id, fit_id, compile_plan}

-- Every step depends only on steps that stand before it.
abbrev pub is_ordered : List String → List ExecutionStep → Bool
is_ordered done [] = true
is_ordered done (s ∷ steps) =
    all (λ id. is_in id done) s.depends_on && is_ordered (s.step_id ∷ done) steps

-- Every step behind the first depends on something.
abbrev pub is_chained : List ExecutionStep → Bool
is_chained [] = true
is_chained (s ∷ steps) = all (λ t. has_dependency t.depends_on) steps
  where
    has_dependency : List String → Bool
    has_dependency [] = false
    has_dependency (_ ∷ _) = true

-- The plan of every specification has four steps, in an order in which each depends on steps before
-- it and each behind the first on some step; its artifacts are those that the steps declare, and
-- the demand for approval is that of the specification.
compile_plan-is_ordered :
    (hex : String) (spec : ModelSpec)
    → let plan = compile_plan hex spec in
      (length plan.steps ≡ 4)
      × (is_ordered [] plan.steps ≡ true)
      × (is_chained plan.steps ≡ true)
      × (plan.artifact_outputs ≡ map (λ s. s.expected_artifact_output) plan.steps)
      × (plan.requires_human_approval ≡ spec.require_human_approval)
unfolding compile_plan
compile_plan-is_ordered hex spec =
    (refl, ground (arith, eq_refl (load_id spec), eq_refl (fit_id spec)), refl, refl, refl)
