-- ===== src/Tests/Scientific.antt =====
-- Parsing, validation, compilation, execution and repair of sample specifications.
use auditable_scientific_age.Prelude.{true, false, some, [], any, ◌≡◌, refl, ◌↔◌}
use auditable_scientific_age.Prelude.Int.{pos}
use auditable_scientific_age.Scientific.Modelspec.{ModelSpec}
use auditable_scientific_age.Scientific.Parser.{
  wrap_llm_structured_candidate, model_validate, check_transformations, check_model, Candidate,
}
use auditable_scientific_age.Scientific.Parser.Gate.{
  wrap_llm_structured_candidate-IsInRange, IsInRange,
}
use auditable_scientific_age.Scientific.Validators.{validate_against}
use auditable_scientific_age.Scientific.Validators.Acceptable.{
  validate_against-nil_iff, IsAcceptable,
}
use auditable_scientific_age.Scientific.Repairs.{
  BoundedRepairEngine, RepairOutcome, attempt_auto_repair, contracted,
}
use auditable_scientific_age.Scientific.Repairs.Budget.{Extends, attempt_auto_repair-Extends}
use auditable_scientific_age.Scientific.Repairs.Effect.{
  contracted_sample, with_window, is_sample_code,
}
use auditable_scientific_age.Graph.Nodes.{raw_payload}
use auditable_scientific_age.Tests.Samples.{small, compliant, engine, non_convergence, from}

abbrev flagged : Candidate
flagged = record (raw_payload true false false) { require_human_approval = some false }

wrap_llm_structured_candidate-IsInRange_example :
    let spec = from compliant (wrap_llm_structured_candidate flagged) in
    IsInRange spec × (spec.require_human_approval ≡ true)
unfolding wrap_llm_structured_candidate model_validate check_transformations check_model
wrap_llm_structured_candidate-IsInRange_example =
    wrap_llm_structured_candidate-IsInRange flagged
      (from compliant (wrap_llm_structured_candidate flagged)) refl

validate_against-nil_iff_example :
    (validate_against compliant (120, "monthly") ≡ []) ↔ IsAcceptable compliant 120 "monthly"
validate_against-nil_iff_example = validate_against-nil_iff compliant 120 "monthly"

attempt_auto_repair-Extends_example :
    Extends engine (attempt_auto_repair engine 7 compliant non_convergence)
attempt_auto_repair-Extends_example = attempt_auto_repair-Extends engine 7 compliant non_convergence

-- The specification and the engine after a repair.
abbrev repaired_spec : RepairOutcome → ModelSpec
repaired_spec (RepairOutcome.repaired spec e) = spec
repaired_spec _ = compliant

abbrev repaired_engine : RepairOutcome → BoundedRepairEngine
repaired_engine (RepairOutcome.repaired spec e) = e
repaired_engine _ = engine

contracted_sample_example :
    any is_sample_code
      (validate_against (with_window small (contracted (pos 15) 6)) (15, "monthly"))
    ≡ true
contracted_sample_example = contracted_sample small 15 "monthly"
