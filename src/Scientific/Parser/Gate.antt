-- ===== src/Scientific/Parser/Gate.antt =====
-- What parsing guarantees of a candidate that comes through.
use auditable_scientific_age.Prelude.{
  ◌≤◌, ◌<◌, Bool, true, false, Option, none, some, ◌≡◌, refl, arith, ◌∙◌,
}
use auditable_scientific_age.Scientific.Modelspec.{ModelSpec}
use auditable_scientific_age.Scientific.Parser.{
  Candidate, approval_flag, gated, model_validate, wrap_llm_structured_candidate,
}

-- The ranges that the schema declares.
pub record IsInRange (spec : ModelSpec) : Type 0 where
  pub horizon_pos : 0 < spec.backtest.horizon
  pub horizon_max : spec.backtest.horizon ≤ 60
  pub window_pos : 0 < spec.backtest.initial_window
  pub step_pos : 0 < spec.backtest.step_size
  pub forecast_pos : 0 < spec.forecast_horizon
  pub forecast_max : spec.forecast_horizon ≤ 60

model_validate-IsInRange :
    (c : Candidate) (spec : ModelSpec) → model_validate c ≡ some spec → IsInRange spec
unfolding model_validate
model_validate-IsInRange c spec h = ground arith

model_validate_flag :
    (c : Candidate) (spec : ModelSpec)
    → model_validate c ≡ some spec
    → spec.require_human_approval ≡ approval_flag c.require_human_approval
unfolding model_validate
model_validate_flag c spec h = ground arith

-- The flag's key is in the candidate.
abbrev pub is_given : Option Bool → Bool
is_given none = false
is_given (some _) = true

gated-is_given : (flag : Option Bool) → approval_flag (gated flag) ≡ is_given flag
gated-is_given none = refl
gated-is_given (some b) = refl

-- A candidate that the parser wraps has its horizons, window and step in the declared ranges; and
-- the specification demands human approval exactly when the candidate brings the approval flag,
-- whatever its value.
pub wrap_llm_structured_candidate-IsInRange :
    (c : Candidate) (spec : ModelSpec)
    → wrap_llm_structured_candidate c ≡ some spec
    → IsInRange spec × (spec.require_human_approval ≡ is_given c.require_human_approval)
unfolding wrap_llm_structured_candidate
wrap_llm_structured_candidate-IsInRange c spec h =
    let c' = record c { require_human_approval = gated c.require_human_approval } in
    let flag = model_validate_flag c' spec h in
    (model_validate-IsInRange c' spec h, flag ∙ gated-is_given c.require_human_approval)
