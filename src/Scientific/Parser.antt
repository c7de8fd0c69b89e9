-- ===== src/Scientific/Parser.antt =====
-- parser.py, and the schema of modelspec.py that Pydantic checks: a candidate has the fields of a
-- specification, with the integers not yet in range. `json.loads` is an argument.
pub mod Gate
use auditable_scientific_age.Prelude.{
  ℕ, String, Bool, true, false, ◌&&◌, Option, none, some, List, [], ◌∷◌, leb, if◌then◌else◌,
}
use auditable_scientific_age.Prelude.Int.{ℤ, pos, negsuc, pos_part, ltb_ℤ}
use auditable_scientific_age.Scientific.Modelspec

pub record CandidateTransformation : Type 0 where
  pub kind : Modelspec.TransformKind
  pub order : ℤ
  pub seasonal_period : Option ℤ

pub data CandidateModel : Type 0 where
  seasonal_naive : ℤ → CandidateModel
  ets : Modelspec.Component → Modelspec.Component → Option ℤ → CandidateModel
  arima : Modelspec.Order → Option Modelspec.SeasonalOrder → CandidateModel

pub record Candidate : Type 0 where
  pub spec_version : String
  pub target : Modelspec.SeriesRef
  pub transformations : List CandidateTransformation
  pub model : CandidateModel
  pub horizon : ℤ
  pub initial_window : ℤ
  pub step_size : ℤ
  pub metrics : List Modelspec.Metric
  pub forecast_horizon : ℤ
  -- `none`: the key is absent
  pub require_human_approval : Option Bool
  pub rationale : String

infixl 5 ◌>>=◌
abbrev pub ◌>>=◌ : {A B : Type 0} → Option A → (A → Option B) → Option B
none >>= f = none
some a >>= f = f a

-- `gt=0`
abbrev positive : ℤ → Option ℕ
positive z = if ltb_ℤ (pos 0) z then some (pos_part z) else none

-- `gt=0, le=hi`
abbrev positive_up_to : ℕ → ℤ → Option ℕ
positive_up_to hi z = if ltb_ℤ (pos 0) z && leb (pos_part z) hi then some (pos_part z) else none

-- `ge=0, le=3`
abbrev differencing_order : ℤ → Option ℕ
differencing_order (pos n) = if leb n 3 then some n else none
differencing_order (negsuc n) = none

-- `Optional[int]` with `gt=0`
abbrev optional_positive : Option ℤ → Option (Option ℕ)
optional_positive none = some none
optional_positive (some z) = do n ← positive z; some (some n)

unfoldable pub check_transformation : CandidateTransformation → Option Modelspec.TransformationSpec
check_transformation t = do
  order ← differencing_order t.order
  period ← optional_positive t.seasonal_period
  some (record { kind = t.kind; order = order; seasonal_period = period })

unfoldable pub check_transformations :
    List CandidateTransformation → Option (List Modelspec.TransformationSpec)
check_transformations [] = some []
check_transformations (t ∷ ts) = do
  checked ← check_transformation t
  rest ← check_transformations ts
  some (checked ∷ rest)

unfoldable pub check_model : CandidateModel → Option Modelspec.Model
check_model (CandidateModel.seasonal_naive z) = do
  n ← positive z
  some (Modelspec.Model.seasonal_naive n)
check_model (CandidateModel.ets trend seasonal z) = do
  period ← optional_positive z
  some (
      Modelspec.Model.ets (record { trend = trend; seasonal = seasonal; seasonal_period = period }))
check_model (CandidateModel.arima order seasonal) =
    some (Modelspec.Model.arima (record { order = order; seasonal_order = seasonal }))

-- An absent flag has its default.
abbrev pub approval_flag : Option Bool → Bool
approval_flag none = false
approval_flag (some b) = b

-- `ModelSpec.model_validate`
unfoldable pub model_validate : Candidate → Option Modelspec.ModelSpec
model_validate c = do
  transformations ← check_transformations c.transformations
  model ← check_model c.model
  horizon ← positive_up_to 60 c.horizon
  window ← positive c.initial_window
  step ← positive c.step_size
  forecast ← positive_up_to 60 c.forecast_horizon
  some (record {
    spec_version = c.spec_version;
    target = c.target;
    transformations = transformations;
    model = model;
    backtest = record {
      horizon = horizon;
      initial_window = window;
      step_size = step;
      metrics = c.metrics;
    };
    forecast_horizon = forecast;
    require_human_approval = approval_flag c.require_human_approval;
    rationale = c.rationale;
  })

-- The key is overwritten if it is there.
abbrev pub gated : Option Bool → Option Bool
gated none = none
gated (some _) = some true

unfoldable pub wrap_llm_structured_candidate : Candidate → Option Modelspec.ModelSpec
wrap_llm_structured_candidate c =
    model_validate (record c { require_human_approval = gated c.require_human_approval })

unfoldable pub parse_deterministic_json :
    (String → Option Candidate) → String → Option Modelspec.ModelSpec
parse_deterministic_json loads json_str = do data_in ← loads json_str; model_validate data_in
