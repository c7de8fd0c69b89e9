-- ===== src/Scientific/Modelspec.antt =====
-- modelspec.py. An integer that the schema holds positive is a natural number here; the orders of an
-- ARIMA model, which the schema leaves free, are signed.
use auditable_scientific_age.Prelude.{ℕ, String, Bool, Option, List}
use auditable_scientific_age.Prelude.Int.{ℤ}

pub data Frequency : Type 0 where
  daily weekly monthly quarterly : Frequency

-- The literal that a frequency is written as.
abbrev pub frequency_name : Frequency → String
frequency_name Frequency.daily = "daily"
frequency_name Frequency.weekly = "weekly"
frequency_name Frequency.monthly = "monthly"
frequency_name Frequency.quarterly = "quarterly"

pub record SeriesRef : Type 0 where
  pub dataset_id : String
  pub column : String
  pub frequency : Frequency

pub data TransformKind : Type 0 where
  none log difference seasonal_difference : TransformKind

pub record TransformationSpec : Type 0 where
  pub kind : TransformKind
  pub order : ℕ
  pub seasonal_period : Option ℕ

pub data Metric : Type 0 where
  mae rmse mape : Metric

pub record BacktestSpec : Type 0 where
  pub horizon : ℕ
  pub initial_window : ℕ
  pub step_size : ℕ
  pub metrics : List Metric

pub data Component : Type 0 where
  none additive : Component

-- (p, d, q)
pub record Order : Type 0 where
  pub p : ℤ
  pub d : ℤ
  pub q : ℤ

-- (P, D, Q, s)
pub record SeasonalOrder : Type 0 where
  pub p : ℤ
  pub d : ℤ
  pub q : ℤ
  pub s : ℤ

pub record EtsSpec : Type 0 where
  pub trend : Component
  pub seasonal : Component
  pub seasonal_period : Option ℕ

pub record ArimaSpec : Type 0 where
  pub order : Order
  pub seasonal_order : Option SeasonalOrder

-- The union that the field `family` tells apart.
pub data Model : Type 0 where
  seasonal_naive : ℕ → Model
  ets : EtsSpec → Model
  arima : ArimaSpec → Model

abbrev pub family : Model → String
family (Model.seasonal_naive _) = "seasonal_naive"
family (Model.ets _) = "ets"
family (Model.arima _) = "arima"

pub record ModelSpec : Type 0 where
  pub spec_version : String
  pub target : SeriesRef
  pub transformations : List TransformationSpec
  pub model : Model
  pub backtest : BacktestSpec
  pub forecast_horizon : ℕ
  pub require_human_approval : Bool
  pub rationale : String
