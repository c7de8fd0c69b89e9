-- ===== src/Graph/State.antt =====
-- state.py. A key of the TypedDict may be absent: `none`. The keys that no node of the graph reads
-- or writes are left out.
use auditable_scientific_age.Prelude.{ℕ, String, Option, none, some, List, []}
use auditable_scientific_age.Scientific.Modelspec.{ModelSpec}
use auditable_scientific_age.Scientific.Validators.{Diagnostic, Code}
use auditable_scientific_age.Scientific.Compiler.{ExecutionPlan}
use auditable_scientific_age.Scientific.Repairs.{RepairProposal}

pub data Status : Type 0 where
  created running waiting_for_approval waiting_for_job completed failed cancelled : Status

-- What an event holds beside its name, its node and its step.
pub data Detail : Type 0 where
  plain : Detail
  errors_found : ℕ → Detail
  code : Code → Detail
  proposal_id : String → Detail

pub record Event : Type 0 where
  pub event : String
  pub node : String
  pub detail : Detail
  pub step : ℕ

pub record MacroAgentState : Type 0 where
  pub thread_id : Option String
  pub run_id : Option String
  pub user_query : Option String
  pub model_spec : Option ModelSpec
  pub execution_plan : Option ExecutionPlan
  pub diagnostics : Option (List Diagnostic)
  pub repair_history : Option (List RepairProposal)
  pub repair_attempts : Option ℕ
  pub trace_events : Option (List Event)
  pub errors : Option (List String)
  pub final_answer : Option String
  pub status : Option Status

-- `state.get(key, [])`
abbrev pub list_of {ℓ} : {A : Type ℓ} → Option (List A) → List A
list_of none = []
list_of (some xs) = xs

-- `state.get(key, default)`
abbrev pub value_or {ℓ} : {A : Type ℓ} → Option A → A → A
value_or none default = default
value_or (some a) default = a
