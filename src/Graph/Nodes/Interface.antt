-- ===== src/Graph/Nodes/Interface.antt =====
-- nodes.py: what the nodes take and return, and the datasets that they know.
use auditable_scientific_age.Prelude.{ℕ, String, Option, none, List, [], ◌∷◌, length}
use auditable_scientific_age.Scientific.Modelspec.{ModelSpec}
use auditable_scientific_age.Scientific.Validators.{Diagnostic, Registry}
use auditable_scientific_age.Scientific.Compiler.{ExecutionPlan}
use auditable_scientific_age.Scientific.Repairs.{RepairProposal}
use auditable_scientific_age.Graph.State.{MacroAgentState, Status, Event, Detail, list_of}

-- What the nodes take from outside the program.
pub record Environment : Type 0 where
  pub plan_hex : String
  pub now : ℕ

-- The dict that a node returns: `none` for a key that it does not hold.
pub record Update : Type 0 where
  pub model_spec : Option ModelSpec
  pub execution_plan : Option (Option ExecutionPlan)
  pub diagnostics : Option (List Diagnostic)
  pub repair_history : Option (List RepairProposal)
  pub repair_attempts : Option ℕ
  pub trace_events : Option (List Event)
  pub errors : Option (List String)
  pub final_answer : Option String
  pub status : Option Status

abbrev pub no_update : Update
no_update = record {
  model_spec = none;
  execution_plan = none;
  diagnostics = none;
  repair_history = none;
  repair_attempts = none;
  trace_events = none;
  errors = none;
  final_answer = none;
  status = none;
}

abbrev pub local_data_registry : Registry
local_data_registry =
    ("monthly_sales.csv", (120, "monthly")) ∷ ("short_series.csv", (15, "monthly")) ∷ []

-- `len(state.get("trace_events", []))`
abbrev pub current_step : MacroAgentState → ℕ
current_step state = length (list_of state.trace_events)

abbrev pub event_at : String → String → Detail → ℕ → Event
event_at event node detail step = record {
  event = event;
  node = node;
  detail = detail;
  step = step;
}
