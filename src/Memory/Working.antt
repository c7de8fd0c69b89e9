-- ===== src/Memory/Working.antt =====
-- working_memory.py: what the agent works with during one run.
use auditable_scientific_age.Prelude.{
  ℕ, ◌-◌, ◌*◌, String, Bool, false, ◌&&◌, Option, none, some, List, length, ltb,
}
use auditable_scientific_age.Context.Models.{ContextBudgetReport}

pub record WorkingMemory : Type 0 where
  pub run_id : String
  pub namespace : String
  pub max_steps : ℕ
  pub max_token_budget : ℕ
  pub max_tool_retries : ℕ
  pub max_concurrency : ℕ
  pub active_skill_name : Option String
  pub active_trust_boundary : String
  pub last_budget_report : Option ContextBudgetReport
  pub current_step : ℕ
  pub pending_tool_calls : List String
  pub evidence_sources : List String
  pub activated_citations : List String

abbrev is_critical : Option ContextBudgetReport → Bool
is_critical none = false
is_critical (some report) =
    ltb (9 * report.utilization_ratio.1) (10 * report.utilization_ratio.0)
    && report.lost_in_middle_warning

unfoldable pub is_budget_critical : WorkingMemory → Bool
is_budget_critical m = is_critical m.last_budget_report

-- `max(0, self.max_steps - self.current_step)`
unfoldable pub remaining_steps : WorkingMemory → ℕ
remaining_steps m = m.max_steps - m.current_step

pub record Snapshot : Type 0 where
  pub run_id : String
  pub namespace : String
  pub current_step : ℕ
  pub remaining : ℕ
  pub max_token_budget : ℕ
  pub active_skill : Option String
  pub budget_critical : Bool
  pub pending_tool_calls : ℕ
  pub evidence_sources : ℕ

unfoldable pub snapshot : WorkingMemory → Snapshot
unfolding is_budget_critical remaining_steps
snapshot m = record {
  run_id = m.run_id;
  namespace = m.namespace;
  current_step = m.current_step;
  remaining = remaining_steps m;
  max_token_budget = m.max_token_budget;
  active_skill = m.active_skill_name;
  budget_critical = is_budget_critical m;
  pending_tool_calls = length m.pending_tool_calls;
  evidence_sources = length m.evidence_sources;
}
