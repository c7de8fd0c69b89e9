-- ===== src/Memory/Condenser/Importance.antt =====
-- How a run's failures weigh on the memory of it.
use auditable_scientific_age.Prelude.{
  ℕ, ◌-◌, ◌*◌, String, Bool, true, false, not, ◌&&◌, Option, none, some, List, [], ◌∷◌, length,
  total, max, if◌then◌else◌, ◌≡◌, refl, arith,
}
use auditable_scientific_age.Runtime.Models.{AgentState, AgentStep, AgentError, ToolObservation}
use auditable_scientific_age.Memory.Models.{to_memory_record}
use auditable_scientific_age.Memory.Condenser.{error_messages_of, condense}

abbrev has_error : Option AgentError → Bool
has_error none = false
has_error (some error) = true

-- The step observed a tool that failed with an error.
abbrev pub failure_of : Option ToolObservation → ℕ
failure_of none = 0
failure_of (some o) = if not o.ok && has_error o.error then 1 else 0

length-error_messages_of :
    (steps : List AgentStep)
    → length (error_messages_of steps) ≡ total (λ s. failure_of s.observation) steps
unfolding error_messages_of
length-error_messages_of [] = refl
length-error_messages_of (s ∷ steps) = ground (arith, length-error_messages_of steps)

-- The memory of a run loses two tenths of importance for every tool call that failed with an error,
-- down to one tenth.
pub condense-importance :
    (episode_id now written namespace : String) (s : AgentState)
    → (to_memory_record written namespace (condense episode_id now s)).importance
      ≡ max 1 (10 - total (λ step. failure_of step.observation) s.steps * 2)
unfolding condense to_memory_record
condense-importance episode_id now written namespace s = rw (length-error_messages_of s.steps) refl
