-- ===== src/Scientific.antt =====
-- The scientific kernel (src/agent_runtime/scientific): the model specification, its validation and
-- static analysis, the compiler to a plan, the executor of plan steps, and bounded repair.
pub mod Modelspec
pub mod Parser
pub mod Validators
pub mod StaticAnalysis
pub mod Compiler
pub mod Executor
pub mod Repairs
