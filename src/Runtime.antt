-- ===== src/Runtime.antt =====
-- runtime/, models.py, tracing.py, errors.py and the tool registry: the loop that asks the provider
-- and executes its tool calls.
pub mod Models
pub mod Tools
pub mod Prompt
pub mod Executor
pub mod Calls
pub mod Loop
