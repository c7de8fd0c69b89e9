-- ===== src/Context.antt =====
-- The context assembler (src/agent_runtime/context): deduplication, pruning, the sort by priority,
-- truncation by a token budget, the order against positional bias, and the report.
pub mod Models
pub mod Budget
pub mod Dedup
pub mod Pruner
pub mod Assembler
