-- ===== src/Tests.antt =====
-- Runs of the program on concrete inputs.
mod Samples
mod Scientific
mod Graph
mod Context
mod Services
mod Runtime
mod Evals
mod Memory
mod Retrieval
mod Mcp
mod Api
mod Tools
mod Skills
