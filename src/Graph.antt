-- ===== src/Graph.antt =====
-- The scientific workflow (src/agent_runtime/graph): the state and its reducers, the five nodes, the
-- routing functions, and the graph that the builder connects.
pub mod State
pub mod Reducers
pub mod Nodes
pub mod Edges
pub mod Builder
pub mod Workflow
pub mod Boundary
pub mod Runs
pub mod Safety
pub mod Bounds
pub mod Masking
pub mod Unapproved
pub mod Cycle
