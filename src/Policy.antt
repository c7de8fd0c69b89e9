-- ===== src/Policy.antt =====
-- mcp_clients/: the registry of governed capabilities and the gate that decides on a tool call.
pub mod Registry
pub mod Gate
