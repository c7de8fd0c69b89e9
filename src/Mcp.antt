-- ===== src/Mcp.antt =====
-- mcp/: the client of a tool server over its standard pipes, and the bridge from its tools to local ones.
pub mod Client
pub mod Bridge
