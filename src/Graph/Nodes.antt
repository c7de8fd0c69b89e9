-- ===== src/Graph/Nodes.antt =====
-- nodes.py. A node reads the state and returns the keys that it writes; `none` stands for an
-- exception that leaves the node; a node behind `generate_spec` that finds no specification raises.
-- The plan's random id and the clock are arguments.
mod Interface
mod Generate
mod Validate
mod Execute
mod Repair
mod Report
pub use Interface.*
unfoldable pub use Generate.*
unfoldable pub use Validate.*
unfoldable pub use Execute.*
unfoldable pub use Repair.*
unfoldable pub use Report.*
