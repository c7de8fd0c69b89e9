-- ===== src/Memory.antt =====
-- memory/: the records of the long-term memory, their store, the policy on writes, and the
-- condensation of a run into an episode.
pub mod Models
pub mod Store
pub mod Policy
pub mod Condenser
pub mod Working
