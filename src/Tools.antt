-- ===== src/Tools.antt =====
-- tools/: the registry and the writer of run markers.
pub mod Registry
pub mod Writer
