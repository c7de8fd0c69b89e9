-- ===== src/Jobs.antt =====
-- jobs/: the store of long-running jobs and the worker that polls it.
pub mod Store
pub mod Worker
