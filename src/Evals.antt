-- ===== src/Evals.antt =====
-- evals/: trials, their graders, the harness and the gates on a suite's results.
pub mod Graders
pub mod Trials
pub mod Regression
pub mod Runner
pub mod Harness
pub mod Stream
pub mod Skills
