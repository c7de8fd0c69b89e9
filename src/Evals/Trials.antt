-- ===== src/Evals/Trials.antt =====
-- models.py of evals/: a trial and its results. Durations are in hundredths of a millisecond, to
-- which the program rounds them.
use auditable_scientific_age.Prelude.{ℕ, String, Bool, Option, List, [], ◌∷◌, ◌&&◌, all, ◌==◌}
use auditable_scientific_age.Evals.Graders.{TrialEvent, GraderResult}

pub record TrialResult : Type 0 where
  pub trial_id : String
  pub task_id : String
  pub run_id : String
  pub status : String
  pub final_answer : Option String
  pub trace_events : List TrialEvent
  pub grader_results : List GraderResult
  pub duration_ms : ℕ
  pub step_count : ℕ

-- `all(g.passed for g in t.grader_results) if t.grader_results else t.status == "completed"`
unfoldable pub is_success : TrialResult → Bool
is_success t = elim t.grader_results [
  | [] ↦ t.status == "completed"
  | g ∷ graders ↦ g.passed && all (λ h. h.passed) graders
]
