-- ===== src/Evals/Skills.antt =====
-- skills_tracker.py and optimizer.py: the gate on core skills and the patch for a failure. A rate is
-- in units of 1/10000, and two rates are compared as exact fractions, without the rounding of
-- floats.
pub mod Integrity
use auditable_scientific_age.Prelude.{
  ℕ, zero, suc, ◌+◌, ◌*◌, String, Bool, true, false, Option, none, some, List, [], ◌∷◌, ◌++◌, ◌&&◌,
  map, if◌then◌else◌, leb, ◌==◌,
}
use auditable_scientific_age.Prelude.Text.{◌<>◌, codes, contains}
use auditable_scientific_age.Prelude.Dict.{Dict, get_or, insert}
use auditable_scientific_age.Evals.Trials.{TrialResult, is_success}
use auditable_scientific_age.Evals.Harness.{FailureEpisode}

abbrev pub default_baseline : Dict ℕ
default_baseline = ("skill_rolling_backtest", 10000) ∷ ("skill_seasonal_diagnostics", 10000) ∷ []

abbrev pub keys : Dict ℕ → List String
keys [] = []
keys ((name, rate) ∷ d) = name ∷ keys d

-- `skill_scores` and `skill_counts`
pub record Tally : Type 0 where
  pub skill_scores : Dict ℕ
  pub skill_counts : Dict ℕ

abbrev pub zeros : List String → Dict ℕ
zeros [] = []
zeros (name ∷ names) = (name, 0) ∷ zeros names

-- `skill_name in trial.task_id`
unfoldable pub concerns : String → TrialResult → Bool
unfolding contains
concerns skill_name trial = contains (codes skill_name) (codes trial.task_id)

-- `d[name] += n`, for a name that is there
abbrev pub add_to : String → ℕ → Dict ℕ → Dict ℕ
add_to name n d = insert name (get_or name 0 d + n) d

-- The body of the inner loop.
unfoldable pub count_skill : TrialResult → String → Tally → Tally
unfolding concerns is_success
count_skill trial name t =
    if concerns name trial
    then record {
      skill_scores = add_to name (if is_success trial then 1 else 0) t.skill_scores;
      skill_counts = add_to name 1 t.skill_counts;
    }
    else t

unfoldable pub count_trial : TrialResult → List String → Tally → Tally
unfolding count_skill
count_trial trial [] t = t
count_trial trial (name ∷ names) t = count_trial trial names (count_skill trial name t)

unfoldable pub count_trials : List TrialResult → List String → Tally → Tally
unfolding count_trial
count_trials [] names t = t
count_trials (trial ∷ trials) names t = count_trials trials names (count_trial trial names t)

pub data SkillDetail : Type 0 where
  not_covered : SkillDetail
  rated : (baseline_rate score count : ℕ) (passed : Bool) → SkillDetail

pub record IntegrityReport : Type 0 where
  pub integrity_passed : Bool
  pub details : Dict SkillDetail

-- One skill of the second loop; the actual rate is `score / count`.
unfoldable pub judge : ℕ → ℕ → ℕ → SkillDetail
judge baseline_rate score zero = not_covered
judge baseline_rate score (suc n) =
    rated baseline_rate score (suc n) (leb (baseline_rate * suc n) (score * 10000))

abbrev pub detail_passed : SkillDetail → Bool
detail_passed not_covered = false
detail_passed (rated baseline_rate score count passed) = passed

unfoldable pub report_on : Dict ℕ → Tally → IntegrityReport
unfolding judge
report_on [] t = record { integrity_passed = true; details = [] }
report_on ((name, baseline_rate) ∷ baseline) t =
    let rest = report_on baseline t in
    let detail =
      judge baseline_rate (get_or name 0 t.skill_scores) (get_or name 0 t.skill_counts) in
    record {
      integrity_passed = detail_passed detail && rest.integrity_passed;
      details = (name, detail) ∷ rest.details;
    }

unfoldable pub verify_skills_integrity : Dict ℕ → List TrialResult → IntegrityReport
unfolding count_trials report_on
verify_skills_integrity baseline_skills candidate_trial_results = report_on baseline_skills (
    count_trials candidate_trial_results (keys baseline_skills) (record {
      skill_scores = zeros (keys baseline_skills);
      skill_counts = zeros (keys baseline_skills);
    }))

pub record CandidatePatch : Type 0 where
  pub patch_id : String
  pub target_node : String
  pub injected_instruction : String

abbrev pub general_defense : String
general_defense =
    "[GENERAL DEFENSE] An unknown runtime failure occurred. Return to a safe node and validate input boundaries."

-- `episode.failed_node or "agent_core"`
abbrev pub node_or_core : Option String → String
node_or_core none = "agent_core"
node_or_core (some node) = if node == "" then "agent_core" else node

-- The patch, and the episode that it leaves.
unfoldable pub diagnose_and_suggest : Dict String → FailureEpisode → CandidatePatch × FailureEpisode
diagnose_and_suggest knowledge_base episode =
    let instruction = get_or episode.failure_type general_defense knowledge_base in
    let failed_node = node_or_core episode.failed_node in
    (
      record {
        patch_id = "patch_" <> episode.task_id <> "_" <> episode.failure_type;
        target_node = failed_node;
        injected_instruction = instruction;
      },
      record episode {
        candidate_patches = episode.candidate_patches ++ instruction ∷ [];
        root_cause_hypothesis = some (
            "Diagnostic report: detected failure type [" <> episode.failure_type
            <> "]. The model failed to converge at node [" <> failed_node <> "].");
      },
    )
