-- ===== src/Memory/Models.antt =====
-- models.py of memory/. An importance is in tenths, without the rounding of floats. `int(...)` is
-- read for a text of decimal digits, which is all that the program writes; any other text counts
-- as one that raises a ValueError, which is `none`.
pub mod RoundTrip
use auditable_scientific_age.Prelude.{
  ℕ, ◌+◌, ◌-◌, ◌*◌, String, Option, none, some, List, [], ◌∷◌, length, max, if◌then◌else◌, ◌==◌,
}
use auditable_scientific_age.Prelude.Text.{str, join, ◌<>◌}
use auditable_scientific_age.Prelude.Text.Split.{split}
use auditable_scientific_age.Prelude.Text.Numerals.{read_number}
use auditable_scientific_age.Prelude.Dict.{Dict, get, get_or}

pub record MemoryRecord : Type 0 where
  pub memory_id : String
  pub namespace : String
  pub key : String
  pub memory_type : String
  pub content : String
  pub importance : ℕ
  pub updated_at : String
  pub metadata : Dict String

pub record EpisodeRecord : Type 0 where
  pub episode_id : String
  pub run_id : String
  pub task_summary : String
  pub outcome : String
  pub key_decisions : List String
  pub error_messages : List String
  pub step_count : ℕ
  pub recorded_at : String

-- `max(0.1, 1.0 - len(errors) * 0.2)`, in tenths
abbrev pub importance_of : List String → ℕ
importance_of error_messages = max 1 (10 - length error_messages * 2)

-- The metadata of an episode's record.
abbrev pub metadata_of : EpisodeRecord → Dict String
metadata_of e =
    ("episode_id", e.episode_id)
    ∷ ("run_id", e.run_id)
    ∷ ("outcome", e.outcome)
    ∷ ("step_count", str e.step_count)
    ∷ ("decisions", join "|" e.key_decisions)
    ∷ ("errors", join "|" e.error_messages)
    ∷ []

-- `now` is the clock when the record is made.
unfoldable pub to_memory_record : String → String → EpisodeRecord → MemoryRecord
to_memory_record now namespace e = record {
  memory_id = e.episode_id;
  namespace = namespace;
  key = "episode_" <> e.run_id;
  memory_type = "episodic";
  content = e.task_summary;
  importance = importance_of e.error_messages;
  updated_at = now;
  metadata = metadata_of e;
}

-- `meta.get(key, "").split("|") if meta.get(key) else []`
unfoldable pub split_field : Option String → List String
unfolding split
split_field none = []
split_field (some text) = if text == "" then [] else split "|" text

-- `int(meta.get("step_count", 0))`
unfoldable pub step_count_of : Option String → Option ℕ
unfolding read_number
step_count_of none = some 0
step_count_of (some text) = read_number text

abbrev episode_with : MemoryRecord → Option ℕ → Option EpisodeRecord
episode_with r none = none
episode_with r (some step_count) = some (record {
  episode_id = get_or "episode_id" r.memory_id r.metadata;
  run_id = get_or "run_id" "" r.metadata;
  task_summary = r.content;
  outcome = get_or "outcome" "unknown" r.metadata;
  key_decisions = split_field (get "decisions" r.metadata);
  error_messages = split_field (get "errors" r.metadata);
  step_count = step_count;
  recorded_at = r.updated_at;
})

unfoldable pub from_memory_record : MemoryRecord → Option EpisodeRecord
unfolding split_field step_count_of
from_memory_record r = episode_with r (step_count_of (get "step_count" r.metadata))
