-- ===== src/Tests/Memory.antt =====
-- A store with one episode, and writes to it.
use auditable_scientific_age.Prelude.{
  String, true, none, some, Option, List, [], ◌∷◌, ◌≡◌, refl, all,
}
use auditable_scientific_age.Prelude.Text.{lower, contains, strip}
use auditable_scientific_age.Memory.Models.{
  MemoryRecord, EpisodeRecord, to_memory_record, from_memory_record,
}
use auditable_scientific_age.Memory.Models.RoundTrip.{from_memory_record-to_memory_record}
use auditable_scientific_age.Memory.Store.{Table, upsert, put_all}
use auditable_scientific_age.Memory.Store.Refines.{put_all_refines, is_unique, view, replay}
use auditable_scientific_age.Memory.Policy.{is_sensitive, is_noise, inspect_and_commit}
use auditable_scientific_age.Memory.Policy.Clean.{inspect_and_commit-clean, verdict_of, is_clean}

abbrev episode : EpisodeRecord
episode = record {
  episode_id = "e1";
  run_id = "r1";
  task_summary = "Fit the monthly sales";
  outcome = "failed";
  key_decisions = "called load (call_id=c1)" ∷ "called fit (call_id=c2): the order is small" ∷ [];
  error_messages = "fit: did not converge" ∷ [];
  step_count = 12;
  recorded_at = "2025-01-01T00:00:00";
}

abbrev semantic_memory : String → String → String → MemoryRecord
semantic_memory memory_id key content = record {
  memory_id = memory_id;
  namespace = "project";
  key = key;
  memory_type = "semantic";
  content = content;
  importance = 10;
  updated_at = "2025-01-02T00:00:00";
  metadata = [];
}

-- A primary key that is taken raises an exception.
abbrev refuse : Table → MemoryRecord → Option Table
refuse db r = none

abbrev memories : Table
memories = semantic_memory "m1" "units" "Sales are in thousands" ∷ []

from_memory_record-to_memory_record_example :
    from_memory_record (to_memory_record "2025-01-01T00:00:00" "project" episode) ≡ some episode
from_memory_record-to_memory_record_example =
    from_memory_record-to_memory_record "2025-01-01T00:00:00" "project" episode refl refl

abbrev writes : List MemoryRecord
writes =
    semantic_memory "m2" "units" "Sales are in units" ∷ semantic_memory "m3" "series" "Monthly" ∷ []

put_all_refines_example :
    (db' : Table) × (put_all refuse writes memories ≡ some db')
    × (is_unique db' ≡ true)
    × (view db' ≡ replay writes (view memories))
unfolding upsert
put_all_refines_example = put_all_refines refuse writes memories refl refl

inspect_and_commit-clean_example :
    (db' : Table) × (inspect_and_commit refuse "m2" "2025-01-02T00:00:00" "project" "series"
        "Monthly revenue" "semantic" memories
      ≡ some (verdict_of "Monthly revenue", db'))
    × (all is_clean db' ≡ true)
unfolding is_sensitive is_noise lower contains strip
inspect_and_commit-clean_example =
    inspect_and_commit-clean refuse "m2" "2025-01-02T00:00:00" "project" "series" "Monthly revenue"
      "semantic" memories refl refl
