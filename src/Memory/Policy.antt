-- ===== src/Memory/Policy.antt =====
-- policy.py of memory/: the review before a text is remembered. `taken_id` is what the store does
-- when the primary key is taken; the new id and the clock are arguments. `none` is an exception.
pub mod Clean
use auditable_scientific_age.Prelude.{
  ℕ, String, Bool, true, false, Option, none, some, List, [], ◌∷◌, length, any, if◌then◌else◌, ltb,
}
use auditable_scientific_age.Prelude.Text.{codes, lower, contains, strip}
use auditable_scientific_age.Memory.Models.{MemoryRecord}
use auditable_scientific_age.Memory.Store.{Table, put_memory}

pub data Verdict : Type 0 where
  committed : Verdict
  rejected_sensitive : Verdict
  skipped_noise : Verdict

abbrev pub forbidden_keywords : List String
forbidden_keywords =
    "ignore previous" ∷ "delete all" ∷ "system instruction" ∷ "override runtime" ∷ []

-- The loop over `FORBIDDEN_KEYWORDS`.
unfoldable pub is_sensitive : String → Bool
unfolding lower contains
is_sensitive content = any (λ kw. contains (codes kw) (lower (codes content))) forbidden_keywords

unfoldable pub is_noise : String → Bool
unfolding strip
is_noise content = ltb (length (strip (codes content))) 5

-- The candidate, with the importance and the metadata that a record starts with.
abbrev pub candidate : String → String → String → String → String → String → MemoryRecord
candidate memory_id now namespace key content memory_type = record {
  memory_id = memory_id;
  namespace = namespace;
  key = key;
  memory_type = memory_type;
  content = content;
  importance = 10;
  updated_at = now;
  metadata = [];
}

-- `store.put_memory(record)`, then the verdict
abbrev with_verdict : Option Table → Option (Verdict × Table)
with_verdict none = none
with_verdict (some db) = some (committed, db)

module _ (on_taken_id : Table → MemoryRecord → Option Table) where
  unfoldable pub inspect_and_commit :
      (memory_id now namespace key content memory_type : String) → Table → Option (Verdict × Table)
  unfolding is_sensitive is_noise put_memory
  inspect_and_commit memory_id now namespace key content memory_type db =
      if is_sensitive content
      then some (rejected_sensitive, db)
      else if is_noise content
      then some (skipped_noise, db)
      else with_verdict
          (put_memory on_taken_id (candidate memory_id now namespace key content memory_type) db)
