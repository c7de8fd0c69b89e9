-- ===== src/Memory/Store.antt =====
-- sqlite_store.py of memory/: the statements of `SQLiteMemoryStore` on the table of memories. The
-- metadata is stored as JSON text and read back, which for a dict of texts changes nothing. What
-- the database does when a primary key is taken is a parameter; `none` is an exception. The rows of
-- a SELECT without ORDER BY come in an order that the database chooses; here it is the table's.
pub mod Upsert
pub mod Refines
use auditable_scientific_age.Prelude.{
  ℕ, String, Bool, true, false, ◌&&◌, Option, none, some, List, [], ◌∷◌, any, keep_if, take,
  if◌then◌else◌, ◌==◌,
}
use auditable_scientific_age.Memory.Models.{MemoryRecord}

abbrev pub Table : Type 0
Table = List MemoryRecord

-- `namespace = ? AND key = ?`
abbrev pub is_at : String → String → MemoryRecord → Bool
is_at namespace key r = r.namespace == namespace && r.key == key

-- The columns that `DO UPDATE SET` names.
abbrev pub updated : MemoryRecord → MemoryRecord → MemoryRecord
updated old excluded = record old {
  content = excluded.content;
  updated_at = excluded.updated_at;
  importance = excluded.importance;
  metadata = excluded.metadata;
}

-- `INSERT … ON CONFLICT(namespace, key) DO UPDATE`, where the primary key is free
unfoldable pub upsert : MemoryRecord → Table → Table
upsert r [] = r ∷ []
upsert r (old ∷ db) = if is_at r.namespace r.key old then updated old r ∷ db else old ∷ upsert r db

abbrev pub has_id : String → Table → Bool
has_id memory_id db = any (λ r. r.memory_id == memory_id) db

unfoldable pub first_at : String → String → Table → Option MemoryRecord
first_at namespace key [] = none
first_at namespace key (r ∷ db) =
    if is_at namespace key r then some r else first_at namespace key db

unfoldable pub get_memory_by_key : String → String → Table → Option MemoryRecord
unfolding first_at
get_memory_by_key namespace key db = first_at namespace key db

unfoldable pub list_namespace_memories : String → Table → List MemoryRecord
list_namespace_memories namespace db = keep_if (λ r. r.namespace == namespace) db

-- The rows of `list_episodes_by_namespace`, where `by_recency` is the database's descending order of
-- the column `updated_at`.
unfoldable pub list_episodes_by_namespace :
    (List MemoryRecord → List MemoryRecord) → ℕ → String → Table → List MemoryRecord
list_episodes_by_namespace by_recency limit namespace db =
    take limit
      (by_recency (keep_if (λ r. r.namespace == namespace && r.memory_type == "episodic") db))

module _ (on_taken_id : Table → MemoryRecord → Option Table) where
  unfoldable pub put_memory : MemoryRecord → Table → Option Table
  unfolding upsert
  put_memory r db = if has_id r.memory_id db then on_taken_id db r else some (upsert r db)

  -- `none` is also the ValueError on a record of another type.
  unfoldable pub put_episode : MemoryRecord → Table → Option Table
  unfolding put_memory
  put_episode r db = if r.memory_type == "episodic" then put_memory r db else none

  abbrev then_put : Option Table → (Table → Option Table) → Option Table
  then_put none f = none
  then_put (some db) f = f db

  -- One write after another.
  unfoldable pub put_all : List MemoryRecord → Table → Option Table
  unfolding put_memory
  put_all [] db = some db
  put_all (r ∷ rs) db = then_put (put_memory r db) (put_all rs)
