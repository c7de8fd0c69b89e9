-- ===== src/Memory/Store/Upsert.antt =====
-- What a write makes of the memory under each key.
use auditable_scientific_age.Prelude.{
  String, false, Option, none, some, [], ◌∷◌, if◌then◌else◌, eq_iff, ◌≡◌, arith,
}
use auditable_scientific_age.Memory.Models.{MemoryRecord}
use auditable_scientific_age.Memory.Store.{
  Table, is_at, updated, upsert, first_at, get_memory_by_key, put_memory, has_id,
}

-- The record as it is read back, by the row that was there.
abbrev pub merged : Option MemoryRecord → MemoryRecord → MemoryRecord
merged none r = r
merged (some old) r = updated old r

pub first_at-upsert :
    (namespace key : String) (r : MemoryRecord) (db : Table)
    → first_at namespace key (upsert r db) ≡ (
        if is_at namespace key r
        then some (merged (first_at r.namespace r.key db) r)
        else first_at namespace key db)
unfolding first_at upsert
first_at-upsert namespace key r [] = ground arith
first_at-upsert namespace key r (old ∷ db) = ground (
  arith,
  eq_iff r.namespace namespace,
  eq_iff r.key key,
  eq_iff old.namespace namespace,
  eq_iff old.namespace r.namespace,
  eq_iff old.key key,
  eq_iff old.key r.key,
  first_at-upsert namespace key r db,
)

-- After a write whose id is free, the record's key reads as the record, but with the id and the type
-- of the row that was there, if there was one; every other key, of any namespace, reads as before.
pub put_memory-get_memory_by_key :
    (on_taken_id : Table → MemoryRecord → Option Table) (r : MemoryRecord) (db db' : Table)
    (namespace key : String)
    → has_id r.memory_id db ≡ false
    → put_memory on_taken_id r db ≡ some db'
    → get_memory_by_key namespace key db' ≡ (
        if is_at namespace key r
        then some (merged (get_memory_by_key r.namespace r.key db) r)
        else get_memory_by_key namespace key db)
unfolding put_memory get_memory_by_key
put_memory-get_memory_by_key on_taken_id r db db' namespace key free put =
    ground (arith, first_at-upsert namespace key r db)
