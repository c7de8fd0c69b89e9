-- ===== src/Memory/Policy/Clean.antt =====
-- What stands in the store after reviewed writes.
use auditable_scientific_age.Prelude.{
  String, Bool, true, false, not, ◌&&◌, Option, some, [], ◌∷◌, all, if◌then◌else◌, ◌≡◌, arith, inl,
  inr, Bool-cases,
}
use auditable_scientific_age.Memory.Models.{MemoryRecord}
use auditable_scientific_age.Memory.Store.{Table, upsert, put_memory, has_id}
use auditable_scientific_age.Memory.Policy.{
  Verdict, committed, rejected_sensitive, skipped_noise, is_sensitive, is_noise, candidate,
  inspect_and_commit,
}

-- Text without a forbidden keyword and with at least five characters besides the outer spaces.
abbrev pub is_clean : MemoryRecord → Bool
is_clean r = not (is_sensitive r.content) && not (is_noise r.content)

all-upsert :
    (r : MemoryRecord) (db : Table)
    → is_clean r ≡ true
    → all is_clean db ≡ true
    → all is_clean (upsert r db) ≡ true
unfolding upsert
all-upsert r [] h clean = ground (arith, h)
all-upsert r (old ∷ db) h clean = ground (arith, h, all-upsert r db)

-- The verdict that a text deserves.
abbrev pub verdict_of : String → Verdict
verdict_of content =
    if is_sensitive content
    then rejected_sensitive
    else if is_noise content
    then skipped_noise
    else committed

-- A write under a free id gets the verdict of its text, and leaves every stored text without a
-- forbidden keyword and at least five characters long when all were so before.
pub inspect_and_commit-clean :
    (on_taken_id : Table → MemoryRecord → Option Table)
    (memory_id now namespace key content memory_type : String) (db : Table)
    → has_id memory_id db ≡ false
    → all is_clean db ≡ true
    → (db' : Table) × (inspect_and_commit on_taken_id memory_id now namespace key content
          memory_type db
        ≡ some (verdict_of content, db'))
      × (all is_clean db' ≡ true)
unfolding inspect_and_commit put_memory
inspect_and_commit-clean on_taken_id memory_id now namespace key content memory_type db free clean =
    elim (Bool-cases (is_sensitive content)) [
      | inl bad ↦ (db, ground (arith, bad), clean)
      | inr good ↦ elim (Bool-cases (is_noise content)) [
        | inl short ↦ (db, ground (arith, good, short), clean)
        | inr long ↦
            let r = candidate memory_id now namespace key content memory_type in
            (
              upsert r db,
              ground (arith, good, long, free),
              all-upsert r db (ground (arith, good, long)) clean,
            )
      ]
    ]
