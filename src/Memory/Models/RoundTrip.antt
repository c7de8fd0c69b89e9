-- ===== src/Memory/Models/RoundTrip.antt =====
-- An episode through the record that stores it.
use text.Mathlib.TextLemmas.{append-eq-nil_iff}
use auditable_scientific_age.Prelude.{
  String, Bool, true, false, not, ◌&&◌, some, List, [], ◌∷◌, all, ◌≡◌, refl, ◌==◌, eq_iff, arith,
  Bool-cases, inl, inr,
}
use auditable_scientific_age.Prelude.Text.{join, ◌<>◌}
use auditable_scientific_age.Prelude.Text.Split.{lacks, split-join}
use auditable_scientific_age.Prelude.Text.Numerals.{read_number-str}
use auditable_scientific_age.Memory.Models.{
  EpisodeRecord, to_memory_record, split_field, from_memory_record,
}

-- A text that the separator of the metadata leaves whole.
abbrev pub is_entry : String → Bool
is_entry s = not (s == "") && lacks "|" s

all-lacks : (parts : List String) → all is_entry parts ≡ true → all (lacks "|") parts ≡ true
all-lacks [] h = refl
all-lacks (s ∷ parts) h = ground (arith, h, all-lacks parts)

append-ne-empty : (s t : String) → (s == "") ≡ false → (s <> t == "") ≡ false
append-ne-empty s t h = elim (Bool-cases (s <> t == "")) [
  | inl e ↦ let s_empty = (eq_iff s "").1 (append-eq-nil_iff.0 ((eq_iff (s <> t) "").0 e)).0 in cc
  | inr e ↦ e
]

join-ne-empty :
    (s : String) (parts : List String) → is_entry s ≡ true → (join "|" (s ∷ parts) == "") ≡ false
join-ne-empty s [] h = ground (arith, h)
join-ne-empty s (t ∷ parts) h = append-ne-empty s ("|" <> join "|" (t ∷ parts)) (ground (arith, h))

split_field-join :
    (parts : List String) → all is_entry parts ≡ true → split_field (some (join "|" parts)) ≡ parts
unfolding split_field
split_field-join [] h = refl
split_field-join (s ∷ parts) h =
    rw (join-ne-empty s parts (ground (arith, h)))
      (split-join "|" s parts (all-lacks (s ∷ parts) h))

-- An episode whose decisions and errors are neither empty nor hold a "|" comes back from its record,
-- with the record's time in place of its own.
pub from_memory_record-to_memory_record :
    (now namespace : String) (e : EpisodeRecord)
    → all is_entry e.key_decisions ≡ true
    → all is_entry e.error_messages ≡ true
    → from_memory_record (to_memory_record now namespace e) ≡ some (record e { recorded_at = now })
unfolding from_memory_record to_memory_record
from_memory_record-to_memory_record now namespace e d m =
    rw
      (
        read_number-str e.step_count,
        split_field-join e.key_decisions d,
        split_field-join e.error_messages m,
      )
      refl
