-- ===== src/Retrieval/Chunker.antt =====
-- chunker.py of retrieval/. A text is its code points. The chunker's loop runs on fuel; `none` is
-- a loop that does not end.
pub mod Reassembly
pub mod Endless
use auditable_scientific_age.Prelude.{
  ℕ, zero, suc, ◌+◌, ◌-◌, ◌*◌, String, Bool, true, false, Option, none, some, List, [], ◌∷◌, ◌++◌,
  length, min, if◌then◌else◌, leb, ltb, nat_eq,
}
use auditable_scientific_age.Prelude.Dict.{Dict, insert}
use auditable_scientific_age.Prelude.Slices.{slice}
use auditable_scientific_age.Prelude.Text.{Text, str, codes, ◌<>◌}

pub record Document : Type 0 where
  pub document_id : String
  pub title : String
  pub source_path : String
  pub content : Text
  pub trust_level : String

pub record Chunk : Type 0 where
  pub chunk_id : String
  pub document_id : String
  pub text : Text
  pub metadata : Dict String
  pub trust_level : String

abbrev pub chunk_of : Document → ℕ → Text → Dict String → Chunk
chunk_of doc chunk_idx text metadata = record {
  chunk_id = doc.document_id <> "_c" <> str chunk_idx;
  document_id = doc.document_id;
  text = text;
  metadata = metadata;
  trust_level = doc.trust_level;
}

abbrev pub cons? : Chunk → Option (List Chunk) → Option (List Chunk)
cons? c none = none
cons? c (some chunks) = some (c ∷ chunks)

-- The chunks from `start` on.
unfoldable pub chunk_loop :
    (chunk_size overlap : ℕ) (doc : Document) (fuel start chunk_idx : ℕ) → Option (List Chunk)
chunk_loop chunk_size overlap doc zero start chunk_idx = none
chunk_loop chunk_size overlap doc (suc fuel) start chunk_idx =
    let rest =
      chunk_loop chunk_size overlap doc fuel (start + chunk_size - overlap) (suc chunk_idx) in
    let end = min (start + chunk_size) (length doc.content) in
    let chunk =
      chunk_of doc chunk_idx (slice start end doc.content)
        (("source_path", doc.source_path) ∷ ("title", doc.title) ∷ []) in
    if ltb start (length doc.content)
    then (if nat_eq end (length doc.content) then some (chunk ∷ []) else cons? chunk rest)
    else some []

-- `chunk_document`, with the fuel of its loop
unfoldable pub chunk_document : (chunk_size overlap fuel : ℕ) → Document → Option (List Chunk)
unfolding chunk_loop
chunk_document chunk_size overlap fuel doc =
    if leb (length doc.content) chunk_size
    then some (chunk_of doc 0 doc.content [] ∷ [])
    else chunk_loop chunk_size overlap doc fuel 0 0
