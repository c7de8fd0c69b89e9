-- ===== src/Retrieval/Chunker/Endless.antt =====
-- The chunker's loop where the chunks overlap as far as they reach.
use auditable_scientific_age.Prelude.{
  ℕ, zero, suc, ◌+◌, ◌-◌, ◌≤◌, ◌<◌, none, length, ◌≡◌, refl, arith,
}
use auditable_scientific_age.Retrieval.Chunker.{Document, chunk_loop, chunk_document}

chunk_loop_endless :
    (chunk_size overlap fuel start chunk_idx : ℕ) (doc : Document)
    → chunk_size ≤ overlap
    → start + chunk_size < length doc.content
    → chunk_loop chunk_size overlap doc fuel start chunk_idx ≡ none
unfolding chunk_loop
chunk_loop_endless chunk_size overlap zero start chunk_idx doc far short = refl
chunk_loop_endless chunk_size overlap (suc fuel) start chunk_idx doc far short = ground (
  arith,
  chunk_loop_endless chunk_size overlap fuel (start + chunk_size - overlap) (suc chunk_idx) doc far
      (omega (arith, far, short)),
)

-- With an overlap of at least the chunk size, the chunker does not end on any document longer than a
-- chunk.
pub chunk_document_endless :
    (chunk_size overlap fuel : ℕ) (doc : Document)
    → chunk_size ≤ overlap
    → chunk_size < length doc.content
    → chunk_document chunk_size overlap fuel doc ≡ none
unfolding chunk_document
chunk_document_endless chunk_size overlap fuel doc far short =
    ground (arith, chunk_loop_endless chunk_size overlap fuel 0 0 doc far (omega (arith, short)))
