-- ===== src/Retrieval.antt =====
-- retrieval/: the chunks of a document, and the way from ranked hits to cited evidence. The rankings
-- themselves, on floats, are not part of it.
pub mod Chunker
pub mod Fusion
