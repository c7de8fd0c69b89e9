-- ===== src/Retrieval/Chunker/Reassembly.antt =====
-- The document back from its chunks.
use auditable_scientific_age.Prelude.{
  ℕ, zero, suc, ◌+◌, ◌-◌, ◌≤◌, ◌<◌, Bool, true, some, List, [], ◌∷◌, ◌++◌, length, take, min, leb,
  nat_eq, all, ◌≡◌, refl, arith, ap, ◌∙◌, sym, inl, inr, Bool-cases, length-take-le, append-nil,
}
use auditable_scientific_age.Prelude.Text.{Text}
use auditable_scientific_age.Prelude.Slices.{
  drop, slice, take-append-drop, drop_twice, drop-take, take_all, length-drop,
}
use auditable_scientific_age.Retrieval.Chunker.{
  Document, Chunk, chunk_of, chunk_loop, chunk_document,
}

-- The texts without what they share with the chunk before.
abbrev pub tails : ℕ → List Chunk → Text
tails overlap [] = []
tails overlap (c ∷ chunks) = drop overlap c.text ++ tails overlap chunks

abbrev pub reassemble : ℕ → List Chunk → Text
reassemble overlap [] = []
reassemble overlap (c ∷ chunks) = c.text ++ tails overlap chunks

abbrev pub all_fit : ℕ → List Chunk → Bool
all_fit chunk_size chunks = all (λ c. leb (length c.text) chunk_size) chunks

length-slice : (first last : ℕ) (t : Text) → length (slice first last t) ≤ last - first
length-slice first last t = length-take-le (last - first) (drop first t)

-- What follows a chunk's overlap is its new part.
drop-slice : (n first last : ℕ) (t : Text) → drop n (slice first last t) ≡ slice (first + n) last t
drop-slice n first last t =
    drop-take n (last - first) (drop first t)
    ∙ ap (take (last - first - n)) (drop_twice n first t)
    ∙ ap (λ k. take k (drop (first + n) t)) (omega arith)

-- Two slices that meet.
slice-append-drop :
    (first last : ℕ) (t : Text) → first ≤ last → slice first last t ++ drop last t ≡ drop first t
slice-append-drop first last t h =
    let e : last ≡ first + (last - first) = omega (arith, h) in
    ap (λ r. slice first last t ++ r)
      (ap (λ k. drop k t) e ∙ sym (drop_twice (last - first) first t))
    ∙ take-append-drop (last - first) (drop first t)

slice_to_end : (first : ℕ) (t : Text) → slice first (length t) t ≡ drop first t
slice_to_end first t =
    take_all (length t - first) (drop first t) (omega (arith, length-drop first t))

-- The chunks from `start` on: they fit, and the text after any part of the first that its end allows
-- is the rest of the document.
abbrev Chunked : (chunk_size overlap : ℕ) (doc : Document) (fuel start chunk_idx : ℕ) → Type 0
Chunked chunk_size overlap doc fuel start chunk_idx =
    (c : Chunk) × (chunks : List Chunk) × (chunk_loop chunk_size overlap doc fuel start chunk_idx
      ≡ some (c ∷ chunks))
    × ((n : ℕ)
        → start + n ≤ min (start + chunk_size) (length doc.content)
        → drop n c.text ++ tails overlap chunks ≡ drop (start + n) doc.content)
    × (all_fit chunk_size (c ∷ chunks) ≡ true)

chunk_at : (chunk_size : ℕ) (doc : Document) (start chunk_idx : ℕ) → Chunk
chunk_at chunk_size doc start chunk_idx =
    let end = min (start + chunk_size) (length doc.content) in
    chunk_of doc chunk_idx (slice start end doc.content)
      (("source_path", doc.source_path) ∷ ("title", doc.title) ∷ [])

chunk_at-fits :
    (chunk_size : ℕ) (doc : Document) (start chunk_idx : ℕ)
    → length (chunk_at chunk_size doc start chunk_idx).text ≤ chunk_size
unfolding chunk_at
chunk_at-fits chunk_size doc start chunk_idx =
    let end = min (start + chunk_size) (length doc.content) in
    omega (arith, length-slice start end doc.content)

drop-chunk_at :
    (chunk_size : ℕ) (doc : Document) (start chunk_idx n : ℕ)
    → start + n ≤ min (start + chunk_size) (length doc.content)
    → drop n (chunk_at chunk_size doc start chunk_idx).text
        ++ drop (min (start + chunk_size) (length doc.content)) doc.content
      ≡ drop (start + n) doc.content
unfolding chunk_at
drop-chunk_at chunk_size doc start chunk_idx n h =
    let end = min (start + chunk_size) (length doc.content) in
    ap (λ r. r ++ drop end doc.content) (drop-slice n start end doc.content)
    ∙ slice-append-drop (start + n) end doc.content h

drop_whole : (t : Text) → drop (length t) t ≡ []
drop_whole [] = refl
drop_whole (c ∷ t) = drop_whole t

loop-Chunked :
    (chunk_size overlap : ℕ) (doc : Document) (fuel start chunk_idx : ℕ)
    → overlap < chunk_size
    → start < length doc.content
    → length doc.content ≤ start + fuel
    → Chunked chunk_size overlap doc fuel start chunk_idx
unfolding chunk_loop chunk_at
loop-Chunked chunk_size overlap doc zero start chunk_idx near left enough =
    absurd (omega (arith, left, enough))
loop-Chunked chunk_size overlap doc (suc fuel) start chunk_idx near left enough =
    let end = min (start + chunk_size) (length doc.content) in
    let c = chunk_at chunk_size doc start chunk_idx in
    let fits = chunk_at-fits chunk_size doc start chunk_idx in
    elim (Bool-cases (nat_eq end (length doc.content))) [
      | inl last ↦
          let whole : end ≡ length doc.content = ground (arith, last) in
          (
            c,
            [],
            ground (arith, left, last),
            (λ n h.
                ap (λ r. drop n c.text ++ r)
                  (sym (ap (λ k. drop k doc.content) whole ∙ drop_whole doc.content))
                ∙ drop-chunk_at chunk_size doc start chunk_idx n h),
            ground (arith, fits),
          )
      | inr more ↦
          let inside : start + chunk_size < length doc.content = ground (arith, more) in
          let next = start + chunk_size - overlap in
          let (c', chunks, done, rest, all_fits) =
            loop-Chunked chunk_size overlap doc fuel next (suc chunk_idx) near
              (omega (arith, near, inside)) (omega (arith, near, enough)) in
          let meets : next + overlap ≡ end = omega (arith, near, inside) in
          (
            c,
            c' ∷ chunks,
            ground (arith, left, more, done),
            (λ n h.
                ap (λ r. drop n c.text ++ r)
                  (rest overlap (omega (arith, near, inside)) ∙ ap (λ k. drop k doc.content) meets)
                ∙ drop-chunk_at chunk_size doc start chunk_idx n h),
            ground (arith, fits, all_fits),
          )
    ]

-- With an overlap below the chunk size, and as much fuel as the document has characters, the chunker
-- ends; its chunks are at most of the chunk size, and the document is the first chunk followed by
-- the others without the overlap at their front.
pub chunk_document-reassemble :
    (chunk_size overlap : ℕ) (doc : Document)
    → overlap < chunk_size
    → (chunks : List Chunk) × (chunk_document chunk_size overlap (length doc.content) doc
        ≡ some chunks)
      × (reassemble overlap chunks ≡ doc.content)
      × (all_fit chunk_size chunks ≡ true)
unfolding chunk_document
chunk_document-reassemble chunk_size overlap doc near =
    elim (Bool-cases (leb (length doc.content) chunk_size)) [
      | inl small ↦ (
        chunk_of doc 0 doc.content [] ∷ [],
        ground (arith, small),
        append-nil doc.content,
        ground (arith, small),
      )
      | inr large ↦
          let (c, chunks, done, rest, fits) =
            loop-Chunked chunk_size overlap doc (length doc.content) 0 0 near
              (ground (arith, large, near)) (omega arith) in
          (c ∷ chunks, ground (arith, large, done), rest 0 (omega arith), fits)
    ]
