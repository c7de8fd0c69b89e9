-- ===== src/Retrieval/Fusion/Provenance.antt =====
-- Where the cited evidence comes from.
use auditable_scientific_age.Prelude.{
  all-take, ℕ, suc, ◌≤◌, ◌+◌, String, Bool, true, ◌&&◌, Option, some, List, [], ◌∷◌, ◌++◌, any,
  any-append, all, map, take, length, length-take-le, ◌==◌, eq_refl, ◌≡◌, refl, arith, ap, ◌∙◌,
  subst, inl, inr, Bool-cases, Option-cases, append_assoc, append-nil,
}
use auditable_scientific_age.Prelude.Dict.{Dict, get, get_or, has, insert}
use auditable_scientific_age.Prelude.Text.{str, ◌<>◌}
use auditable_scientific_age.Retrieval.Fusion.{
  Scores, Hit, FusedHit, Fusion, boosted, cited, evidence_from, add_ranking, place, sorted,
  fused_results, fuse, rerank, citations_from, build_citations, hits_of, execute_pipeline,
}
use auditable_scientific_age.Retrieval.Fusion.Lookup.{
  all_cited, all_cited-insert, all_cited-get, length-insert-le, covers, has-insert, covers-insert,
  covers_more,
}

abbrev same_hit : Hit → Hit → Bool
same_hit h g = h.chunk_id == g.chunk_id && h.document_id == g.document_id && h.text == g.text

same_hit_refl : (h : Hit) → same_hit h h ≡ true
same_hit_refl h = ground (arith, eq_refl h.chunk_id, eq_refl h.document_id, eq_refl h.text)

-- The hit is among those that a retriever returned.
abbrev pub is_retrieved : List Hit → Hit → Bool
is_retrieved retrieved h = any (same_hit h) retrieved

module _ (scores : Scores) (retrieved : List Hit) where
  -- The lookup holds retrieved hits and covers the scores.
  abbrev IsGrounded : Fusion scores → Type 0
  IsGrounded f =
      (all_cited (is_retrieved retrieved) f.chunk_lookup ≡ true)
      × (covers f.chunk_lookup f.rrf_scores ≡ true)

  add_ranking-IsGrounded :
      (rank : ℕ) (hits : List Hit) (f : Fusion scores)
      → all (is_retrieved retrieved) hits ≡ true
      → IsGrounded f
      → IsGrounded (add_ranking scores rank hits f)
  unfolding add_ranking
  add_ranking-IsGrounded rank [] f from g = g
  add_ranking-IsGrounded rank (h ∷ hits) f from (values, cover) =
      let score = scores.plus (get_or h.chunk_id scores.nothing f.rrf_scores) (scores.share rank) in
      let rest : all (is_retrieved retrieved) hits ≡ true = ground (arith, from) in
      elim (Bool-cases (has h.chunk_id f.chunk_lookup)) [
        | inl there ↦ add_ranking-IsGrounded (suc rank) hits _ rest (
          rw there values,
          rw there (covers-insert h.chunk_id score f.chunk_lookup f.rrf_scores there cover),
        )
        | inr absent ↦
            let lookup = insert h.chunk_id h f.chunk_lookup in
            let found : has h.chunk_id lookup ≡ true =
              ground
                (arith, has-insert h.chunk_id h.chunk_id h f.chunk_lookup, eq_refl h.chunk_id) in
            add_ranking-IsGrounded (suc rank) hits _ rest (
              rw absent (
                  all_cited-insert (is_retrieved retrieved) h.chunk_id h f.chunk_lookup
                    (ground (arith, from)) values),
              rw absent (
                  covers-insert h.chunk_id score lookup f.rrf_scores found
                    (covers_more h.chunk_id h f.chunk_lookup f.rrf_scores cover)),
            )
      ]

  all-place :
      {A : Type 0}
      → (score_of : A → scores.Score) (test : A → Bool) (x : A) (ys : List A)
      → all test (place scores score_of x ys) ≡ (test x && all test ys)
  unfolding place
  all-place score_of test x [] = refl
  all-place score_of test x (y ∷ ys) = ground (arith, all-place score_of test x ys)

  all-sorted :
      {A : Type 0}
      → (score_of : A → scores.Score) (test : A → Bool) (xs : List A)
      → all test (sorted scores score_of xs) ≡ all test xs
  unfolding sorted
  all-sorted score_of test [] = refl
  all-sorted score_of test (x ∷ xs) =
      all-place score_of test x (sorted scores score_of xs)
      ∙ ap (λ b. test x && b) (all-sorted score_of test xs)

  abbrev cites : FusedHit scores → Bool
  cites f = is_retrieved retrieved f.hit

  fused_results-cites :
      (rank : ℕ) (lookup : Dict Hit) (chunks : List (String × scores.Score))
      → all_cited (is_retrieved retrieved) lookup ≡ true
      → covers lookup chunks ≡ true
      → (fused : List (FusedHit scores)) × (fused_results scores rank lookup chunks ≡ some fused)
        × (all cites fused ≡ true)
  unfolding fused_results
  fused_results-cites rank lookup [] values cover = ([], refl, refl)
  fused_results-cites rank lookup ((cid, score) ∷ chunks) values cover =
      let (fused, done, from) =
        fused_results-cites (suc rank) lookup chunks values (ground (arith, cover)) in
      elim (Option-cases (get cid lookup)) [
        | inl gone ↦ absurd (ground (arith, cover, gone))
        | inr (h, found) ↦ (
          record { hit = h; rrf_score = scores.round6 score; combined_rank = rank } ∷ fused,
          ground (arith, found, done),
          ground (arith, from, all_cited-get (is_retrieved retrieved) cid h lookup values found),
        )
      ]

  all-boosted :
      (fused : List (FusedHit scores)) → all cites (map (boosted scores) fused) ≡ all cites fused
  all-boosted [] = refl
  all-boosted (f ∷ fused) = ground (arith, all-boosted fused)

  rerank-cites :
      (fused : List (FusedHit scores)) → all cites (rerank scores fused) ≡ all cites fused
  unfolding rerank
  rerank-cites fused =
      all-sorted (λ f. f.rrf_score) cites (map (boosted scores) fused) ∙ all-boosted fused

  citations_from-cites :
      (idx : ℕ) (fused : List (FusedHit scores)) (d : Dict (FusedHit scores))
      → all cites fused ≡ true
      → all_cited cites d ≡ true
      → (all_cited cites (citations_from scores idx fused d) ≡ true)
        × (length (citations_from scores idx fused d) ≤ length fused + length d)
  unfolding citations_from
  citations_from-cites idx [] d from cited = (cited, omega arith)
  citations_from-cites idx (f ∷ fused) d from cited =
      let key = "Doc-" <> str idx in
      let (values, few) =
        citations_from-cites (suc idx) fused (insert key f d) (ground (arith, from))
          (all_cited-insert cites key f d (ground (arith, from)) cited) in
      (values, omega (arith, few, length-insert-le key f d))

all_retrieved :
    (before hits after : List Hit) → all (is_retrieved ((before ++ hits) ++ after)) hits ≡ true
all_retrieved before [] after = refl
all_retrieved before (h ∷ hits) after =
    let here : is_retrieved ((before ++ h ∷ hits) ++ after) h ≡ true =
      any-append (same_hit h) (before ++ h ∷ hits) after
      ∙ ground (arith, any-append (same_hit h) before (h ∷ hits), same_hit_refl h) in
    let shift : ((before ++ h ∷ []) ++ hits) ++ after ≡ (before ++ h ∷ hits) ++ after =
      ap (λ r. r ++ after) (append_assoc before (h ∷ []) hits) in
    let later =
      subst (λ r. all (is_retrieved r) hits ≡ true) shift
        (all_retrieved (before ++ h ∷ []) hits after) in
    ground (arith, here, later)

-- What a run of the pipeline cites.
abbrev Cites : (scores : Scores) → ℕ → List Hit → Option (String × Dict (FusedHit scores)) → Type 0
Cites scores top_k retrieved result =
    (evidence : String) × (citations : Dict (FusedHit scores)) × (result
      ≡ some (evidence, citations))
    × (all_cited (λ f. is_retrieved retrieved f.hit) citations ≡ true)
    × (length citations ≤ top_k)

cited-Cites :
    (scores : Scores) (top_k : ℕ) (bm25_hits vector_hits : List Hit)
    → Cites scores top_k
        (bm25_hits ++ vector_hits)
        (cited scores top_k (fuse scores bm25_hits vector_hits))
unfolding fuse build_citations
cited-Cites scores top_k bm25_hits vector_hits =
    let retrieved = bm25_hits ++ vector_hits in
    let empty : Fusion scores = record { rrf_scores = []; chunk_lookup = [] } in
    let from_bm25 : all (is_retrieved retrieved) bm25_hits ≡ true =
      all_retrieved [] bm25_hits vector_hits in
    let from_vector : all (is_retrieved retrieved) vector_hits ≡ true =
      subst (λ r. all (is_retrieved r) vector_hits ≡ true) (append-nil retrieved)
        (all_retrieved bm25_hits vector_hits []) in
    let (values, cover) =
      add_ranking-IsGrounded scores retrieved 1 vector_hits (add_ranking scores 1 bm25_hits empty)
        from_vector
        (add_ranking-IsGrounded scores retrieved 1 bm25_hits empty from_bm25 (refl, refl)) in
    let f = add_ranking scores 1 vector_hits (add_ranking scores 1 bm25_hits empty) in
    let (fused, done, from) =
      fused_results-cites scores retrieved 1 f.chunk_lookup (sorted scores (λ x. x.1) f.rrf_scores)
        values
        (all-sorted scores retrieved (λ x. x.1) (λ x. has x.0 f.chunk_lookup) f.rrf_scores
          ∙ cover) in
    let top = take top_k (rerank scores fused) in
    let (cites_all, few) =
      citations_from-cites scores retrieved 1 top []
        (all-take (λ f. is_retrieved retrieved f.hit) top_k (rerank scores fused)
          (rerank-cites scores retrieved fused ∙ from))
        refl in
    (
      evidence_from scores 1 top,
      citations_from scores 1 top [],
      ap (cited scores top_k) done,
      cites_all,
      omega (arith, few, length-take-le top_k (rerank scores fused)),
    )

-- Whatever the scores are, the pipeline returns evidence and citations, at most `top_k` of them, and
-- every cited chunk is one that a retriever returned, with its document and text.
pub execute_pipeline-is_retrieved :
    (scores : Scores) (min_score : scores.Score) (top_k : ℕ) (bm25_hits : List Hit)
    (vector_hits : List (Hit × scores.Score))
    → (evidence : String) × (citations : Dict (FusedHit scores)) × (execute_pipeline scores
          min_score top_k bm25_hits vector_hits
        ≡ some (evidence, citations))
      × (all_cited (λ f. is_retrieved (bm25_hits ++ hits_of scores vector_hits) f.hit) citations
          ≡ true)
      × (length citations ≤ top_k)
unfolding execute_pipeline
execute_pipeline-is_retrieved scores min_score top_k [] [] =
    ("insufficient_evidence", [], refl, refl, omega arith)
execute_pipeline-is_retrieved scores min_score top_k [] ((h, score) ∷ hits) =
    elim (Bool-cases (scores.is_above min_score score)) [
      | inl low ↦ ("insufficient_evidence", [], rw low refl, refl, omega arith)
      | inr enough ↦
          let (evidence, citations, done, from, few) =
            cited-Cites scores top_k [] (h ∷ hits_of scores hits) in
          (evidence, citations, rw enough done, from, few)
    ]
execute_pipeline-is_retrieved scores min_score top_k (b ∷ bm25_hits) vector_hits =
    cited-Cites scores top_k (b ∷ bm25_hits) (hits_of scores vector_hits)
