-- ===== src/Retrieval/Fusion.antt =====
-- hybrid.py, reranker.py, citations.py and pipeline.py of retrieval/, from the hits of the two
-- retrievers on. A score is of a type with what the code does with scores: the share of a rank,
-- `1.0 / (k + rank)`, the sum, the comparison, the rounding to six digits and the boost by 0.05. `none`
-- is a KeyError.
pub mod Lookup
pub mod Provenance
use auditable_scientific_age.Prelude.{
  ℕ, zero, suc, String, Bool, true, false, ◌||◌, Option, none, some, List, [], ◌∷◌, map, take,
  if◌then◌else◌,
}
use auditable_scientific_age.Prelude.Dict.{Dict, get, get_or, has, insert}
use auditable_scientific_age.Prelude.Text.{str, codes, contains, ◌<>◌}

pub record Scores : Type 1 where
  pub Score : Type 0
  pub nothing : Score
  pub share : ℕ → Score
  pub plus : Score → Score → Score
  -- the first is greater than the second
  pub is_above : Score → Score → Bool
  pub round6 : Score → Score
  pub boost : Score → Score

pub record Hit : Type 0 where
  pub chunk_id : String
  pub document_id : String
  pub text : String

module _ (scores : Scores) where
  pub record FusedHit : Type 0 where
    pub hit : Hit
    pub rrf_score : scores.Score
    pub combined_rank : ℕ

  -- `rrf_scores` and `chunk_lookup`
  pub record Fusion : Type 0 where
    pub rrf_scores : Dict scores.Score
    pub chunk_lookup : Dict Hit

  -- The loop over one ranking, from a rank on.
  unfoldable pub add_ranking : ℕ → List Hit → Fusion → Fusion
  add_ranking rank [] f = f
  add_ranking rank (h ∷ hits) f = add_ranking (suc rank) hits (record {
    rrf_scores =
        insert h.chunk_id
          (scores.plus (get_or h.chunk_id scores.nothing f.rrf_scores) (scores.share rank))
          f.rrf_scores;
    chunk_lookup =
        if has h.chunk_id f.chunk_lookup
        then f.chunk_lookup
        else insert h.chunk_id h f.chunk_lookup;
  })

  module _ {A : Type 0} (score_of : A → scores.Score) where
    unfoldable pub place : A → List A → List A
    place x [] = x ∷ []
    place x (y ∷ ys) =
        if scores.is_above (score_of y) (score_of x) then y ∷ place x ys else x ∷ y ∷ ys

    -- `sorted(xs, key=score_of, reverse=True)`, where equal scores keep their order
    unfoldable pub sorted : List A → List A
    unfolding place
    sorted [] = []
    sorted (x ∷ xs) = place x (sorted xs)

  abbrev pub cons? : {A : Type 0} → Option A → Option (List A) → Option (List A)
  cons? none rest = none
  cons? (some x) none = none
  cons? (some x) (some rest) = some (x ∷ rest)

  abbrev fused_hit : ℕ → scores.Score → Option Hit → Option FusedHit
  fused_hit rank score none = none
  fused_hit rank score (some h) =
      some (record { hit = h; rrf_score = scores.round6 score; combined_rank = rank })

  unfoldable pub fused_results :
      ℕ → Dict Hit → List (String × scores.Score) → Option (List FusedHit)
  fused_results rank lookup [] = some []
  fused_results rank lookup ((cid, score) ∷ sorted_chunks) =
      cons? (fused_hit rank score (get cid lookup)) (fused_results (suc rank) lookup sorted_chunks)

  -- `ReciprocalRankFusion.fuse`
  unfoldable pub fuse : List Hit → List Hit → Option (List FusedHit)
  unfolding add_ranking sorted fused_results
  fuse bm25_hits vector_hits =
      let f =
        add_ranking 1 vector_hits
          (add_ranking 1 bm25_hits (record { rrf_scores = []; chunk_lookup = [] })) in
      fused_results 1 f.chunk_lookup (sorted (λ x. x.1) f.rrf_scores)

  abbrev boosted : FusedHit → FusedHit
  boosted f =
      if contains (codes "arima") (codes f.hit.chunk_id)
        || contains (codes "backtest") (codes f.hit.chunk_id)
      then record f { rrf_score = scores.boost f.rrf_score }
      else f

  -- `RuleBasedReranker.rerank`
  unfoldable pub rerank : List FusedHit → List FusedHit
  unfolding sorted contains
  rerank fused_hits = sorted (λ f. f.rrf_score) (map boosted fused_hits)

  abbrev block : ℕ → FusedHit → String
  block idx f =
      "[Doc-"
      <> str idx
      <> "] (Source Document ID: "
      <> f.hit.document_id
      <> ")\nContent: "
      <> f.hit.text

  unfoldable pub evidence_from : ℕ → List FusedHit → String
  unfolding str
  evidence_from idx [] = ""
  evidence_from idx (f ∷ []) = block idx f
  evidence_from idx (f ∷ g ∷ rest) = block idx f <> "\n\n" <> evidence_from (suc idx) (g ∷ rest)

  unfoldable pub citations_from : ℕ → List FusedHit → Dict FusedHit → Dict FusedHit
  unfolding str
  citations_from idx [] citation_map = citation_map
  citations_from idx (f ∷ rest) citation_map =
      citations_from (suc idx) rest (insert ("Doc-" <> str idx) f citation_map)

  -- `CitationBuilder.build_citations`
  unfoldable pub build_citations : List FusedHit → String × Dict FusedHit
  unfolding evidence_from citations_from
  build_citations top_chunks = (evidence_from 1 top_chunks, citations_from 1 top_chunks [])

  abbrev cited : ℕ → Option (List FusedHit) → Option (String × Dict FusedHit)
  cited top_k none = none
  cited top_k (some fused) = some (build_citations (take top_k (rerank fused)))

  abbrev insufficient : Option (String × Dict FusedHit)
  insufficient = some ("insufficient_evidence", [])

  abbrev pub hits_of : List (Hit × scores.Score) → List Hit
  hits_of [] = []
  hits_of ((h, score) ∷ hits) = h ∷ hits_of hits

  -- `execute_pipeline`, on what the two searches return
  unfoldable pub execute_pipeline :
      scores.Score → ℕ → List Hit → List (Hit × scores.Score) → Option (String × Dict FusedHit)
  unfolding fuse rerank build_citations
  execute_pipeline min_score top_k [] [] = insufficient
  execute_pipeline min_score top_k [] ((h, score) ∷ hits) =
      if scores.is_above min_score score
      then insufficient
      else cited top_k (fuse [] (h ∷ hits_of hits))
  execute_pipeline min_score top_k (b ∷ bm25_hits) vector_hits =
      cited top_k (fuse (b ∷ bm25_hits) (hits_of vector_hits))
