-- ===== src/Tests/Retrieval.antt =====
-- A short document in chunks of four characters that share one, and a query with hits of both
-- retrievers.
use auditable_scientific_age.Prelude.{
  ℕ, String, ◌+◌, ◌/◌, ◌≤◌, ltb, [], ◌∷◌, true, some, List, length, ◌≡◌, arith,
}
use auditable_scientific_age.Prelude.Text.{codes}
use auditable_scientific_age.Prelude.Dict.{Dict}
use auditable_scientific_age.Retrieval.Fusion.{Scores, Hit, FusedHit, execute_pipeline}
use auditable_scientific_age.Retrieval.Fusion.Lookup.{all_cited}
use auditable_scientific_age.Retrieval.Fusion.Provenance.{
  execute_pipeline-is_retrieved, is_retrieved,
}
use auditable_scientific_age.Retrieval.Chunker.{Document, Chunk, chunk_document}
use auditable_scientific_age.Retrieval.Chunker.Reassembly.{
  chunk_document-reassemble, reassemble, all_fit,
}

abbrev document : Document
document = record {
  document_id = "doc_1";
  title = "Forecasts";
  source_path = "docs/forecasts.md";
  content = codes "forecasting";
  trust_level = "retrieved_untrusted";
}

chunk_document-reassemble_example :
    (chunks : List Chunk) × (chunk_document 4 1 (length document.content) document ≡ some chunks)
    × (reassemble 1 chunks ≡ document.content)
    × (all_fit 4 chunks ≡ true)
chunk_document-reassemble_example = chunk_document-reassemble 4 1 document (omega arith)

-- Scores in millionths.
abbrev millionths : Scores
millionths = record {
  Score = ℕ;
  nothing = 0;
  share = λ rank. 1000000 / (60 + rank);
  plus = λ a b. a + b;
  is_above = λ a b. ltb b a;
  round6 = λ a. a;
  boost = λ a. a + 50000;
}

abbrev hit : String → Hit
hit chunk_id = record { chunk_id = chunk_id; document_id = "doc_1"; text = "Sales are seasonal." }

execute_pipeline-is_retrieved_example :
    (evidence : String) × (citations : Dict (FusedHit millionths)) × (execute_pipeline millionths
        750000 2
        (hit "c1" ∷ hit "arima_2" ∷ [])
        ((hit "c1", 900000) ∷ (hit "c3", 1) ∷ [])
      ≡ some (evidence, citations))
    × (all_cited
          (λ f. is_retrieved (hit "c1" ∷ hit "arima_2" ∷ hit "c1" ∷ hit "c3" ∷ []) f.hit)
          citations
        ≡ true)
    × (length citations ≤ 2)
execute_pipeline-is_retrieved_example =
    execute_pipeline-is_retrieved millionths 750000 2 (hit "c1" ∷ hit "arima_2" ∷ [])
      ((hit "c1", 900000) ∷ (hit "c3", 1) ∷ [])
