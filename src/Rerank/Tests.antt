-- ===== src/Rerank/Tests.antt =====
-- Runs of internal/embedding/reranker.go, with natural numbers for the scores.
use vector_mcp_go.Base.{ℕ, ◌≡◌, refl, true, some, List, [], ◌∷◌}
use vector_mcp_go.Base.Floats.{naturals}
use vector_mcp_go.Base.Text.{Text, codes}
use vector_mcp_go.Rerank.{RerankConfig, top_k, RerankResult, emit_word, words_from, words, rerank}
use vector_mcp_go.Rerank.Selection.{rerank_ignores_scores}

abbrev query : Text
query = codes " open  file"

query_words : words query ≡ codes "open" ∷ codes "file" ∷ []
unfolding words words_from emit_word
query_words = refl

abbrev first_two : RerankConfig
first_two = record { strategy = top_k; top_k = 2; max_batch_size = 32; fallback_to_cross = true }

abbrev three_results : List (RerankResult ℕ)
three_results =
    record { index = 0; score = 9; content = codes "a" }
    ∷ record { index = 1; score = 7; content = codes "b" }
    ∷ record { index = 2; score = 4; content = codes "c" }
    ∷ []

-- One model prefers the second result, the other the first.
rerank_ignores_scores_example :
    rerank naturals (λ rs. rs) first_two (some (λ q batch. some (1 ∷ 8 ∷ []))) query three_results 0
    ≡ rerank naturals
        (λ rs. rs)
        first_two
        (some (λ q batch. some (8 ∷ 1 ∷ [])))
        query
        three_results
        0
rerank_ignores_scores_example =
    rerank_ignores_scores naturals (λ rs. rs) first_two (λ q batch. some (1 ∷ 8 ∷ []))
      (λ q batch. some (8 ∷ 1 ∷ [])) query three_results 0 (λ batch. refl)
