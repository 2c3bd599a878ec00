-- ===== src/Rerank.antt =====
-- internal/embedding/reranker.go: `AdvancedReranker`. A text is its bytes. The floats, `sort.Slice`
-- and the model that scores a batch, found by the router or not, are parameters; the latency counter,
-- which nothing adds to, is left out.
pub mod Words
pub mod Selection
mod Tests
use vector_mcp_go.Base.{
  ℕ, zero, suc, ◌+◌, ◌-◌, ◌≡◌, Bool, true, false, ◌||◌, ◌&&◌, Option, none, some, List, [], ◌∷◌,
  ◌++◌, map, length, take, any, leb, ltb, ◌==◌, if◌then◌else◌,
}
use vector_mcp_go.Base.Floats.{Floats}
use vector_mcp_go.Base.Text.{Text, text_eq}

-- `RerankStrategy`; every other string is treated alike.
pub data Strategy : Type 0 where
  no_reranking all_results top_k adaptive other : Strategy

-- `RerankConfig`, less the threshold, which is not read.
pub record RerankConfig : Type 0 where
  pub strategy : Strategy
  pub top_k : ℕ
  pub max_batch_size : ℕ
  pub fallback_to_cross : Bool

-- `RerankResult`
pub record RerankResult (F : Type 0) : Type 0 where
  pub index : ℕ
  pub score : F
  pub content : Text

abbrev pub is_blank : ℕ → Bool
is_blank c = c == b' ' || c == b'\t' || c == b'\n' || c == b'\r'

-- `text[start:i]` as a word, unless it is empty.
unfoldable pub emit_word : Text → List Text
emit_word [] = []
emit_word (c ∷ s) = (c ∷ s) ∷ []

-- The loop of `tokenize`; the first argument is `text[start:i]`.
unfoldable pub words_from : Text → Text → List Text
words_from word [] = emit_word word
words_from word (c ∷ s) =
    let ended = emit_word word ++ words_from [] s in
    let longer = words_from (word ++ c ∷ []) s in if is_blank c then ended else longer

-- `tokenize`
unfoldable pub words : Text → List Text
words text = words_from [] text

-- The words of the query that occur, each once.
unfoldable pub distinct_words : List Text → List Text
distinct_words [] = []
distinct_words (w ∷ ws) =
    let rest = distinct_words ws in if any (text_eq w) rest then rest else w ∷ rest

unfoldable pub overlap : List Text → List Text → ℕ
overlap query_words [] = 0
overlap query_words (w ∷ ws) =
    (if any (text_eq w) query_words then 1 else 0) + overlap query_words ws

module _ (fl : Floats) where
  open fl use {F, of_int, sub, div, hundredths, less}

  -- The loop of `adaptiveSelection`: the results that follow the last one selected, to the first
  -- gap of a tenth or the end of the batch.
  unfoldable pub small_gaps : ℕ → F → List (RerankResult F) → List (RerankResult F)
  small_gaps zero last rs = []
  small_gaps (suc room) last [] = []
  small_gaps (suc room) last (r ∷ rs) =
      let rest = small_gaps room r.score rs in
      if less (sub last r.score) (hundredths 10) then r ∷ rest else []

  unfoldable pub adaptive_selection : RerankConfig → List (RerankResult F) → List (RerankResult F)
  adaptive_selection config [] = []
  adaptive_selection config (r ∷ rs) =
      if leb (length (r ∷ rs)) 5
      then r ∷ rs
      else r ∷ small_gaps (config.max_batch_size - 1) r.score rs

  unfoldable pub select_for_reranking : RerankConfig → List (RerankResult F) → List (RerankResult F)
  select_for_reranking config results = elim config.strategy [
    | top_k ↦ if leb (length results) config.top_k then results else take config.top_k results
    | adaptive ↦ adaptive_selection config results
    | no_reranking ↦ results
    | all_results ↦ results
    | other ↦ results
  ]

  unfoldable pub fallback_score : List Text → RerankResult F → RerankResult F
  fallback_score query_words r =
      let ws = words r.content in
      elim ws [
        | [] ↦ r
        | w ∷ more ↦ record r {
          score = div (of_int (overlap query_words (w ∷ more))) (of_int (length query_words));
        }
      ]

  module _ (sort_results : List (RerankResult F) → List (RerankResult F)) where
    -- `crossEncoderFallback`
    unfoldable pub cross_encoder_fallback : Text → List (RerankResult F) → List (RerankResult F)
    cross_encoder_fallback query results =
        sort_results (map (fallback_score (distinct_words (words query))) results)

    unfoldable pub fall_back :
        RerankConfig → Text → List (RerankResult F) → ℕ → Option (List (RerankResult F)) × ℕ
    fall_back config query results calls = (
      if config.fallback_to_cross then some (cross_encoder_fallback query results) else none,
      calls,
    )

    -- What follows `RerankBatch`. Its scores are assigned to the variable of a range loop, which is a
    -- copy, so the results are sorted by the scores that they had.
    unfoldable pub apply_scores :
        RerankConfig
        → Text
        → List (RerankResult F)
        → Option (List F)
        → ℕ
        → Option (List (RerankResult F)) × ℕ
    apply_scores config query results none calls = fall_back config query results calls
    apply_scores config query results (some scores) calls = (some (sort_results results), suc calls)

    unfoldable pub rerank_selected :
        RerankConfig
        → Option (Text → List Text → Option (List F))
        → Text
        → List (RerankResult F)
        → List (RerankResult F)
        → ℕ
        → Option (List (RerankResult F)) × ℕ
    rerank_selected config score_batch query results [] calls = (some results, calls)
    rerank_selected config none query results (t ∷ ts) calls = fall_back config query results calls
    rerank_selected config (some batch) query results (t ∷ ts) calls =
        apply_scores config query results (batch query (map (λ x. x.content) (t ∷ ts))) calls

    -- `Rerank`: the results, or none for the error, and the counter of calls. `score_batch` is the
    -- model's `RerankBatch`, or none where the router has no reranker.
    unfoldable pub rerank :
        RerankConfig
        → Option (Text → List Text → Option (List F))
        → Text
        → List (RerankResult F)
        → ℕ
        → Option (List (RerankResult F)) × ℕ
    unfolding rerank_selected
    rerank config score_batch query [] calls = (some [], calls)
    rerank config score_batch query (r ∷ rs) calls = elim config.strategy [
      | no_reranking ↦ (some (r ∷ rs), calls)
      | _ ↦
          rerank_selected config score_batch query (r ∷ rs) (select_for_reranking config (r ∷ rs))
            calls
    ]
