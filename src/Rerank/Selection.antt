-- ===== src/Rerank/Selection.antt =====
-- internal/embedding/reranker.go: which results are reranked, and what the scores of the model do.
use vector_mcp_go.Base.{
  ℕ, zero, suc, ◌-◌, ◌≤◌, ◌≡◌, refl, sym, ap, Bool, true, false, Option, none, some, List, [], ◌∷◌,
  map, length, take, take_of_length-le, leb, Bool-cases, inl, inr, arith, max,
}
use vector_mcp_go.Base.Floats.{Floats}
use vector_mcp_go.Base.Text.{Text}
use vector_mcp_go.Rerank.{
  Strategy, no_reranking, all_results, top_k, adaptive, other, RerankConfig, RerankResult,
  small_gaps, adaptive_selection, select_for_reranking, apply_scores, rerank_selected, rerank,
}

-- Whether the model scored the batch.
abbrev pub succeeded {ℓ} : {A : Type ℓ} → Option A → Bool
succeeded none = false
succeeded (some a) = true

-- The most results that a strategy selects, of so many.
abbrev pub most : RerankConfig → ℕ → ℕ
most config n = elim config.strategy [
  | top_k ↦ config.top_k
  | adaptive ↦ max 5 config.max_batch_size
  | no_reranking ↦ n
  | all_results ↦ n
  | other ↦ n
]

module _ (fl : Floats) where
  open fl use {F, less, sub, hundredths}

  small_gaps-take :
      (room : ℕ) (last : F) (rs : List (RerankResult F))
      → (n : ℕ) × (small_gaps fl room last rs ≡ take n rs) × (n ≤ room)
  unfolding small_gaps
  small_gaps-take zero last rs = (0, refl, omega arith)
  small_gaps-take (suc room) last [] = (0, refl, omega arith)
  small_gaps-take (suc room) last (r ∷ rs) =
      let (n, e, le) = small_gaps-take room r.score rs in
      elim (Bool-cases (less (sub last r.score) (hundredths 10))) [
        | inl near ↦ (suc n, rw near (ap (◌∷◌ r) e), omega arith)
        | inr far ↦ (0, rw far refl, omega arith)
      ]

  adaptive-take :
      (config : RerankConfig) (rs : List (RerankResult F))
      → (n : ℕ) × (adaptive_selection fl config rs ≡ take n rs) × (n ≤ max 5 config.max_batch_size)
  unfolding adaptive_selection
  adaptive-take config [] = (0, refl, omega arith)
  adaptive-take config (r ∷ rs) = elim (Bool-cases (leb (length (r ∷ rs)) 5)) [
    | inl e ↦ (
      length (r ∷ rs),
      rw e (sym (take_of_length-le (length (r ∷ rs)) (r ∷ rs) (omega arith))),
      ground arith,
    )
    | inr e ↦
        let (n, same, le) = small_gaps-take (config.max_batch_size - 1) r.score rs in
        (suc n, rw e (ap (◌∷◌ r) same), omega arith)
  ]

  -- The results that are selected for reranking are the first ones, in their order, and at most as
  -- many as the strategy allows: `TopK` of them, or 5 or the size of a batch, whichever is more, for
  -- the adaptive strategy, which stops at the first wide gap; all of them otherwise.
  pub select_for_reranking-take :
      (config : RerankConfig) (rs : List (RerankResult F))
      → (n : ℕ) × (select_for_reranking fl config rs ≡ take n rs) × (n ≤ most config (length rs))
  unfolding select_for_reranking
  select_for_reranking-take config rs = go config.strategy refl
    where
      everything : rs ≡ take (length rs) rs
      everything = sym (take_of_length-le (length rs) rs (omega arith))

      go :
          (s : Strategy)
          → config.strategy ≡ s
          → (n : ℕ) × (select_for_reranking fl config rs ≡ take n rs)
            × (n ≤ most config (length rs))
      go no_reranking e =
          (length rs, rw (e, select_for_reranking) everything, rw (e, most) (omega arith))
      go all_results e =
          (length rs, rw (e, select_for_reranking) everything, rw (e, most) (omega arith))
      go other e = (length rs, rw (e, select_for_reranking) everything, rw (e, most) (omega arith))
      go adaptive e = rw (e, select_for_reranking, most) (adaptive-take config rs)
      go top_k e = elim (Bool-cases (leb (length rs) config.top_k)) [
        | inl few ↦
            (length rs, rw (e, few, select_for_reranking) everything, rw (e, most) (ground arith))
        | inr many ↦
            (config.top_k, rw (e, many, select_for_reranking) refl, rw (e, most) (omega arith))
      ]

  module _ (sort_results : List (RerankResult F) → List (RerankResult F))
      (config : RerankConfig) where
    apply_scores-alike :
        (query : Text) (rs : List (RerankResult F)) (x y : Option (List F)) (calls : ℕ)
        → succeeded x ≡ succeeded y
        → apply_scores fl sort_results config query rs x calls
          ≡ apply_scores fl sort_results config query rs y calls
    unfolding apply_scores
    apply_scores-alike query rs none none calls e = refl
    apply_scores-alike query rs none (some t) calls e = cc
    apply_scores-alike query rs (some s) none calls e = cc
    apply_scores-alike query rs (some s) (some t) calls e = refl

    selected-alike :
        (a b : Text → List Text → Option (List F)) (query : Text)
        (rs selected : List (RerankResult F)) (calls : ℕ)
        → ((batch : List Text) → succeeded (a query batch) ≡ succeeded (b query batch))
        → rerank_selected fl sort_results config (some a) query rs selected calls
          ≡ rerank_selected fl sort_results config (some b) query rs selected calls
    unfolding rerank_selected
    selected-alike a b query rs [] calls alike = refl
    selected-alike a b query rs (t ∷ ts) calls alike =
        let batch = map (λ x. x.content) (t ∷ ts) in
        apply_scores-alike query rs (a query batch) (b query batch) calls (alike batch)

    -- The scores of the model make no difference: two models that fail on the same batches of the
    -- query give the same answer, the same order and the same count of calls.
    pub rerank_ignores_scores :
        (a b : Text → List Text → Option (List F)) (query : Text) (rs : List (RerankResult F))
        (calls : ℕ)
        → ((batch : List Text) → succeeded (a query batch) ≡ succeeded (b query batch))
        → rerank fl sort_results config (some a) query rs calls
          ≡ rerank fl sort_results config (some b) query rs calls
    unfolding rerank
    rerank_ignores_scores a b query [] calls alike = refl
    rerank_ignores_scores a b query (r ∷ rs) calls alike = go config.strategy refl
      where
        same :
            rerank_selected fl sort_results config
              (some a)
              query
              (r ∷ rs)
              (select_for_reranking fl config (r ∷ rs))
              calls
            ≡ rerank_selected fl sort_results config
                (some b)
                query
                (r ∷ rs)
                (select_for_reranking fl config (r ∷ rs))
                calls
        same =
            selected-alike a b query (r ∷ rs) (select_for_reranking fl config (r ∷ rs)) calls alike

        go :
            (s : Strategy)
            → config.strategy ≡ s
            → rerank fl sort_results config (some a) query (r ∷ rs) calls
              ≡ rerank fl sort_results config (some b) query (r ∷ rs) calls
        go no_reranking e = rw (e, rerank) refl
        go all_results e = rw (e, rerank) same
        go top_k e = rw (e, rerank) same
        go adaptive e = rw (e, rerank) same
        go other e = rw (e, rerank) same
