-- ===== src/Metrics/Tests.antt =====
-- internal/observability/metrics/prometheus.go at a histogram of two buckets.
use vector_mcp_go.Base.{◌≡◌, refl, [], ◌∷◌, leb, arith}
use vector_mcp_go.Base.Floats.{naturals}
use vector_mcp_go.Base.Text.{codes}
use vector_mcp_go.Metrics.{
  Numbers, Histogram, new_histogram, cumulated, bucket_label, format_labels, trim_brace,
}
use vector_mcp_go.Metrics.Observed.{IsTransitive, observed, observed-cumulated}

abbrev counting : Numbers
counting = record {
  floats = naturals;
  neg = λ x. x;
  at_most = leb;
  format_g = λ x. codes "1";
  format_d = λ n. codes "1";
}

counting-IsTransitive : IsTransitive counting
counting-IsTransitive = record { transitive = λ a b c h k. ground arith }

abbrev three_seen : Histogram counting
three_seen =
    observed counting (7 ∷ 3 ∷ 1 ∷ []) (new_histogram counting (codes "t") [] [] (1 ∷ 5 ∷ []))

observed-cumulated_example :
    (cumulated counting 0 three_seen.buckets three_seen.counts ≡ ((1, 1) ∷ (5, 2) ∷ [], 3))
    × (three_seen.count ≡ 3)
observed-cumulated_example =
    observed-cumulated counting counting-IsTransitive (7 ∷ 3 ∷ 1 ∷ []) (codes "t") [] []
      (1 ∷ 5 ∷ []) ((refl, tt), (tt, tt)) (omega arith)

-- The line of a bucket of a histogram with labels has neither its name nor a closing brace.
labelled_bucket :
    bucket_label counting (codes "t") (format_labels ((codes "k", codes "v") ∷ [])) 1
    ≡ codes "{k=\"v\",le=\"1\""
unfolding bucket_label format_labels trim_brace
labelled_bucket = refl
