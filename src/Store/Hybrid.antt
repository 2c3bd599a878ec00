-- ===== src/Store/Hybrid.antt =====
-- internal/db/store.go: `HybridSearch`, the fusion of the two searches by their ranks.
--
-- The searches run at once on a store that neither changes, so they are two values. The regular
-- expression of `hasCodeLikeIdentifiers`, the clock, `strconv.ParseInt` and `math.Pow` are
-- parameters (`Ranking`), with the conversion of an integer to a float. The range over the map of
-- scores goes through its list.
use vector_mcp_go.Base.{
  ℕ, suc, ◌+◌, ◌-◌, ◌*◌, ◌%◌, Bool, Option, none, some, List, [], ◌∷◌, map, take, ltb, leb, ◌==◌,
  if◌then◌else◌,
}
use vector_mcp_go.Base.Int.{ℤ, pos, negsuc, ◌-ℤ◌}
use vector_mcp_go.Base.Maps.{find, put}
use vector_mcp_go.Base.Text.{Text, codes, text_eq, text_dec}
use vector_mcp_go.Lexical.{or_else}
use vector_mcp_go.Store.Search.{search_vectors, lexical_search}
use vector_mcp_go.Store.{Reply, ok, failed, Collection, Store, Found}

pub record Ranking (col : Collection) : Type 0 where
  pub has_code_like_identifiers : Text → Bool
  pub now : ℤ
  pub parse_int : Text → Option ℤ
  pub of_ℤ : ℤ → col.floats.F
  pub neg : col.floats.F → col.floats.F
  pub pow : col.floats.F → col.floats.F → col.floats.F

-- The error of the search that failed, with its prefix in the source's message.
pub data SearchError (Err : Type 0) : Type 0 where
  vector_search_failed : Err → SearchError Err
  lexical_search_failed : Err → SearchError Err

-- `expandedTopK`: doubled unless that overflows the 64-bit `int`.
unfoldable pub expanded : ℕ → ℕ
expanded n = if leb n 4611686018427387903 then n * 2 else n

-- The value of an `int64` that a difference wraps around to.
unfoldable pub wrapped : ℤ → ℤ
wrapped (pos n) =
    let low = n % 18446744073709551616 in
    if ltb low 9223372036854775808 then pos low else negsuc (18446744073709551615 - low)
wrapped (negsuc n) =
    let low = n % 18446744073709551616 in
    if ltb low 9223372036854775808 then negsuc low else pos (18446744073709551615 - low)

module _ (col : Collection) (ranking : Ranking col) where
  open col use {floats, Vector, parse_float, sort_scored}
  open floats use {F, of_int, add, mul, div, less, hundredths}
  open ranking use {has_code_like_identifiers, now, parse_int, of_ℤ, neg, pow}

  unfoldable pub lexical_weight : Text → F
  lexical_weight query = if has_code_like_identifiers query then hundredths 150 else of_int 1

  -- `scores[r.ID] += weight * (1.0 / (k + float64(i+1)))`, from the index `i` on.
  unfoldable pub add_ranks : F → ℕ → List (Found col) → List (Text × F) → List (Text × F)
  add_ranks weight i [] scores = scores
  add_ranks weight i (r ∷ rs) scores = add_ranks weight (suc i) rs (
      put text_dec r.id
        (add (or_else (find text_dec r.id scores) (of_int 0))
          (mul weight (div (of_int 1) (add (of_int 60) (of_int (i + 1))))))
        scores)

  -- `recordMap[r.ID] = r`
  unfoldable pub add_records : List (Found col) → List (Text × Found col) → List (Text × Found col)
  add_records [] m = m
  add_records (r ∷ rs) m = add_records rs (put text_dec r.id r m)

  recency_boost : ℤ → F
  unfolding wrapped
  recency_boost updated_at =
      let age = div (of_ℤ (wrapped (now -ℤ updated_at))) (of_int 86400) in
      let days = if less age (of_int 0) then of_int 0 else age in
      add (of_int 1) (mul (hundredths 50) (pow (of_int 2) (div (neg days) (of_int 14))))

  -- `boost *= recencyBoost`, for a document with a readable time.
  boost_by_recency : Found col → F → F
  unfolding recency_boost
  boost_by_recency r boost =
      if text_eq (or_else (find text_dec (codes "category") r.metadata) []) (codes "document")
      then elim (find text_dec (codes "updated_at") r.metadata) [
        | none ↦ boost
        | some raw ↦ elim (parse_int raw) [
          | none ↦ boost
          | some updated_at ↦ mul boost (recency_boost updated_at)
        ]
      ]
      else boost

  unfoldable pub boost_of : Found col → F
  unfolding boost_by_recency recency_boost
  boost_of r =
      let score : F = elim (find text_dec (codes "function_score") r.metadata) [
        | none ↦ of_int 1
        | some raw ↦ or_else (parse_float raw) (of_int 1)
      ] in
      let recent = boost_by_recency r score in
      elim (find text_dec (codes "priority") r.metadata) [
        | none ↦ recent
        | some raw ↦ elim (parse_float raw) [ none ↦ recent | some p ↦ mul recent p ]
      ]

  -- The loop over the scores. Each name of a score is one of a record.
  unfoldable pub rank_all : List (Text × F) → List (Text × Found col) → List (Found col × F)
  unfolding boost_of
  rank_all [] records = []
  rank_all ((id, score) ∷ scores) records =
      let rest = rank_all scores records in
      elim (find text_dec id records) [ none ↦ rest | some r ↦ (r, mul score (boost_of r)) ∷ rest ]

  unfoldable pub fuse : Text → List (Found col) → List (Found col) → List (Found col × F)
  unfolding add_ranks add_records rank_all lexical_weight
  fuse query vector lexical =
      rank_all (add_ranks (lexical_weight query) 0 lexical (add_ranks (of_int 1) 0 vector []))
        (add_records lexical (add_records vector []))

  -- `HybridSearch`, given the answers of the two searches.
  unfoldable pub combine :
      Text
      → ℕ
      → Reply col.Err (List (Found col))
      → Reply col.Err (List (Found col))
      → Reply (SearchError col.Err) (List (Found col))
  unfolding fuse
  combine query n (failed e) lexical = failed (vector_search_failed e)
  combine query n (ok vector) (failed e) = failed (lexical_search_failed e)
  combine query n (ok vector) (ok lexical) =
      ok (map (λ m. m.0) (take n (sort_scored (fuse query vector lexical))))

  unfoldable pub hybrid_search :
      Text
      → Vector
      → ℤ
      → List Text
      → Text
      → Store col
      → Reply (SearchError col.Err) (List (Found col))
  unfolding combine expanded
  hybrid_search query e (negsuc n) ids category s = ok []
  hybrid_search query e (pos n) ids category s =
      if n == 0
      then ok []
      else combine query n (search_vectors col e (pos (expanded n)) ids category s)
          (lexical_search col query (pos (expanded n)) ids category s)
