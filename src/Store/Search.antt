-- ===== src/Store/Search.antt =====
-- internal/db/store.go: `SearchWithScore`, `Search` and `LexicalSearch`. `topK` is an integer as in
-- Go; `sort.Slice` is the collection's parameter.
use vector_mcp_go.Base.{
  ℕ, ◌*◌, ◌/◌, ◌≡◌, Bool, ◌&&◌, ◌||◌, none, some, List, [], ◌∷◌, ◌++◌, map, length, take, any, ltb,
  leb, ◌==◌, if◌then◌else◌,
}
use vector_mcp_go.Base.Int.{ℤ, pos, negsuc}
use vector_mcp_go.Base.Maps.{find}
use vector_mcp_go.Base.Text.{Text, codes, text_eq, text_dec}
use vector_mcp_go.Lexical.{or_else, search_index}
use vector_mcp_go.Store.Readers.{map_reply}
use vector_mcp_go.Store.{Metadata, field, Document, Reply, ok, failed, Collection, Store, Found}

abbrev pub category_filter : Text → Metadata
category_filter category = if text_eq category [] then [] else (codes "category", category) ∷ []

abbrev pub project_filter : Text → Text → Metadata
project_filter category project_id = (codes "project_id", project_id) ∷ category_filter category

module _ (col : Collection) where
  open col use {
    floats, Vector, State, Err, dummy, nil_vector, count, query, parse_float, tokens, sort_records,
    sort_scored,
  }
  open floats use {F, of_int, mul}

  -- The loop over the projects: one query each, to the first error.
  unfoldable pub query_projects :
      Vector → ℕ → Text → List Text → State → Reply Err (List (Found col))
  query_projects e n category [] s = ok []
  query_projects e n category (project_id ∷ ids) s =
      elim (query s e n (project_filter category project_id)) [
        | failed err ↦ failed err
        | ok res ↦ map_reply col (λ rest. res ++ rest) (query_projects e n category ids s)
      ]

  -- `allResults` of `SearchWithScore`
  unfoldable pub all_results : Vector → ℕ → Text → List Text → State → Reply Err (List (Found col))
  all_results e n category [] s = query s e n (category_filter category)
  all_results e n category (project_id ∷ ids) s =
      map_reply col (λ rs. take n (sort_records rs))
        (query_projects e n category (project_id ∷ ids) s)

  priority : Found col → F
  priority r = elim (find text_dec (codes "priority") r.metadata) [
    | none ↦ of_int 1
    | some raw ↦ or_else (parse_float raw) (of_int 1)
  ]

  unfoldable pub boosted : Found col → Found col
  unfolding priority
  boosted r = record {
    id = r.id;
    content = r.content;
    embedding = r.embedding;
    metadata = r.metadata;
    similarity = mul r.similarity (priority r);
  }

  -- `SearchWithScore`: the records, sorted by their boosted similarity, and the scores, which the
  -- sort leaves where they were.
  unfoldable pub search_with_score :
      Vector → ℤ → List Text → Text → Store col → Reply Err (List (Found col) × List F)
  search_with_score e (negsuc n) ids category s = ok ([], [])
  search_with_score e (pos n) ids category s =
      if n == 0 || count s.collection == 0
      then ok ([], [])
      else map_reply col
          (λ rs. (sort_records (map boosted rs), map (λ r. (boosted r).similarity) rs))
          (all_results e (if ltb (count s.collection) n then count s.collection else n) category ids
            s.collection)

  -- `Search`
  unfoldable pub search_vectors :
      Vector → ℤ → List Text → Text → Store col → Reply Err (List (Found col))
  search_vectors e (negsuc n) ids category s = ok []
  search_vectors e (pos n) ids category s =
      if n == 0
      then ok []
      else map_reply col (λ found. found.0) (search_with_score e (pos n) ids category s)

  -- The record of a result: its embedding and its similarity are not set.
  abbrev pub lexical_record : Found col → Found col
  lexical_record r = record {
    id = r.id;
    content = r.content;
    embedding = nil_vector;
    metadata = r.metadata;
    similarity = of_int 0;
  }

  -- The results that the BM25 search names, with its scores.
  unfoldable pub scored_by : List (Text × F) → List (Found col) → List (Found col × F)
  scored_by ids [] = []
  scored_by ids (r ∷ rs) =
      let rest = scored_by ids rs in
      elim (find text_dec r.id ids) [ none ↦ rest | some score ↦ (lexical_record r, score) ∷ rest ]

  -- `LexicalSearch`. The set of names is a map of the search's results.
  unfoldable pub lexical_search :
      Text → ℤ → List Text → Text → Store col → Reply Err (List (Found col))
  lexical_search text (negsuc n) ids category s = ok []
  lexical_search text (pos n) ids category s =
      let held = count s.collection in
      if n == 0 || held == 0
      then ok []
      else elim (search_index floats text_dec text_dec s.bm25 (tokens text)
          (pos (if leb n (held / 3) then n * 3 else held))) [
            | [] ↦ ok []
            | hit ∷ hits ↦
                map_reply col
                  (λ rs. map (λ m. m.0) (take n (sort_scored (scored_by (hit ∷ hits) rs))))
                  (elim ids [
                    | [] ↦ query s.collection dummy held (category_filter category)
                    | project_id ∷ more ↦
                        query_projects dummy held category (project_id ∷ more) s.collection
                  ])
          ]

-- What the searches need of `sort.Slice`: it moves records, and no more.
pub record IsSort (col : Collection) : Type 0 where
  pub length-sort : (rs : List (Found col)) → length (col.sort_records rs) ≡ length rs
  pub any-sort :
      (p : Found col → Bool) (rs : List (Found col)) → any p (col.sort_records rs) ≡ any p rs
  pub any-sort_scored :
      (p : Found col × col.floats.F → Bool) (rs : List (Found col × col.floats.F))
      → any p (col.sort_scored rs) ≡ any p rs

-- Whether a document is of a category; any is, where none is asked for.
abbrev pub of_category : {V : Type 0} → Text → Document V → Bool
of_category category d =
    text_eq category [] || text_eq (field (codes "category") d.metadata) category

-- Whether a document is of one of the projects.
abbrev pub of_projects : {V : Type 0} → List Text → Document V → Bool
of_projects ids d = any (text_eq (field (codes "project_id") d.metadata)) ids

-- Whether a search for these projects, or for all where none is named, and this category asks for a
-- document.
abbrev pub is_asked : {V : Type 0} → Text → List Text → Document V → Bool
is_asked category [] d = of_category category d
is_asked category (project_id ∷ ids) d = of_category category d && of_projects (project_id ∷ ids) d
