-- ===== src/Store/Tests.antt =====
-- The store at a collection that is a list of documents, and the theorems of internal/db/store.go
-- there.
use vector_mcp_go.Base.{ℕ, ◌≤◌, ◌≡◌, refl, true, false, not, none, List, [], ◌∷◌, length, any}
use vector_mcp_go.Base.Int.{pos}
use vector_mcp_go.Base.Maps.{find}
use vector_mcp_go.Base.Text.{Text, codes, text_dec}
use vector_mcp_go.Base.Floats.{naturals}
use vector_mcp_go.Lexical.{Index, new_index, add_document}
use vector_mcp_go.Lexical.Documents.{IsValid, add_document-IsValid}
use vector_mcp_go.Lexical.View.{frequency}
use vector_mcp_go.Store.Listed.{listed, listed-IsCollection, listed-IsSort}
use vector_mcp_go.Store.{
  Metadata, Document, ok, document, Store, Found, delete_by_filter, delete_by_prefix, status_filter,
  status_record, set_status, get_status,
}
use vector_mcp_go.Store.Deletion.{delete_by_filter_lem, delete_by_prefix_lem}
use vector_mcp_go.Store.Filters.{cons-ne-nil}
use vector_mcp_go.Store.Status.{set_status_lem}
use vector_mcp_go.Store.Search.{search_with_score, is_asked}
use vector_mcp_go.Store.Asked.{search_with_score_lem}
use vector_mcp_go.Store.Fused.{hybrid_search_lem}
use vector_mcp_go.Store.Hybrid.{Ranking, hybrid_search}

abbrev file_record : Text → Text → Document ℕ
file_record id path = record {
  id = id;
  content = codes "x";
  embedding = 1;
  metadata = (codes "path", path) ∷ (codes "project_id", codes "app") ∷ [];
}

abbrev three_files : Store listed
three_files = record {
  collection =
      file_record (codes "1") (codes "src/a.go")
      ∷ file_record (codes "2") (codes "src")
      ∷ file_record (codes "3") (codes "src2/b.go")
      ∷ [];
  bm25 = record {
    postings = (codes "x", (codes "1", 1) ∷ (codes "2", 1) ∷ (codes "3", 1) ∷ []) ∷ [];
    doc_len = (codes "1", 1) ∷ (codes "2", 1) ∷ (codes "3", 1) ∷ [];
    doc_count = 3;
    avg_len = 1;
  };
}

abbrev source_filter : Metadata
source_filter = (codes "path", codes "src") ∷ (codes "project_id", codes "app") ∷ []

-- The index of the three, each with the token "x".
abbrev one_indexed : Index ℕ Text Text
one_indexed =
    add_document naturals text_dec text_dec (codes "1") (codes "x" ∷ [])
      (new_index naturals text_dec text_dec)

abbrev three_indexed : Index ℕ Text Text
three_indexed =
    add_document naturals text_dec text_dec (codes "3") (codes "x" ∷ [])
      (add_document naturals text_dec text_dec (codes "2") (codes "x" ∷ []) one_indexed)

empty-IsValid : IsValid naturals text_dec text_dec (new_index naturals text_dec text_dec)
unfolding new_index
empty-IsValid = record {
  distinct_postings = tt;
  distinct_docs = tt;
  counted = refl;
  posted = λ t d h. refl;
}

three_indexed-IsValid : IsValid naturals text_dec text_dec three_indexed
three_indexed-IsValid =
    add_document-IsValid naturals text_dec text_dec (codes "3") (codes "x" ∷ [])
      (add_document naturals text_dec text_dec (codes "2") (codes "x" ∷ []) one_indexed)
      (add_document-IsValid naturals text_dec text_dec (codes "2") (codes "x" ∷ []) one_indexed (
        add_document-IsValid naturals text_dec text_dec (codes "1") (codes "x" ∷ [])
          (new_index naturals text_dec text_dec) empty-IsValid))

abbrev indexed_files : Store listed
indexed_files = record { collection = three_files.collection; bm25 = three_indexed }

delete_by_filter_lem_example :
    ((delete_by_filter listed source_filter indexed_files).0.collection
      ≡ file_record (codes "1") (codes "src/a.go")
        ∷ file_record (codes "3") (codes "src2/b.go")
        ∷ [])
    × ((delete_by_filter listed source_filter indexed_files).1 ≡ none)
    × (find text_dec
          (codes "2")
          (delete_by_filter listed source_filter indexed_files).0.bm25.doc_len
        ≡ none)
    × IsValid naturals text_dec text_dec
        (delete_by_filter listed source_filter indexed_files).0.bm25
    × (frequency text_dec text_dec
          (delete_by_filter listed source_filter indexed_files).0.bm25.postings
          (codes "x")
          (codes "2")
        ≡ none)
delete_by_filter_lem_example =
    delete_by_filter_lem listed listed-IsCollection source_filter indexed_files (codes "2")
      (codes "x") (cons-ne-nil _ _) three_indexed-IsValid

-- The directory "src" goes with what lies under it; "src2" stays.
delete_by_prefix_lem_example :
    ((delete_by_prefix listed (codes "src") (codes "app") three_files).0.collection
      ≡ file_record (codes "3") (codes "src2/b.go") ∷ [])
    × ((delete_by_prefix listed (codes "src") (codes "app") three_files).1 ≡ none)
delete_by_prefix_lem_example =
    delete_by_prefix_lem listed listed-IsCollection (codes "src") (codes "app") three_files

set_status_lem_example :
    ((set_status listed (codes "app") (codes "done") three_files).1 ≡ none)
    × (get_status listed
          (codes "app")
          (set_status listed (codes "app") (codes "done") three_files).0
        ≡ (codes "done", none))
    × ((set_status listed (codes "app") (codes "done") three_files).0.collection
        ≡ status_record listed (codes "app") (codes "done") ∷ three_files.collection)
unfolding status_filter
set_status_lem_example =
    set_status_lem listed listed-IsCollection (codes "app") (codes "done") three_files

search_with_score_lem_example :
    (found : List (Found listed) × List ℕ) × (search_with_score listed 1
        (pos 2)
        (codes "app" ∷ [])
        []
        three_files
      ≡ ok found)
    × (length found.0 ≤ 2)
    × (length found.1 ≡ length found.0)
    × (any (λ r. not (is_asked [] (codes "app" ∷ []) (document r))) found.0 ≡ false)
search_with_score_lem_example =
    search_with_score_lem listed listed-IsCollection listed-IsSort three_files 1 2 []
      (codes "app" ∷ [])

abbrev no_boost : Ranking listed
no_boost = record {
  has_code_like_identifiers = λ query. true;
  now = pos 0;
  parse_int = λ text. none;
  of_ℤ = λ z. 0;
  neg = λ x. x;
  pow = λ x y. 1;
}

hybrid_search_lem_example :
    (rs : List (Found listed)) × (hybrid_search listed no_boost
        (codes "x")
        1
        (pos 2)
        (codes "app" ∷ [])
        []
        three_files
      ≡ ok rs)
    × (length rs ≤ 2)
    × (any (λ r. not (is_asked [] (codes "app" ∷ []) (document r))) rs ≡ false)
hybrid_search_lem_example =
    hybrid_search_lem listed listed-IsCollection listed-IsSort no_boost (codes "x") three_files 1 2
      [] (codes "app" ∷ [])
