-- ===== src/Indexer/Tests.antt =====
-- internal/indexer/scanner.go at a small project, and its theorems there.
use vector_mcp_go.Base.{
  ℕ, ◌+◌, ◌≡◌, refl, false, none, some, List, [], ◌∷◌, ◌++◌, map, length, drop, keep, ◌==◌,
  if◌then◌else◌,
}
use vector_mcp_go.Base.Int.{pos}
use vector_mcp_go.Base.Maps.{find}
use vector_mcp_go.Base.Text.{Text, codes, has_prefix, text_eq, text_dec}
use vector_mcp_go.Chunk.{Chunk}
use vector_mcp_go.Indexer.Again.{scanned, index_full_codebase-again, index_single_file-found}
use vector_mcp_go.Indexer.Discovery.{collect_results-Counted}
use vector_mcp_go.Indexer.Fresh.{IsArrival}
use vector_mcp_go.Indexer.Run.{
  Run, discover_files_to_index, collect_results, mapping_of, index_full_codebase, index_single_file,
}
use vector_mcp_go.Indexer.Scan.{
  walk_files, walk_files-places, places, is_indexable, is_ignored_dir, is_ignored_file, takes_file,
  skips_dir, init_ignorer, matches_path,
}
use vector_mcp_go.Indexer.{
  Entries, end, and_then, file, dir, Host, FileResult, current_hash, get_hash, process_file,
  get_relative_path,
}
use vector_mcp_go.Store.Listed.{listed, listed-IsCollection}
use vector_mcp_go.Store.{failed, ok, Store, get_file_hash}

-- The suffix from the last dot on.
abbrev suffix : Text → Text
suffix [] = []
suffix (c ∷ s) = elim (suffix s) [ [] ↦ if c == b'.' then c ∷ s else [] | d ∷ t ↦ d ∷ t ]

abbrev entries : Entries
entries = and_then (file (codes "main.go")) (
    and_then (dir (codes "vendor") (and_then (file (codes "x.go")) end))
      (and_then (dir (codes "docs") (and_then (file (codes "a.md")) end)) end))

abbrev one_chunk : Text → Chunk ℕ
one_chunk text = record {
  content = text;
  contextual_string = text;
  symbols = [];
  parent_symbol = [];
  relationships = [];
  chunk_type = [];
  calls = [];
  function_score = 0;
  start_line = 1;
  end_line = 1;
  docstring = [];
  structural_metadata = [];
}

abbrev project : Host listed
project = record {
  root = codes "/app";
  filepath_rel = λ root path. if has_prefix path root then some (drop 5 path) else none;
  ext = suffix;
  base = λ path. path;
  join = λ a b. a ++ b'/' ∷ b;
  to_lower = λ text. text;
  contains = λ text part. false;
  equal_fold = text_eq;
  listing = ok entries;
  exists = λ path. false;
  compile_ignore_file = λ path. none;
  read_file = λ path. ok (drop 5 path);
  pdf_pages = λ path. failed [];
  sha256_hex = λ content. content;
  mod_time = λ path. none;
  now = pos 0;
  format_int = λ n. codes "0";
  itoa = λ n. (b'0' + n) ∷ [];
  format_one = λ x. codes "1.0";
  format_two = λ x. codes "1.00";
  marshal_list = λ xs. codes "[]";
  marshal_map = λ m. codes "{}";
  store_error = λ e. [];
  embed_batch = λ texts. ok (map (λ t. 1) texts);
  embed = λ text. ok 1;
  create_chunks = λ text path. some (one_chunk text ∷ []);
}

abbrev empty_store : Store listed
empty_store = record {
  collection = [];
  bm25 = record { postings = []; doc_len = []; doc_count = 0; avg_len = 0 };
}

scanned_two : scanned listed project ≡ codes "/app/main.go" ∷ codes "/app/docs/a.md" ∷ []
unfolding walk_files takes_file is_ignored_file matches_path init_ignorer skips_dir is_ignored_dir
scanned_two = refl

walk_files-places_example :
    (walk_files listed project none).0
    ≡ map
        (λ p. p.path)
        (keep
          (is_indexable listed project none)
          (places listed project none [] (codes "/app") entries))
unfolding walk_files takes_file is_ignored_file matches_path init_ignorer skips_dir is_ignored_dir
walk_files-places_example = walk_files-places listed project none entries refl refl

abbrev as_sent : {V : Type 0} → List (FileResult V) → List (FileResult V)
as_sent rs = rs

as_sent-IsArrival : IsArrival {V = ℕ} as_sent
as_sent-IsArrival = record { any-arrive = λ p rs. refl }

index_full_codebase-again_example :
    ((index_full_codebase listed project as_sent empty_store none).1 ≡ none)
    × (discover_files_to_index listed project (scanned listed project) (
          mapping_of listed project
            (index_full_codebase listed project as_sent empty_store none).0.store)
        ≡ ([], length (scanned listed project)))
unfolding walk_files process_file current_hash takes_file is_ignored_file matches_path init_ignorer
    skips_dir is_ignored_dir
index_full_codebase-again_example =
    index_full_codebase-again listed project listed-IsCollection as_sent as_sent-IsArrival
      empty_store none (tt, tt) refl ((refl, refl), ((refl, refl), tt))

index_single_file-found_example :
    ((index_single_file listed project (codes "/app/main.go") empty_store).1 ≡ none)
    × ((index_single_file listed project (codes "/app/main.go") empty_store).0.1.status
        ≡ codes "completed")
    × (find text_dec (get_relative_path listed project (codes "/app/main.go")) (
          mapping_of listed project
            (index_single_file listed project (codes "/app/main.go") empty_store).0.0)
        ≡ some (codes "main.go"))
    × (get_file_hash listed
          (get_relative_path listed project (codes "/app/main.go"))
          (codes "/app")
          (index_single_file listed project (codes "/app/main.go") empty_store).0.0
        ≡ (codes "main.go", none))
unfolding process_file get_hash
index_single_file-found_example =
    index_single_file-found listed project listed-IsCollection (codes "/app/main.go")
      (codes "main.go") empty_store refl refl

abbrev two_files : List Text
two_files = codes "/app/main.go" ∷ codes "/app/docs/a.md" ∷ []

abbrev first_run : Run listed
first_run = record {
  store = empty_store;
  summary = record {
    status = codes "completed";
    files_processed = 2;
    files_indexed = 0;
    files_skipped = 0;
    errors = [];
  };
  progress = none;
}

abbrev unread : FileResult ℕ
unread = record {
  indexed = false;
  skipped = false;
  err = codes "permission denied";
  rel_path = codes "b.go";
  records = [];
}

abbrev two_results : List (FileResult ℕ)
two_results = process_file listed project (codes "/app/main.go") (codes "main.go") ∷ unread ∷ []

collect_results-Counted_example :
    ((collect_results listed project 2 0 two_results (first_run, [])).summary.files_indexed ≡ 1)
    × ((collect_results listed project 2 0 two_results (first_run, [])).summary.files_skipped ≡ 0)
    × ((collect_results listed project 2 0 two_results (first_run, [])).summary.errors
        ≡ codes "permission denied" ∷ [])
    × ((collect_results listed project 2 0 two_results (first_run, [])).summary.status
        ≡ codes "completed")
    × ((collect_results listed project 2 0 two_results (first_run, [])).summary.files_processed ≡ 2)
unfolding process_file
collect_results-Counted_example =
    collect_results-Counted listed project 2 0 two_results first_run []
