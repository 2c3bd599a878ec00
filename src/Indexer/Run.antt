-- ===== src/Indexer/Run.antt =====
-- internal/indexer/scanner.go: `IndexFullCodebase` and `IndexSingleFile` over the store.
--
-- The order in which the results of the goroutines arrive is the parameter `arrive`. The loops
-- over the hash mapping go through it in the order of its list.
use vector_mcp_go.Base.{
  ℕ, suc, Bool, false, Option, none, some, List, [], ◌∷◌, ◌++◌, map, length, any, leb,
  if◌then◌else◌,
}
use vector_mcp_go.Base.Maps.{find, put}
use vector_mcp_go.Base.Text.{Text, codes, text_eq, text_dec}
use vector_mcp_go.Indexer.Scan.{init_ignorer, walk_files}
use vector_mcp_go.Indexer.{
  Host, FileResult, get_relative_path, get_hash, current_hash, process_file,
}
use vector_mcp_go.Store.Readers.{get_path_hash_mapping}
use vector_mcp_go.Store.{
  Metadata, Document, failed, ok, Collection, Store, insert, delete_by_path, set_status,
}

-- `IndexSummary`, less `DurationMs`, which no function here sets.
pub record Summary : Type 0 where
  pub status : Text
  pub files_processed : ℕ
  pub files_indexed : ℕ
  pub files_skipped : ℕ
  pub errors : List Text

-- What a run changes: the store, the summary and, where there is one, the progress map.
pub record Run (col : Collection) : Type 0 where
  pub store : Store col
  pub summary : Summary
  pub progress : Option Metadata

-- A path and its hash.
abbrev pub Task : Type 0
Task = Text × Text

module _ (col : Collection) (host : Host col) where
  open col use {floats, Vector}
  open floats use {of_int, mul, div}
  open host use {root, itoa, format_one, store_error}

  -- Whether the file has the hash that the mapping stores.
  unfoldable pub is_up_to_date : Metadata → Text → Bool
  is_up_to_date mapping path = elim (find text_dec (get_relative_path col host path) mapping) [
    | none ↦ false
    | some existing ↦ text_eq existing (current_hash col host path)
  ]

  unfoldable pub discover_files_to_index : List Text → Metadata → List Task × ℕ
  unfolding is_up_to_date
  discover_files_to_index [] mapping = ([], 0)
  discover_files_to_index (path ∷ paths) mapping =
      let (tasks, skipped) = discover_files_to_index paths mapping in
      if is_up_to_date mapping path
      then (tasks, suc skipped)
      else ((path, current_hash col host path) ∷ tasks, skipped)

  abbrev pub add_error : Text → Text → Summary → Summary
  add_error status e s = record s { status = status; errors = s.errors ++ e ∷ [] }

  abbrev pub stale_error : Text → Option col.Err → Summary → Summary
  stale_error path none s = s
  stale_error path (some e) s =
      add_error (codes "partially_completed")
        (codes "failed to delete stale path " ++ path ++ codes ": " ++ store_error e) s

  -- `cleanupStaleFiles`, given the relative paths of the files.
  unfoldable pub delete_stale :
      List Text → List (Text × Text) → Store col × Summary → Store col × Summary
  delete_stale present [] (store, summary) = (store, summary)
  delete_stale present ((path, hash) ∷ mapping) (store, summary) =
      let (deleted, e) = delete_by_path col path root store in
      let kept = delete_stale present mapping (store, summary) in
      let cleaned = delete_stale present mapping (deleted, stale_error path e summary) in
      if any (text_eq path) present then kept else cleaned

  unfoldable pub cleanup_stale_files :
      List Text → Metadata → Store col × Summary → Store col × Summary
  unfolding delete_stale
  cleanup_stale_files files mapping = delete_stale (map (get_relative_path col host) files) mapping

  -- `if r.Err != ""`, `if r.Indexed` and `if r.Skipped` on the summary.
  unfoldable pub count_result : FileResult Vector → Summary → Summary
  count_result r s = record s {
    errors = if text_eq r.err [] then s.errors else s.errors ++ r.err ∷ [];
    files_indexed = if r.indexed then suc s.files_indexed else s.files_indexed;
    files_skipped = if r.skipped then suc s.files_skipped else s.files_skipped;
  }

  -- `if r.Indexed` on the store and the batch.
  unfoldable pub replace_file :
      FileResult Vector → Store col × List (Document Vector) → Store col × List (Document Vector)
  replace_file r (store, batch) =
      if r.indexed
      then ((delete_by_path col r.rel_path root store).0, batch ++ r.records)
      else (store, batch)

  -- `if len(batch) >= 50`
  unfoldable pub flush_full :
      Store col × List (Document Vector) → Store col × List (Document Vector)
  flush_full (store, batch) =
      if leb 50 (length batch) then ((insert col batch store).0, []) else (store, batch)

  progress_status : ℕ → ℕ → Text → Text
  progress_status processed total path =
      codes "Indexing: "
      ++ format_one (mul (div (of_int processed) (of_int total)) (of_int 100))
      ++ codes "% ("
      ++ itoa processed
      ++ b'/' ∷ itoa total
      ++ codes ") - Current: "
      ++ path

  abbrev note_progress : Text → Option Metadata → Option Metadata
  note_progress status none = none
  note_progress status (some m) = some (put text_dec root status m)

  -- One result: the body of the loop of `collectResults`, with the batch before and after.
  unfoldable pub collect_one :
      ℕ
      → ℕ
      → FileResult Vector
      → Run col × List (Document Vector)
      → Run col × List (Document Vector)
  unfolding replace_file flush_full count_result progress_status
  collect_one total processed r (run, batch) =
      let (store, rest) = flush_full (replace_file r (run.store, batch)) in
      let status = progress_status processed total r.rel_path in
      let next : Run col = record {
        store = (set_status col root status store).0;
        summary = count_result r run.summary;
        progress = note_progress status run.progress;
      } in
      (next, rest)

  -- `if len(batch) > 0`
  unfoldable pub flush_rest : Run col × List (Document Vector) → Run col
  flush_rest (run, []) = run
  flush_rest (run, d ∷ batch) = record run { store = (insert col (d ∷ batch) run.store).0 }

  -- `collectResults`, from the number of results that came before.
  unfoldable pub collect_results :
      ℕ → ℕ → List (FileResult Vector) → Run col × List (Document Vector) → Run col
  unfolding collect_one flush_rest
  collect_results total processed [] acc = flush_rest acc
  collect_results total processed (r ∷ rs) acc =
      collect_results total (suc processed) rs (collect_one total (suc processed) r acc)

  abbrev pub start : Summary
  start = record {
    status = codes "completed";
    files_processed = 0;
    files_indexed = 0;
    files_skipped = 0;
    errors = [];
  }

  -- `hashMapping, _ := opts.Store.GetPathHashMapping(…)`
  unfoldable pub mapping_of : Store col → Metadata
  mapping_of store = elim (get_path_hash_mapping col root store) [
    | failed _ ↦ []
    | ok mapping ↦ mapping
  ]

  module _ (arrive : List (FileResult Vector) → List (FileResult Vector)) where
    unfoldable pub process_indexing : List Task → Run col → Run col
    unfolding collect_results
    process_indexing to_index run =
        collect_results (length to_index) 0
          (arrive (map (λ task. process_file col host task.0 task.1) to_index)) (run, [])

    -- The run after the cleaning: the early return, or the indexing.
    unfoldable pub index_found : List Task → Store col × Summary → Option Metadata → Run col
    unfolding process_indexing
    index_found [] (store, summary) progress = record {
      store =
          (set_status col root
            (codes "Completed: "
              ++ itoa summary.files_skipped
              ++ codes " files skipped (up to date)")
            store).0;
      summary = summary;
      progress = progress;
    }
    index_found (task ∷ tasks) (store, summary) progress =
        process_indexing (task ∷ tasks)
          (record { store = store; summary = summary; progress = progress })

    -- The run after the scan, over the files that it found.
    unfoldable pub index_files : List Text → Store col → Option Metadata → Run col
    unfolding cleanup_stale_files discover_files_to_index index_found mapping_of
    index_files files store progress =
        let mapping = mapping_of store in
        let (to_index, skipped) = discover_files_to_index files mapping in
        let found : Summary = record start {
          files_processed = length files;
          files_skipped = skipped;
        } in
        index_found to_index (cleanup_stale_files files mapping (store, found)) progress

    -- `IndexFullCodebase`: the run, and the error of the scan.
    unfoldable pub index_full_codebase : Store col → Option Metadata → Run col × Option Text
    unfolding index_files
    index_full_codebase store progress =
        let scanning =
          (set_status col root (codes "Scanning files and cleaning index...") store).0 in
        let (files, e) = walk_files col host (init_ignorer col host) in
        let run = index_files files scanning progress in
        let stopped : Run col = record { store = scanning; summary = start; progress = progress } in
        elim e [ some err ↦ (stopped, some err) | none ↦ (run, none) ]

  abbrev pub error_summary : Text → Summary
  error_summary e = record {
    status = codes "error";
    files_processed = 0;
    files_indexed = 0;
    files_skipped = 0;
    errors = e ∷ [];
  }

  -- `if res.Indexed`, and the summary, which does not look at it.
  unfoldable pub store_single :
      Text → FileResult Vector → Store col → (Store col × Summary) × Option Text
  store_single rel_path r store =
      let summary : Summary = record {
        status = codes "completed";
        files_processed = 0;
        files_indexed = 1;
        files_skipped = 0;
        errors = [];
      } in
      if text_eq r.err []
      then (
        (
          if r.indexed
              then (insert col r.records (delete_by_path col rel_path root store).0).0
              else store,
          summary,
        ),
        none,
      )
      else ((store, error_summary r.err), none)

  -- `IndexSingleFile`
  unfoldable pub index_single_file : Text → Store col → (Store col × Summary) × Option Text
  unfolding store_single
  index_single_file path store = elim (get_hash col host path) [
    | failed e ↦ ((store, error_summary e), some e)
    | ok hash ↦
        store_single (get_relative_path col host path) (process_file col host path hash) store
  ]
