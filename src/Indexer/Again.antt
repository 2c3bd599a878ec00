-- ===== src/Indexer/Again.antt =====
-- internal/indexer/scanner.go: a run after a run, and the run of a single file, with what the store
-- then says of the files.
use mathlib.Core.Bool.{true≢false}
use vector_mcp_go.Base.{
  ◌≡◌, refl, sym, ap, ◌∙◌, true, false, ◌&&◌, not, Option, none, some, List, [], ◌∷◌, any, All,
  length,
}
use vector_mcp_go.Base.Maps.{find}
use vector_mcp_go.Base.Text.{Text, codes, text_eq, text_eq_refl, text_dec}
use vector_mcp_go.Indexer.Collected.{insert-IsCurrent, or_left, spoilt-stored}
use vector_mcp_go.Indexer.Fresh.{IsArrival, is_clash, index_files-IsCurrent, find-is_up_to_date}
use vector_mcp_go.Indexer.Held.{IsCurrent, is_stored, is_bad, delete_by_path-fresh, or_none_head}
use vector_mcp_go.Indexer.Made.{process_file-err, is_spoilt, process_file-spoilt, process_file-path}
use vector_mcp_go.Indexer.Mapping.{mapping_of-IsCurrent, get_file_hash-IsCurrent}
use vector_mcp_go.Indexer.Run.{
  Summary, is_up_to_date, discover_files_to_index, mapping_of, index_files, index_full_codebase,
  index_single_file, store_single,
}
use vector_mcp_go.Indexer.Scan.{walk_files, init_ignorer}
use vector_mcp_go.Indexer.Unique.{IsUnique, set_status-IsUnique, and_intro}
use vector_mcp_go.Indexer.{
  Host, FileResult, get_relative_path, get_hash, current_hash, process_file,
}
use vector_mcp_go.Store.Filters.{and_false, All-any, All-imp}
use vector_mcp_go.Store.{
  Metadata, Document, ok, Collection, IsCollection, Store, insert, delete_by_path, set_status,
  get_file_hash,
}

module _ (col : Collection) (host : Host col) where
  open col use {Vector, docs}
  open host use {root}

  -- The files that the scan finds.
  abbrev pub scanned : List Text
  scanned = (walk_files col host (init_ignorer col host)).0

  -- A file that a run can index, and whose relative path no other file shares.
  abbrev pub IsSound : List Text → Text → Type 0
  IsSound files file =
      (any (is_clash col host file) files ≡ false)
      × ((process_file col host file (current_hash col host file)).indexed ≡ true)

  discover-none :
      (files : List Text) (mapping : Metadata)
      → All (λ file. is_up_to_date col host mapping file ≡ true) files
      → discover_files_to_index col host files mapping ≡ ([], length files)
  unfolding discover_files_to_index
  discover-none [] mapping h = refl
  discover-none (file ∷ files) mapping h = rw (h.0, discover-none files mapping h.1) refl

  both :
      {A : Type 0} (P Q : A → Type 0) (xs : List A) → All P xs → All Q xs → All (λ x. P x × Q x) xs
  both P Q [] h k = tt
  both P Q (x ∷ xs) h k = ((h.0, k.0), both P Q xs h.1 k.1)

  module _ (laws : IsCollection col) where
    index_files-again :
        (arrive : List (FileResult Vector) → List (FileResult Vector))
        → IsArrival arrive
        → (files : List Text) (store : Store col) (progress : Option Metadata)
        → IsUnique col host (docs store.collection)
        → All (IsSound files) files
        → discover_files_to_index col host files
            (mapping_of col host (index_files col host arrive files store progress).store)
          ≡ ([], length files)
    index_files-again arrive ar files store progress u sound =
        let after = (index_files col host arrive files store progress).store in
        discover-none files (mapping_of col host after) (
          All-imp
            (λ file h. find-is_up_to_date col host laws file (mapping_of col host after) (
              mapping_of-IsCurrent col host (get_relative_path col host file)
                (current_hash col host file) laws after
                (index_files-IsCurrent col host laws file arrive ar files store progress u
                  (h.0 (text_eq file) (text_eq_refl file)) h.1.0 h.1.1)))
            files (both _ (IsSound files) files (All-any files) sound))

    index_full_codebase-run :
        (arrive : List (FileResult Vector) → List (FileResult Vector)) (store : Store col)
        (progress : Option Metadata)
        → (walk_files col host (init_ignorer col host)).1 ≡ none
        → index_full_codebase col host arrive store progress ≡ (
          index_files col host arrive scanned
              (set_status col root (codes "Scanning files and cleaning index...") store).0
              progress,
          none,
        )
    unfolding index_full_codebase
    index_full_codebase-run arrive store progress h = rw (h, index_full_codebase) refl

    -- A second run has nothing to index: where the scan ends without an error, every file that it
    -- finds can be read and chunked, no two of them share a relative path with different hashes,
    -- and the store held each name once and each file record of the project under its own name, a
    -- run ends without an error and leaves a store by which every file is up to date, in whatever
    -- order the results arrive.
    pub index_full_codebase-again :
        (arrive : List (FileResult Vector) → List (FileResult Vector))
        → IsArrival arrive
        → (store : Store col) (progress : Option Metadata)
        → IsUnique col host (docs store.collection)
        → (walk_files col host (init_ignorer col host)).1 ≡ none
        → All (IsSound scanned) scanned
        → ((index_full_codebase col host arrive store progress).1 ≡ none)
          × (discover_files_to_index col host scanned
                (mapping_of col host (index_full_codebase col host arrive store progress).0.store)
              ≡ ([], length scanned))
    index_full_codebase-again arrive ar store progress u h sound =
        rw (index_full_codebase-run arrive store progress h) (
          refl,
          index_files-again arrive ar scanned
              (set_status col root (codes "Scanning files and cleaning index...") store).0 progress
              (set_status-IsUnique col host laws _ store u) sound,
        )

    abbrev single_store : Text → Text → Store col → Store col
    single_store path hash store =
        (insert col (process_file col host path hash).records
          (delete_by_path col (get_relative_path col host path) root store).0).0

    abbrev single_summary : Summary
    single_summary = record {
      status = codes "completed";
      files_processed = 0;
      files_indexed = 1;
      files_skipped = 0;
      errors = [];
    }

    index_single_file-run :
        (path hash : Text) (store : Store col)
        → get_hash col host path ≡ ok hash
        → (process_file col host path hash).indexed ≡ true
        → index_single_file col host path store
          ≡ ((single_store path hash store, single_summary), none)
    unfolding index_single_file store_single
    index_single_file-run path hash store h k =
        rw (h, index_single_file, process_file-err col host path hash k, k) refl

    no_clash :
        (path hash : Text)
        → (text_eq (get_relative_path col host path) (get_relative_path col host path)
            && not (text_eq hash hash))
          ≡ false
    no_clash path hash = rw (text_eq_refl hash) (and_false _)

    store_single-IsCurrent :
        (path hash : Text) (r : FileResult Vector) (store : Store col)
        → is_spoilt col host path hash r ≡ false
        → r.indexed ≡ true
        → text_eq r.rel_path path ≡ true
        → (records : List (Document Vector)) → records ≡ r.records
        → IsCurrent col host path hash
            (docs (insert col records (delete_by_path col path root store).0).0.collection)
    store_single-IsCurrent path hash r store h i e [] k = absurd (
        true≢false (
          sym (spoilt-stored col host path hash laws r h (and_intro r.indexed _ i e))
          ∙ sym (ap (λ ds. any (is_stored col host path hash) ds) k)))
    store_single-IsCurrent path hash r store h i e (d ∷ ds) k =
        insert-IsCurrent col host path hash laws d ds (delete_by_path col path root store).0
          (ap (λ ds. any (is_bad col host path hash) ds) k
            ∙ or_none_head (any (is_bad col host path hash) r.records) _ h)
          (
            delete_by_path-fresh col host path hash laws store,
            or_left (any (is_stored col host path hash) (d ∷ ds)) _ (
                ap (λ ds. any (is_stored col host path hash) ds) k
                ∙ spoilt-stored col host path hash laws r h (and_intro r.indexed _ i e)),
          )

    -- Indexing a single file that can be read and chunked ends without an error, and the store then
    -- says of the file, by both of its readers, the hash that it has; whatever the store held of it
    -- before, and whatever the embedding model answers.
    pub index_single_file-found :
        (path hash : Text) (store : Store col)
        → get_hash col host path ≡ ok hash
        → (process_file col host path hash).indexed ≡ true
        → ((index_single_file col host path store).1 ≡ none)
          × ((index_single_file col host path store).0.1.status ≡ codes "completed")
          × (find text_dec
                (get_relative_path col host path)
                (mapping_of col host (index_single_file col host path store).0.0)
              ≡ some hash)
          × (get_file_hash col
                (get_relative_path col host path)
                root
                (index_single_file col host path store).0.0
              ≡ (hash, none))
    index_single_file-found path hash store h k =
        let rel = get_relative_path col host path in
        let r = process_file col host path hash in
        let run = index_single_file-run path hash store h k in
        let current : IsCurrent col host rel hash (docs (single_store path hash store).collection) =
          store_single-IsCurrent rel hash r store
            (process_file-spoilt col host rel hash path hash (no_clash path hash)) k
            (ap (λ t. text_eq t rel) (process_file-path col host path hash k) ∙ text_eq_refl rel)
            r.records refl in
        (
          ap (λ x. x.1) run,
          ap (λ x. x.0.1.status) run,
          ap (λ x. find text_dec rel (mapping_of col host x.0.0)) run
              ∙ mapping_of-IsCurrent col host rel hash laws (single_store path hash store) current,
          ap (λ x. get_file_hash col rel root x.0.0) run
              ∙ get_file_hash-IsCurrent col host rel hash laws (single_store path hash store)
                  current,
        )
