-- ===== src/Indexer/Discovery.antt =====
-- internal/indexer/scanner.go: which files a run indexes, and what its summary counts.
use vector_mcp_go.Base.{
  ℕ, suc, ◌+◌, ◌≡◌, refl, sym, ap, ◌∙◌, not, List, [], ◌∷◌, ◌++◌, map, append_assoc, append-nil,
  length, keep, Bool-cases, inl, inr, arith,
}
use vector_mcp_go.Base.Text.{Text, text_eq}
use vector_mcp_go.Indexer.Run.{
  Summary, Run, is_up_to_date, discover_files_to_index, count_result, collect_one, flush_rest,
  collect_results,
}
use vector_mcp_go.Indexer.{Host, FileResult, current_hash}
use vector_mcp_go.Store.{Metadata, Document, Collection}

module _ (col : Collection) (host : Host col) where
  open col use {Vector}

  -- The files to index are, in the order of the scan, those whose stored hash is missing or is not
  -- the hash that they have now, each with that hash; they and the skipped ones are all the files.
  pub discover_files_to_index_lem :
      (files : List Text) (mapping : Metadata)
      → ((discover_files_to_index col host files mapping).0
          ≡ map
              (λ path. (path, current_hash col host path))
              (keep (λ path. not (is_up_to_date col host mapping path)) files))
        × ((discover_files_to_index col host files mapping).1
            ≡ length (keep (is_up_to_date col host mapping) files))
        × (length (discover_files_to_index col host files mapping).0
              + (discover_files_to_index col host files mapping).1
            ≡ length files)
  unfolding discover_files_to_index
  discover_files_to_index_lem [] mapping = (refl, refl, refl)
  discover_files_to_index_lem (path ∷ paths) mapping =
      let rest = discover_files_to_index_lem paths mapping in
      elim (Bool-cases (is_up_to_date col host mapping path)) [
        | inl e ↦ rw e (rest.0, ap suc rest.1, omega (arith, rest.2))
        | inr e ↦
            rw e (ap (◌∷◌ (path, current_hash col host path)) rest.0, rest.1, omega (arith, rest.2))
      ]

  -- The errors of the results that have one.
  abbrev pub errors_of : List (FileResult Vector) → List Text
  errors_of rs = map (λ r. r.err) (keep (λ r. not (text_eq r.err [])) rs)

  flush_rest-summary :
      (run : Run col) (batch : List (Document Vector))
      → (flush_rest col host (run, batch)).summary ≡ run.summary
  unfolding flush_rest
  flush_rest-summary run [] = refl
  flush_rest-summary run (d ∷ batch) = refl

  collect_one-summary :
      (total processed : ℕ) (r : FileResult Vector) (run : Run col) (batch : List (Document Vector))
      → (collect_one col host total processed r (run, batch)).0.summary
        ≡ count_result col host r run.summary
  unfolding collect_one
  collect_one-summary total processed r run batch = refl

  abbrev Counted : List (FileResult Vector) → Summary → Summary → Type 0
  Counted rs before after =
      (after.files_indexed ≡ before.files_indexed + length (keep (λ r. r.indexed) rs))
      × (after.files_skipped ≡ before.files_skipped + length (keep (λ r. r.skipped) rs))
      × (after.errors ≡ before.errors ++ errors_of rs)
      × (after.status ≡ before.status)
      × (after.files_processed ≡ before.files_processed)

  errors-one :
      (r : FileResult Vector) (rs : List (FileResult Vector)) (before after : Summary)
      → after.errors ≡ (count_result col host r before).errors ++ errors_of rs
      → after.errors ≡ before.errors ++ errors_of (r ∷ rs)
  unfolding count_result
  errors-one r rs before after h = elim (Bool-cases (text_eq r.err [])) [
    | inl e ↦ h ∙ rw e refl
    | inr e ↦ h ∙ rw e (append_assoc before.errors (r.err ∷ []) (errors_of rs))
  ]

  Counted-one :
      (r : FileResult Vector) (rs : List (FileResult Vector)) (before after : Summary)
      → Counted rs (count_result col host r before) after
      → Counted (r ∷ rs) before after
  unfolding count_result
  Counted-one r rs before after h =
      (ground (arith, h.0), ground (arith, h.1), errors-one r rs before after h.2, h.3, h.4)

  -- What the loop over the results adds to the summary, whatever the order of the results, the
  -- batches and the store: one for each indexed and each skipped file, and the errors in the order
  -- of the results; the status stays.
  pub collect_results-Counted :
      (total processed : ℕ) (rs : List (FileResult Vector)) (run : Run col)
      (batch : List (Document Vector))
      → ((collect_results col host total processed rs (run, batch)).summary.files_indexed
          ≡ run.summary.files_indexed + length (keep (λ r. r.indexed) rs))
        × ((collect_results col host total processed rs (run, batch)).summary.files_skipped
            ≡ run.summary.files_skipped + length (keep (λ r. r.skipped) rs))
        × ((collect_results col host total processed rs (run, batch)).summary.errors
            ≡ run.summary.errors ++ errors_of rs)
        × ((collect_results col host total processed rs (run, batch)).summary.status
            ≡ run.summary.status)
        × ((collect_results col host total processed rs (run, batch)).summary.files_processed
            ≡ run.summary.files_processed)
  unfolding collect_results
  collect_results-Counted total processed [] run batch =
      rw (flush_rest-summary run batch)
        (omega arith, omega arith, sym (append-nil run.summary.errors), refl, refl)
  collect_results-Counted total processed (r ∷ rs) run batch =
      let (next, rest) = collect_one col host total (suc processed) r (run, batch) in
      Counted-one r rs run.summary
        (collect_results col host total (suc processed) rs (next, rest)).summary
        (collect_results-Counted total (suc processed) rs next rest)
