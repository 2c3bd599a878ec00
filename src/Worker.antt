-- ===== src/Worker.antt =====
-- internal/worker/worker.go: the worker that indexes the paths of a queue.
--
-- The state is what the worker shares: the store, or the error of `storeGetter`, and the progress
-- map. The configuration of a path is the parameter `host`, and `arrive` the order in which the
-- results of its files come. A panic is not part of a run of the model: what the deferred function
-- then does is `recover_panic`. The logging is left out.
pub mod Agreement
mod Tests
use vector_mcp_go.Base.{Option, none, some, List, [], ◌∷◌, ◌++◌}
use vector_mcp_go.Base.Maps.{put}
use vector_mcp_go.Base.Text.{Text, codes, text_dec}
use vector_mcp_go.Indexer.{Host, FileResult}
use vector_mcp_go.Indexer.Run.{Run, Summary, index_full_codebase}
use vector_mcp_go.Store.{Metadata, Reply, failed, ok, Collection, Store, set_status}

abbrev pub status_initializing : Text
status_initializing = codes "Initializing..."

abbrev pub status_panic : Text
status_panic = codes "Failed (Panic)"

abbrev pub status_error : Text
status_error = codes "Error"

abbrev pub status_completed : Text
status_completed = codes "Completed"

pub record Shared (col : Collection) : Type 0 where
  pub store : Reply Text (Store col)
  pub progress : Metadata

module _ (col : Collection) (host : Text → Host col) where
  open col use {Vector}

  -- `progressMap.Store(path, status)` and `store.SetStatus(ctx, path, status)`, whose error is
  -- dropped.
  unfoldable pub report : Text → Text → Store col → Metadata → Shared col
  report path status store progress = record {
    store = ok (set_status col path status store).0;
    progress = put text_dec path status progress;
  }

  -- The status after a run: the error, or the numbers of the summary.
  unfoldable pub outcome : Text → Summary → Option Text → Text
  outcome path summary (some e) = status_error ++ codes ": " ++ e
  outcome path summary none =
      status_completed
      ++ codes ": "
      ++ (host path).itoa summary.files_indexed
      ++ codes " indexed, "
      ++ (host path).itoa summary.files_skipped
      ++ codes " skipped"

  -- What follows `IndexFullCodebase`, which leaves the progress map where it is given one.
  unfoldable pub finish : Text → Metadata → Run col × Option Text → Shared col
  unfolding report outcome
  finish path starting (run, e) =
      report path (outcome path run.summary e) run.store
        (elim run.progress [ none ↦ starting | some progress ↦ progress ])

  -- The deferred function, after a panic.
  unfoldable pub recover_panic : Text → Shared col → Shared col
  unfolding report
  recover_panic path w = elim w.store [
    | failed e ↦ record w { progress = put text_dec path status_panic w.progress }
    | ok store ↦ report path status_panic store w.progress
  ]

  module _ (arrive : List (FileResult Vector) → List (FileResult Vector)) where
    unfoldable pub process_path : Text → Shared col → Shared col
    unfolding finish
    process_path path w =
        let starting = put text_dec path status_initializing w.progress in
        elim w.store [
          | failed e ↦ record w {
            progress =
                put text_dec path (status_error ++ codes ": could not get store: " ++ e) starting;
          }
          | ok store ↦ finish path starting (
              index_full_codebase col (host path) arrive
                (set_status col path status_initializing store).0 (some starting))
        ]

    -- The loop of `Start` over the paths that are received before the queue is closed.
    unfoldable pub start : List Text → Shared col → Shared col
    unfolding process_path
    start [] w = w
    start (path ∷ queue) w = start queue (process_path path w)
