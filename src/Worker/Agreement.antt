-- ===== src/Worker/Agreement.antt =====
-- internal/worker/worker.go: what is told in the progress map and in the store.
use vector_mcp_go.Base.{◌≡◌, none, some, List, ◌++◌}
use vector_mcp_go.Base.Maps.{find, put}
use vector_mcp_go.Base.Text.{Text, codes, text_dec}
use vector_mcp_go.Indexer.{Host, FileResult}
use vector_mcp_go.Indexer.Run.{Run, index_full_codebase}
use vector_mcp_go.Store.{failed, ok, Collection, IsCollection, Store, set_status, get_status}
use vector_mcp_go.Worker.{Shared, status_error, status_initializing, outcome}

module _ (col : Collection) (laws : IsCollection col) (host : Text → Host col) where
  open col use {Vector}

  -- The status of a path in the progress map and, where there is a store, in the store.
  abbrev pub Told : Text → Text → Shared col → Type 0
  Told path status w =
      (find text_dec path w.progress ≡ some status)
      × elim w.store [ failed e ↦ Unit | ok store ↦ get_status col path store ≡ (status, none) ]

  -- What a path's run comes to, given the store that there is.
  abbrev pub result :
      (List (FileResult Vector) → List (FileResult Vector)) → Text → Shared col → Text
  result arrive path w = elim w.store [
    | failed e ↦ status_error ++ codes ": could not get store: " ++ e
    | ok store ↦
        let run =
          index_full_codebase col (host path) arrive
            (set_status col path status_initializing store).0
            (some (put text_dec path status_initializing w.progress)) in
        outcome col host path run.0.summary run.1
  ]
