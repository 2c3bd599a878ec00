-- ===== src/Daemon.antt =====
-- internal/daemon/daemon.go: the master's RPC methods over the shared store, and its clients.
--
-- net/rpc is a call of the method on the master's service, or the error of `rpc.Dial`: an answer is
-- carried over as it is, and with an error nothing but its text. A handler of the service is a
-- function on the service, which hands back the service it leaves and its answer. A request is the
-- tuple of its fields. The embedder, the texts of errors and the outcome of a `select` with a
-- timeout are parameters.
pub mod Remote
pub mod Agreement
mod Tests
use vector_mcp_go.Base.{
  ℕ, Bool, true, Option, none, some, List, [], ◌∷◌, ◌++◌, length, ltb, if◌then◌else◌,
}
use vector_mcp_go.Base.Int.{ℤ}
use vector_mcp_go.Base.Text.{Text, codes}
use vector_mcp_go.Store.Hybrid.{Ranking, SearchError, hybrid_search}
use vector_mcp_go.Store.Readers.{
  get_path_hash_mapping, get_all_statuses, get_by_path, get_by_prefix, get_all_records,
  get_all_metadata,
}
use vector_mcp_go.Store.Search.{search_with_score, lexical_search}
use vector_mcp_go.Store.{
  Metadata, Document, Reply, failed, ok, Collection, Store, Found, insert, delete_by_prefix,
  clear_project, get_status,
}

-- `indexer.Embedder`
pub record Embedder (V F : Type 0) : Type 0 where
  pub embed : Text → Reply Text V
  pub embed_batch : List Text → Reply Text (List V)
  pub rerank_batch : Text → List Text → Reply Text (List F)

-- The texts of the store's errors, and what `HybridSearch` needs.
pub record Wire (col : Collection) : Type 0 where
  pub describe : col.Err → Text
  pub describe_search : SearchError col.Err → Text
  pub ranking : Ranking col

-- `Service`. The queue is a buffered channel: its entries and its capacity.
pub record Service (col : Collection) : Type 0 where
  pub embedder : Embedder col.Vector col.floats.F
  pub index_queue : List Text
  pub capacity : ℕ
  pub store : Option (Store col)
  pub progress_map : Option Metadata

abbrev pub described : {E A : Type 0} → (E → Text) → Reply E A → Reply Text A
described describe (failed e) = failed (describe e)
described describe (ok a) = ok a

module _ (col : Collection) (wire : Wire col) where
  open col use {floats, Vector, Err, count}
  open floats use {F}
  open wire use {describe, describe_search, ranking}

  abbrev pub Handler : Type 0 → Type 0
  Handler A = Service col → Service col × Reply Text A

  abbrev pub not_initialized : Text
  not_initialized = codes "master store not initialized"

  -- `if s.Store == nil { … }` before a method that reads the store.
  unfoldable pub with_store : {A : Type 0} → (Store col → Reply Text A) → Handler A
  with_store read svc = elim svc.store [
    | none ↦ (svc, failed not_initialized)
    | some store ↦ (svc, read store)
  ]

  -- `if err == nil { resp.Success = true }; return err`
  abbrev pub success : Option Err → Reply Text Bool
  success none = ok true
  success (some e) = failed (describe e)

  -- The same test before a method that writes to the store.
  unfoldable pub with_writing : (Store col → Store col × Option Err) → Handler Bool
  with_writing write svc = elim svc.store [
    | none ↦ (svc, failed not_initialized)
    | some store ↦ (record svc { store = some (write store).0 }, success (write store).1)
  ]

  unfoldable pub embed : Text → Handler Vector
  embed text svc = (svc, svc.embedder.embed text)

  unfoldable pub embed_batch : List Text → Handler (List Vector)
  embed_batch texts svc = (svc, svc.embedder.embed_batch texts)

  unfoldable pub rerank_batch : Text → List Text → Handler (List F)
  rerank_batch query texts svc = (svc, svc.embedder.rerank_batch query texts)

  -- The send on the queue, or the default case where it is full.
  unfoldable pub index_project : Text → Handler Bool
  index_project path svc =
      if ltb (length svc.index_queue) svc.capacity
      then (record svc { index_queue = svc.index_queue ++ path ∷ [] }, ok true)
      else (svc, failed (codes "master index queue is full"))

  unfoldable pub search : Vector → ℤ → List Text → Text → Handler (List (Found col) × List F)
  unfolding with_store
  search embedding top_k pids category =
      with_store (λ s. described describe (search_with_score col embedding top_k pids category s))

  unfoldable pub search_hybrid : Text → Vector → ℤ → List Text → Text → Handler (List (Found col))
  unfolding with_store
  search_hybrid query embedding top_k pids category = with_store (λ s.
      described describe_search (hybrid_search col ranking query embedding top_k pids category s))

  unfoldable pub search_lexical : Text → ℤ → List Text → Text → Handler (List (Found col))
  unfolding with_store
  search_lexical query top_k pids category =
      with_store (λ s. described describe (lexical_search col query top_k pids category s))

  unfoldable pub count_records : Handler ℕ
  unfolding with_store
  count_records = with_store (λ s. ok (count s.collection))

  unfoldable pub insert_records : List (Document Vector) → Handler Bool
  unfolding with_writing
  insert_records records = with_writing (insert col records)

  unfoldable pub delete_prefix : Text → Text → Handler Bool
  unfolding with_writing
  delete_prefix prefix project_id = with_writing (delete_by_prefix col prefix project_id)

  unfoldable pub clear : Text → Handler Bool
  unfolding with_writing
  clear project_id = with_writing (clear_project col project_id)

  -- A text, unless there is an error beside it.
  abbrev pub unless_error : Text × Option Err → Reply Text Text
  unless_error (text, none) = ok text
  unless_error (text, some e) = failed (describe e)

  unfoldable pub status : Text → Handler Text
  unfolding with_store
  status project_id = with_store (λ s. unless_error (get_status col project_id s))

  unfoldable pub all_statuses : Handler Metadata
  unfolding with_store
  all_statuses = with_store (λ s. described describe (get_all_statuses col s))

  unfoldable pub path_hash_mapping : Text → Handler Metadata
  unfolding with_store
  path_hash_mapping project_id =
      with_store (λ s. described describe (get_path_hash_mapping col project_id s))

  unfoldable pub all_records : Handler (List (Document Vector))
  unfolding with_store
  all_records = with_store (λ s. described describe (get_all_records col s))

  unfoldable pub all_metadata : Handler (List (Text × Metadata))
  unfolding with_store
  all_metadata = with_store (λ s. described describe (get_all_metadata col s))

  unfoldable pub by_path : Text → Text → Handler (List (Document Vector))
  unfolding with_store
  by_path path project_id = with_store (λ s. described describe (get_by_path col path project_id s))

  unfoldable pub by_prefix : Text → Text → Handler (List (Document Vector))
  unfolding with_store
  by_prefix prefix project_id =
      with_store (λ s. described describe (get_by_prefix col prefix project_id s))

  unfoldable pub progress : Handler Metadata
  progress svc = (svc, ok (elim svc.progress_map [ none ↦ [] | some m ↦ m ]))

  -- `MasterServer.UpdateEmbedder` and `MasterServer.UpdateStore`, on a server that may have none.
  unfoldable pub update_embedder : Embedder Vector F → Option (Service col) → Option (Service col)
  update_embedder e none = none
  update_embedder e (some svc) = some (record svc { embedder = e })

  unfoldable pub update_store : Option (Store col) → Option (Service col) → Option (Service col)
  update_store s none = none
  update_store s (some svc) = some (record svc { store = s })
